-- ===== src/Fsm/Engine/Executed.antt =====
-- What a result of `process_event` of core/fsm/engine.py says of the actions and the state.
use super_agent_platform.Fsm.Engine.Selection.{
  guard_of, Choice, Selects, process_event-Selects, unknown_guard, take_transition, select, outcome,
  stay,
}
use super_agent_platform.Fsm.Schema.{TransitionConfig, StateConfig}
use mathlib.Core.List.{append-nil, append_assoc}
use super_agent_platform.Base.{
  lookup, String, ◌+++◌, ◌≡◌, refl, sym, ap, ◌∙◌, subst, inl, inr, true, false, Option, none, some,
  List, [], ◌∷◌, ◌++◌, arith, Option-cases, Fields, Error, Result, Exec, raise, ◌>>=◌, ◌>>◌,
  >>=-eq-ok, value_error, ok, err,
}
use super_agent_platform.Fsm.Engine.{
  ActionRegistry, execute_actions, FsmEngine, run_transition, enter_target, TransitionResult,
  action_context, commit, process_event, ActionFunction,
}

module _ {W : Type 0} where
  -- The actions of the names were called, one after the other, in the order of the names: each is
  -- the registered one, and acts on the world that the one before left, without a raise.
  pub data Called (registry : ActionRegistry W) (context : Fields)
      : List String → W → W → Type 0 where
    called_none : {w : W} → Called registry context [] w w
    called :
        {name : String} {names : List String} {w w' w'' : W} (f : ActionFunction W)
        → lookup name registry ≡ some f
        → f context w ≡ (ok tt, w')
        → Called registry context names w' w''
        → Called registry context (name ∷ names) w w''

  Called-append :
      {registry : ActionRegistry W} {context : Fields} {xs ys : List String} {w w' w'' : W}
      → Called registry context xs w w'
      → Called registry context ys w' w''
      → Called registry context (xs ++ ys) w w''
  Called-append called_none later = later
  Called-append (called f found ran rest) later = called f found ran (Called-append rest later)

  -- The executed names are the names given, in order, behind those executed before, and their
  -- actions were called.
  execute_actions_lem :
      (registry : ActionRegistry W) (names : List String) (context : Fields) (before : List String)
      (w w' : W) (executed : List String)
      → execute_actions registry names context before w ≡ (ok executed, w')
      → (executed ≡ before ++ names) × Called registry context names w w'
  unfolding execute_actions
  execute_actions_lem registry [] context before w w' executed h = (
    rw append-nil (ground arith),
    subst (λ v. Called registry context [] w v) (ap (λ (r : Result (List String) × W). r.1) h)
        called_none,
  )
  execute_actions_lem registry (name ∷ names) context before w w' executed h =
      elim (Option-cases (lookup name registry)) [
        | inl missing ↦ absurd (ground arith)
        | inr (f, found) ↦
            let later = execute_actions registry names context (before ++ name ∷ []) in
            let (u, w₁, ran, rest) =
              >>=-eq-ok (f context) (λ (_ : Unit {0}). later) w
                (subst
                  (λ o.
                    (elim o as (λ (_ : Option (ActionFunction W)). Exec W (List String)) [
                      | none ↦ raise (value_error ("unknown action: '" +++ name +++ "'"))
                      | some action_fn ↦ action_fn context >> later
                    ])
                      w
                    ≡ (ok executed, w'))
                  found h) in
            let (names_of, calls) =
              execute_actions_lem registry names context (before ++ name ∷ []) w₁ w' executed
                rest in
            (names_of ∙ append_assoc before (name ∷ []) names, called f found ran calls)
      ]

  -- A run of a transition executes the exit actions of the state, the transition's and the
  -- entry actions of the target.
  run_transition_lem :
      (engine : FsmEngine W) (s : StateConfig) (t : TransitionConfig) (context : Fields) (w w' : W)
      (executed : List String)
      → run_transition engine s t context w ≡ (ok executed, w')
      → (target : StateConfig) × (lookup t.target engine.config.states ≡ some target)
        × (executed ≡ s.on_exit ++ (t.actions ++ target.on_enter))
        × Called engine.action_registry context (s.on_exit ++ (t.actions ++ target.on_enter)) w w'
  unfolding run_transition
  run_transition_lem engine s t context w w' executed h =
      let registry = engine.action_registry in
      let (exited, w₁, first, after_exit) =
        >>=-eq-ok (execute_actions registry s.on_exit context [])
          (λ (exited : List String).
            execute_actions registry t.actions context exited >>= enter_target engine t context)
          w h in
      let (moved, w₂, second, entered) =
        >>=-eq-ok (execute_actions registry t.actions context exited)
          (enter_target engine t context) w₁ after_exit in
      let (names₁, calls₁) = execute_actions_lem registry s.on_exit context [] w w₁ exited first in
      let (names₂, calls₂) =
        execute_actions_lem registry t.actions context exited w₁ w₂ moved second in
      elim (Option-cases (lookup t.target engine.config.states)) [
        | inl missing ↦ absurd (ground arith)
        | inr (target, found) ↦
            let (names₃, calls₃) =
              execute_actions_lem registry target.on_enter context moved w₂ w' executed
                (ground arith) in
            (
              target,
              found,
              ground
                  (arith, names₁, names₂, names₃, append_assoc s.on_exit t.actions target.on_enter),
              Called-append calls₁ (Called-append calls₂ calls₃),
            )
      ]

  commit_raise :
      (engine : FsmEngine W) (target : String) (r : Result (List String) × W) (e : Error)
      → (commit engine target r).0 ≡ err e
      → (commit engine target r).1 ≡ engine
  unfolding commit
  commit_raise engine target (err x, w) e h = refl
  commit_raise engine target (ok executed, w) e h = absurd (ground arith)

  outcome_raise :
      (engine : FsmEngine W) (event : String) (context : Fields) (s : StateConfig) (c : Choice)
      (w : W) (e : Error)
      → (outcome engine event context s c w).0 ≡ err e
      → (outcome engine event context s c w).1 ≡ engine
  outcome_raise engine event context s stay w e h = refl
  outcome_raise engine event context s (unknown_guard name) w e h = refl
  outcome_raise engine event context s (take_transition t) w e h =
      commit_raise engine t.target _ e h

  -- Where `process_event` raises, for an unknown guard, an unknown action or an action's own
  -- exception, the engine is as it was before the event.
  process_event_raise :
      (engine : FsmEngine W) (event : String) (context : Fields) (w : W) (e : Error)
      → (process_event event context engine w).0 ≡ err e
      → (process_event event context engine w).1 ≡ engine
  process_event_raise engine event context w e h =
      elim (Option-cases (lookup engine.current_state engine.config.states)) [
        | inl missing ↦ unfold process_event in rw (missing, process_event)
        | inr (s, found) ↦
            let (c, by) = select engine event context s.allowed_transitions in
            let same = process_event-Selects engine event context s c w found by in
            subst (λ r. r.1 ≡ engine) (sym same)
              (outcome_raise engine event context s c w e (subst (λ r. r.0 ≡ err e) same h))
      ]

  -- When a transition is taken without a raise, its target is a state of the configuration, the
  -- engine moves to it and nothing else of the engine changes; the actions on exit of the old
  -- state, the transition's and those on entry of the target were called in this order, each on the
  -- world that the one before left and none with a raise, and the world afterwards is the one that
  -- the last of them left; the result names the old and the new state, and these actions.
  pub process_event-taken :
      (engine : FsmEngine W) (event : String) (context : Fields) (s : StateConfig)
      (t : TransitionConfig) (w w' : W) (r : TransitionResult) (engine' : FsmEngine W)
      → lookup engine.current_state engine.config.states ≡ some s
      → Selects engine event context s.allowed_transitions (take_transition t)
      → process_event event context engine w ≡ (ok r, engine', w')
      → (target : StateConfig) × (lookup t.target engine.config.states ≡ some target)
        × Called engine.action_registry
            (action_context context event engine.current_state t.target (guard_of t))
            (s.on_exit ++ (t.actions ++ target.on_enter))
            w
            w'
        × (engine' ≡ record engine { current_state = t.target })
        × (r ≡ record {
          old_state = engine.current_state;
          new_state = t.target;
          actions_executed = s.on_exit ++ (t.actions ++ target.on_enter);
          transition_taken = true;
          no_transition_matched = false;
        })
  unfolding commit
  process_event-taken engine event context s t w w' r engine' found by done =
      let extended = action_context context event engine.current_state t.target (guard_of t) in
      let same = process_event-Selects engine event context s (take_transition t) w found by in
      go (run_transition engine s t extended w) refl (sym same ∙ done)
    where
      go :
          (x : Result (List String) × W)
          → run_transition engine s t
              (action_context context event engine.current_state t.target (guard_of t))
              w
            ≡ x
          → commit engine t.target x ≡ (ok r, engine', w')
          → (target : StateConfig) × (lookup t.target engine.config.states ≡ some target)
            × Called engine.action_registry
                (action_context context event engine.current_state t.target (guard_of t))
                (s.on_exit ++ (t.actions ++ target.on_enter))
                w
                w'
            × (engine' ≡ record engine { current_state = t.target })
            × (r ≡ record {
              old_state = engine.current_state;
              new_state = t.target;
              actions_executed = s.on_exit ++ (t.actions ++ target.on_enter);
              transition_taken = true;
              no_transition_matched = false;
            })
      go (err e, v) ran h = absurd (ground arith)
      go (ok executed, v) ran h =
          let (target, known, names, calls) =
            run_transition_lem engine s t
              (action_context context event engine.current_state t.target (guard_of t)) w v executed
              ran in
          (
            target,
            known,
            subst
                (Called engine.action_registry
                  (action_context context event engine.current_state t.target (guard_of t))
                  (s.on_exit ++ (t.actions ++ target.on_enter)) w)
                (ap (λ (x : Result TransitionResult × FsmEngine W × W). x.2) h) calls,
            ground arith,
            ground arith,
          )
