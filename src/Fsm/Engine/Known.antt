-- ===== src/Fsm/Engine/Known.antt =====
-- The engine of core/fsm/engine.py stays among the states of a validated configuration.
use super_agent_platform.Base.{
  lookup, String, ◌≡◌, sym, subst, inl, inr, Option, some, List, [], ◌∷◌, arith, ◌==◌, get_or,
  Bool-cases, All, Fields, has_key, Result, ok, err, ℕ_eq, String_eq,
}
use super_agent_platform.Fsm.Schema.{
  StateConfig, FsmConfig, TransitionConfig, validate_state_targets,
}
use super_agent_platform.Fsm.Schema.Closed.{
  HasState, TargetsKnown, StateClosed, IsClosed, validate_state_targets_iff, has_key→HasState,
}
use super_agent_platform.Fsm.Engine.Selection.{
  Selects, Choice, outcome, select, process_event-Selects, exhausted, chosen, no_guard, other_event,
  blocked,
}
use super_agent_platform.Fsm.Engine.{
  FsmEngine, GuardRegistry, ActionRegistry, init, commit, process_event,
}

pub lookup-StateClosed :
    (known rest : List (String × StateConfig)) (k : String) (s : StateConfig)
    → All (StateClosed known) rest
    → lookup k rest ≡ some s
    → TargetsKnown known s.allowed_transitions
unfolding lookup
lookup-StateClosed known [] k s h e = absurd (cc)
lookup-StateClosed known ((j, s') ∷ rest) k s h e = elim (Bool-cases (j == k)) [
  | inl same ↦
      let found : s' ≡ s = ground arith in
      subst (λ x. TargetsKnown known x.allowed_transitions) found h.0.0
  | inr other_key ↦ lookup-StateClosed known rest k s h.1 (ground arith)
]

module _ {W : Type 0} where
  -- The engine runs a closed configuration, and stands in one of its states.
  pub record IsReady (engine : FsmEngine W) : Type 0 where
    pub closed : IsClosed engine.config
    pub known : HasState engine.config.states engine.current_state

  -- A constructed engine over a validated configuration is ready.
  pub init-IsReady :
      (c : FsmConfig) (state : String) (g : Option GuardRegistry) (a : Option (ActionRegistry W))
      (dg : GuardRegistry) (da : ActionRegistry W) (engine : FsmEngine W)
      → validate_state_targets c ≡ ok c
      → init c state g a dg da ≡ ok engine
      → IsReady engine
  unfolding init
  init-IsReady c state g a dg da engine valid made = elim (Bool-cases (has_key state c.states)) [
    | inl there_is ↦
        let same : engine ≡ record {
          config = c;
          current_state = state;
          guard_registry = get_or g dg;
          action_registry = get_or a da;
        } =
          ground arith in
        subst IsReady (sym same) (record {
          closed = (validate_state_targets_iff c).0 valid;
          known = has_key→HasState c.states state there_is;
        })
    | inr none_such ↦ absurd (ground arith)
  ]

  commit-IsReady :
      (engine : FsmEngine W) (target : String) (r : Result (List String) × W)
      → IsReady engine
      → HasState engine.config.states target
      → IsReady (commit engine target r).1
  unfolding commit
  commit-IsReady engine target (err e, w) h t = h
  commit-IsReady engine target (ok executed, w) h t = record { closed = h.closed; known = t }

  -- The target of the transition that is taken is known.
  Selects-known :
      (engine : FsmEngine W) (event : String) (context : Fields) (s : StateConfig)
      {ts : List TransitionConfig} {c : Choice} (w : W)
      → IsReady engine
      → TargetsKnown engine.config.states ts
      → Selects engine event context ts c
      → IsReady (outcome engine event context s c w).1
  Selects-known engine event context s w h k exhausted = h
  Selects-known engine event context s w h k (chosen {t = t} g same found passes) =
      commit-IsReady engine t.target _ h k.0
  Selects-known engine event context s w h k (no_guard same missing) = h
  Selects-known engine event context s w h k (other_event differs rest) =
      Selects-known engine event context s w h k.1 rest
  Selects-known engine event context s w h k (blocked g same found fails rest) =
      Selects-known engine event context s w h k.1 rest

  pub process_event-IsReady :
      (engine : FsmEngine W) (event : String) (context : Fields) (w : W)
      → IsReady engine
      → IsReady (process_event event context engine w).1
  process_event-IsReady engine event context w h =
      let (s, found) = h.known in
      let (c, by) = select engine event context s.allowed_transitions in
      subst (λ r. IsReady r.1) (sym (process_event-Selects engine event context s c w found by))
        (Selects-known engine event context s w h
          (lookup-StateClosed engine.config.states engine.config.states engine.current_state s
            h.closed.states found)
          by)

  -- The engine after a sequence of events, each with its context; a raise loses only its event.
  pub after_events : List (String × Fields) → FsmEngine W → W → FsmEngine W × W
  after_events [] engine w = (engine, w)
  after_events ((event, context) ∷ rest) engine w =
      let (_, engine', w') = process_event event context engine w in after_events rest engine' w'

  after_events-IsReady :
      (events : List (String × Fields)) (engine : FsmEngine W) (w : W)
      → IsReady engine
      → IsReady (after_events events engine w).0
  unfolding after_events
  after_events-IsReady [] engine w h = h
  after_events-IsReady ((event, context) ∷ rest) engine w h =
      let (_, engine', w') = process_event event context engine w in
      after_events-IsReady rest engine' w' (process_event-IsReady engine event context w h)

  -- An engine constructed over a validated configuration stands in a state of its configuration
  -- after any sequence of events, whatever guards and actions are registered, also where events
  -- raise.
  pub after_events-known :
      (c : FsmConfig) (state : String) (g : Option GuardRegistry) (a : Option (ActionRegistry W))
      (dg : GuardRegistry) (da : ActionRegistry W) (engine : FsmEngine W)
      (events : List (String × Fields)) (w : W)
      → validate_state_targets c ≡ ok c
      → init c state g a dg da ≡ ok engine
      → let end_engine = (after_events events engine w).0 in
        HasState end_engine.config.states end_engine.current_state
  after_events-known c state g a dg da engine events w valid made =
      (after_events-IsReady events engine w
        (init-IsReady c state g a dg da engine valid made)).known
