-- ===== src/Replay/Dry.antt =====
-- The dry run of core/services/replay_engine.py, whose actions do nothing.
use super_agent_platform.Inbound.Types.{ConversationEvent}
use super_agent_platform.Fsm.Engine.Selection.{
  Choice, process_event-Selects, unknown_guard, take_transition, select, outcome, stay,
}
use super_agent_platform.Fsm.Engine.{
  ActionFunction, ActionRegistry, TransitionResult, FsmEngine, execute_actions, enter_target,
  run_transition, process_event, commit, init,
}
use super_agent_platform.Fsm.Schema.{TransitionConfig, StateConfig}
use super_agent_platform.Replay.{
  Machine, same_id, action_names, build_noop_action_registry, infer_fsm_event, record_result,
  replay_event, replay_events, Step, noop, prepend, collect, ReplayConversationData, Tables,
  load_conversation, summarise, replay_data, replay_conversation, run_engine, registry_for,
  replay_context,
}
use super_agent_platform.Base.{
  lookup, ℕ, String, ◌≡◌, refl, sym, ◌∙◌, subst, inl, inr, Bool, true, false, Option, none, some,
  List, [], ◌∷◌, ◌++◌, map, arith, ◌==◌, Bool-cases, Option-cases, Fields, has_key, Result, ◌>>=◌,
  >>=-state, ok, err, ℕ_eq, String_eq,
}

module _ {W : Type 0} where
  -- Every action of the registry leaves the world as it is.
  abbrev pub Idle : ActionRegistry W → Type 0
  Idle registry =
      (name : String) (f : ActionFunction W)
      → lookup name registry ≡ some f
      → (context : Fields) (w : W) → (f context w).1 ≡ w

  noops-Idle :
      (names : List String) (registry : ActionRegistry W)
      → Idle registry
      → Idle (map (λ name. (name, noop)) names ++ registry)
  unfolding lookup
  noops-Idle [] registry idle name f found context w = idle name f found context w
  noops-Idle (n ∷ names) registry idle name f found context w = elim (Bool-cases (n == name)) [
    | inl same ↦ ground arith
    | inr differs ↦ noops-Idle names registry idle name f (ground arith) context w
  ]

  pub build_noop_action_registry-Idle :
      (states : List (String × StateConfig)) → Idle (build_noop_action_registry states)
  unfolding build_noop_action_registry lookup
  build_noop_action_registry-Idle [] = λ name f found context w. absurd (ground arith)
  build_noop_action_registry-Idle ((_, s) ∷ states) =
      noops-Idle (action_names s) (build_noop_action_registry states)
        (build_noop_action_registry-Idle states)

  execute_actions-Idle :
      (registry : ActionRegistry W) (names : List String) (context : Fields) (before : List String)
      (w : W)
      → Idle registry
      → (execute_actions registry names context before w).1 ≡ w
  unfolding execute_actions
  execute_actions-Idle registry [] context before w idle = refl
  execute_actions-Idle registry (name ∷ names) context before w idle =
      elim (Option-cases (lookup name registry)) [
        | inl missing ↦ rw (missing, execute_actions) refl
        | inr (f, found) ↦
            rw (found, execute_actions)
              (>>=-state (f context)
                  (λ _. execute_actions registry names context (before ++ name ∷ [])) w
                  (λ _ v. execute_actions-Idle registry names context (before ++ name ∷ []) v idle)
                ∙ idle name f found context w)
      ]

  enter_target-Idle :
      (engine : FsmEngine W) (t : TransitionConfig) (context : Fields) (moved : List String) (w : W)
      → Idle engine.action_registry
      → (enter_target engine t context moved w).1 ≡ w
  unfolding enter_target
  enter_target-Idle engine t context moved w idle =
      elim (Option-cases (lookup t.target engine.config.states)) [
        | inl missing ↦ rw (missing, enter_target) refl
        | inr (target, found) ↦
            rw (found, enter_target)
              (execute_actions-Idle engine.action_registry target.on_enter context moved w idle)
      ]

  run_transition-Idle :
      (engine : FsmEngine W) (s : StateConfig) (t : TransitionConfig) (context : Fields) (w : W)
      → Idle engine.action_registry
      → (run_transition engine s t context w).1 ≡ w
  unfolding run_transition
  run_transition-Idle engine s t context w idle =
      let registry = engine.action_registry in
      >>=-state (execute_actions registry s.on_exit context [])
        (λ (exited : List String).
          execute_actions registry t.actions context exited >>= enter_target engine t context)
        w
        (λ exited v.
          >>=-state (execute_actions registry t.actions context exited)
            (enter_target engine t context) v
            (λ moved u. enter_target-Idle engine t context moved u idle)
          ∙ execute_actions-Idle registry t.actions context exited v idle)
      ∙ execute_actions-Idle registry s.on_exit context [] w idle

  -- The engine keeps its registry and the world its value.
  abbrev Stays : ActionRegistry W → W → {A : Type 0} → Result A × FsmEngine W × W → Type 0
  Stays registry v (_, engine, w) = (engine.action_registry ≡ registry) × (w ≡ v)

  commit-Stays :
      (engine : FsmEngine W) (target : String) (r : Result (List String) × W) (v : W)
      → r.1 ≡ v
      → Stays engine.action_registry v (commit engine target r)
  unfolding commit
  commit-Stays engine target (err x, w) v same = (refl, same)
  commit-Stays engine target (ok executed, w) v same = (refl, same)

  outcome-Stays :
      (engine : FsmEngine W) (event : String) (context : Fields) (s : StateConfig) (c : Choice)
      (w : W)
      → Idle engine.action_registry
      → Stays engine.action_registry w (outcome engine event context s c w)
  outcome-Stays engine event context s stay w idle = (refl, refl)
  outcome-Stays engine event context s (unknown_guard name) w idle = (refl, refl)
  outcome-Stays engine event context s (take_transition t) w idle =
      commit-Stays engine t.target _ w (run_transition-Idle engine s t _ w idle)

  process_event-Stays :
      (engine : FsmEngine W) (event : String) (context : Fields) (w : W)
      → Idle engine.action_registry
      → Stays engine.action_registry w (process_event event context engine w)
  process_event-Stays engine event context w idle =
      elim (Option-cases (lookup engine.current_state engine.config.states)) [
        | inl missing ↦ unfold process_event in rw (missing, process_event, Stays) (refl, refl)
        | inr (s, found) ↦
            let (c, by) = select engine event context s.allowed_transitions in
            subst (Stays engine.action_registry w)
              (sym (process_event-Selects engine event context s c w found by))
              (outcome-Stays engine event context s c w idle)
      ]

  record_result-Stays :
      (s : Machine W) (e : ConversationEvent) (fsm_event q : String) (registry : ActionRegistry W)
      (v : W) (p : Result TransitionResult × FsmEngine W × W)
      → Stays registry v p
      → Stays registry v (record_result s e fsm_event q p)
  unfolding record_result
  record_result-Stays s e fsm_event q registry v (ok r, engine, w) same = same
  record_result-Stays s e fsm_event q registry v (err x, engine, w) same = same

  replay_event-Stays :
      (s : Machine W) (context : Fields) (e : ConversationEvent) (inferred : Option String)
      (engine : FsmEngine W) (w : W)
      → Idle engine.action_registry
      → Stays engine.action_registry w (replay_event s context e inferred engine w)
  unfolding replay_event
  replay_event-Stays s context e none engine w idle = (refl, refl)
  replay_event-Stays s context e (some fsm_event) engine w idle =
      record_result-Stays s e fsm_event engine.current_state engine.action_registry w _
        (process_event-Stays engine fsm_event _ w idle)

  prepend-state :
      (s : Machine W) (t : Step) (p : Result (List Step) × FsmEngine W × W)
      → (prepend s t p).2 ≡ p.2
  prepend-state s t (ok ts, engine, w) = refl
  prepend-state s t (err x, engine, w) = refl

  collect-state :
      (s : Machine W) (registry : ActionRegistry W) (v : W) (stops : Bool)
      (rest : FsmEngine W → W → Result (List Step) × FsmEngine W × W)
      (p : Result Step × FsmEngine W × W)
      → Stays registry v p
      → ((engine : FsmEngine W) → engine.action_registry ≡ registry → (rest engine v).2 ≡ v)
      → (collect s stops rest p).2 ≡ v
  collect-state s registry v stops rest (err x, engine, w) (kept, same) later = same
  collect-state s registry v true rest (ok t, engine, w) (kept, same) later = same
  collect-state s registry v false rest (ok t, engine, w) (kept, same) later =
      prepend-state s t (rest engine w)
      ∙ subst (λ u. (rest engine u).2 ≡ v) (sym same) (later engine kept)

  pub replay_events-state :
      (s : Machine W) (until_event_id : Option ℕ) (context : Fields)
      (events : List ConversationEvent) (engine : FsmEngine W) (w : W)
      → Idle engine.action_registry
      → (replay_events s until_event_id context events engine w).2 ≡ w
  unfolding replay_events
  replay_events-state s until_event_id context [] engine w idle = refl
  replay_events-state s until_event_id context (e ∷ events) engine w idle =
      collect-state s engine.action_registry w (same_id until_event_id e.id)
        (replay_events s until_event_id context events)
        (replay_event s context e (infer_fsm_event s e) engine w)
        (replay_event-Stays s context e (infer_fsm_event s e) engine w idle)
        (λ next kept.
          replay_events-state s until_event_id context events next w (subst Idle (sym kept) idle))

  init-action_registry :
      (s : Machine W) (registry : ActionRegistry W) (engine : FsmEngine W)
      → init s.fsm_config s.fsm_config.initial_state none
          (some registry)
          s.default_guards
          s.default_actions
        ≡ ok engine
      → engine.action_registry ≡ registry
  unfolding init
  init-action_registry s registry engine h =
      elim (Bool-cases (has_key s.fsm_config.initial_state s.fsm_config.states)) [
        | inl known ↦ ground arith
        | inr unknown ↦ absurd (ground arith)
      ]

  summarise-state :
      (s : Machine W) (lead_id : ℕ) (dry_run : Bool) (p : Result (List Step) × FsmEngine W × W)
      → (summarise s lead_id dry_run p).1 ≡ p.2
  unfolding summarise
  summarise-state s lead_id dry_run (ok ts, engine, w) = refl
  summarise-state s lead_id dry_run (err x, engine, w) = refl

  run_engine-state :
      (s : Machine W) (until_event_id : Option ℕ) (data_ : ReplayConversationData)
      (context : Fields) (w : W) (made : Result (FsmEngine W))
      → ((engine : FsmEngine W) → made ≡ ok engine → Idle engine.action_registry)
      → (run_engine s until_event_id true data_ context made w).1 ≡ w
  unfolding run_engine
  run_engine-state s until_event_id data_ context w (err x) idle = refl
  run_engine-state s until_event_id data_ context w (ok engine) idle =
      summarise-state s data_.lead.id true _
      ∙ replay_events-state s until_event_id context data_.events engine w (idle engine refl)

  replay_data-state :
      (s : Machine W) (until_event_id : Option ℕ) (loaded : Result ReplayConversationData) (w : W)
      → (replay_data s until_event_id true loaded w).1 ≡ w
  unfolding replay_data registry_for
  replay_data-state s until_event_id (err x) w = refl
  replay_data-state s until_event_id (ok data_) w =
      run_engine-state s until_event_id data_ (replay_context s data_.lead) w _ (λ engine made.
        subst Idle (sym (init-action_registry s _ engine made))
          (build_noop_action_registry-Idle s.fsm_config.states))

  -- Whatever the tables hold and the machine's own actions would do, and whether the replay returns
  -- or raises, a dry run leaves the world as it is.
  pub replay_conversation-dry_run :
      (s : Machine W) (lead_id : ℕ) (until_event_id : Option ℕ) (tables : Tables) (w : W)
      → (replay_conversation s lead_id until_event_id true tables w).1 ≡ w
  unfolding replay_conversation
  replay_conversation-dry_run s lead_id until_event_id tables w =
      replay_data-state s until_event_id (load_conversation s lead_id tables) w
