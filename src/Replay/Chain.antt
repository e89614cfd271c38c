-- ===== src/Replay/Chain.antt =====
-- The states along a replay of core/services/replay_engine.py.
use super_agent_platform.Inbound.Types.{ConversationEvent}
use super_agent_platform.Fsm.Engine.Selection.{
  Choice, process_event-Selects, unknown_guard, take_transition, select, outcome, stay,
}
use super_agent_platform.Fsm.Engine.{
  TransitionResult, FsmEngine, process_event, commit, ActionRegistry, init,
}
use super_agent_platform.Fsm.Schema.{StateConfig}
use super_agent_platform.Replay.{
  Machine, same_id, infer_fsm_event, record_result, replay_event, replay_events, Step, prepend,
  collect, Replayed, summarise, ReplayConversationData, Tables, load_conversation, run_engine,
  registry_for, replay_data, replay_conversation, replay_context,
}
use super_agent_platform.Base.{
  lookup, ℕ, String, ◌≡◌, refl, sym, subst, inl, inr, Bool, true, false, Option, none, some, List,
  [], ◌∷◌, arith, Bool-cases, Option-cases, Fields, has_key, Result, ok, err,
}

-- Each step starts where the one before ended, from a first state to a last one.
unfoldable pub Chain : String → List Step → String → Type 0
Chain q [] last_state = q ≡ last_state
Chain q (t ∷ ts) last_state = (t.state_before ≡ q) × Chain t.state_after ts last_state

module _ {W : Type 0} where
  -- A result of the machine names the state that the engine is in.
  abbrev NamesState : Result TransitionResult × FsmEngine W × W → Type 0
  NamesState (ok r, engine, w) = r.new_state ≡ engine.current_state
  NamesState (err x, engine, w) = Unit {0}

  abbrev LeadsFrom : String → Result Step × FsmEngine W × W → Type 0
  LeadsFrom q (ok t, engine, w) = (t.state_before ≡ q) × (t.state_after ≡ engine.current_state)
  LeadsFrom q (err x, engine, w) = Unit {0}

  abbrev ChainFrom : String → Result (List Step) × FsmEngine W × W → Type 0
  ChainFrom q (ok ts, engine, w) = Chain q ts engine.current_state
  ChainFrom q (err x, engine, w) = Unit {0}

  abbrev ChainOut : String → Result Replayed × W → Type 0
  ChainOut q (ok out, w) = Chain q out.transitions out.final_state
  ChainOut q (err x, w) = Unit {0}

  commit-NamesState :
      (engine : FsmEngine W) (target : String) (r : Result (List String) × W)
      → NamesState (commit engine target r)
  unfolding commit
  commit-NamesState engine target (err x, w) = tt
  commit-NamesState engine target (ok executed, w) = refl

  outcome-NamesState :
      (engine : FsmEngine W) (event : String) (context : Fields) (s : StateConfig) (c : Choice)
      (w : W)
      → NamesState (outcome engine event context s c w)
  outcome-NamesState engine event context s stay w = refl
  outcome-NamesState engine event context s (unknown_guard name) w = tt
  outcome-NamesState engine event context s (take_transition t) w =
      commit-NamesState engine t.target _

  process_event-NamesState :
      (engine : FsmEngine W) (event : String) (context : Fields) (w : W)
      → NamesState (process_event event context engine w)
  process_event-NamesState engine event context w =
      elim (Option-cases (lookup engine.current_state engine.config.states)) [
        | inl missing ↦ unfold process_event in rw (missing, process_event, NamesState) tt
        | inr (s, found) ↦
            let (c, by) = select engine event context s.allowed_transitions in
            subst NamesState (sym (process_event-Selects engine event context s c w found by))
              (outcome-NamesState engine event context s c w)
      ]

  record_result-LeadsFrom :
      (s : Machine W) (e : ConversationEvent) (fsm_event q : String)
      (p : Result TransitionResult × FsmEngine W × W)
      → NamesState p
      → LeadsFrom q (record_result s e fsm_event q p)
  unfolding record_result
  record_result-LeadsFrom s e fsm_event q (ok r, engine, w) same = (refl, same)
  record_result-LeadsFrom s e fsm_event q (err x, engine, w) same = tt

  replay_event-LeadsFrom :
      (s : Machine W) (context : Fields) (e : ConversationEvent) (inferred : Option String)
      (engine : FsmEngine W) (w : W)
      → LeadsFrom engine.current_state (replay_event s context e inferred engine w)
  unfolding replay_event
  replay_event-LeadsFrom s context e none engine w = (refl, refl)
  replay_event-LeadsFrom s context e (some fsm_event) engine w =
      record_result-LeadsFrom s e fsm_event engine.current_state _
        (process_event-NamesState engine fsm_event _ w)

  prepend-ChainFrom :
      (s : Machine W) (q : String) (t : Step) (p : Result (List Step) × FsmEngine W × W)
      → t.state_before ≡ q
      → ChainFrom t.state_after p
      → ChainFrom q (prepend s t p)
  unfolding Chain
  prepend-ChainFrom s q t (ok ts, engine, w) starts later = (starts, later)
  prepend-ChainFrom s q t (err x, engine, w) starts later = tt

  collect-ChainFrom :
      (s : Machine W) (q : String) (stops : Bool)
      (rest : FsmEngine W → W → Result (List Step) × FsmEngine W × W)
      (p : Result Step × FsmEngine W × W)
      → LeadsFrom q p
      → ((engine : FsmEngine W) (w : W) → ChainFrom engine.current_state (rest engine w))
      → ChainFrom q (collect s stops rest p)
  unfolding Chain
  collect-ChainFrom s q stops rest (err x, engine, w) leads later = tt
  collect-ChainFrom s q true rest (ok t, engine, w) leads later = leads
  collect-ChainFrom s q false rest (ok t, engine, w) (starts, ends) later =
      prepend-ChainFrom s q t (rest engine w) starts
        (subst (λ state. ChainFrom state (rest engine w)) (sym ends) (later engine w))

  replay_events-ChainFrom :
      (s : Machine W) (until_event_id : Option ℕ) (context : Fields)
      (events : List ConversationEvent) (engine : FsmEngine W) (w : W)
      → ChainFrom engine.current_state (replay_events s until_event_id context events engine w)
  unfolding replay_events Chain
  replay_events-ChainFrom s until_event_id context [] engine w = refl
  replay_events-ChainFrom s until_event_id context (e ∷ events) engine w =
      collect-ChainFrom s engine.current_state (same_id until_event_id e.id)
        (replay_events s until_event_id context events)
        (replay_event s context e (infer_fsm_event s e) engine w)
        (replay_event-LeadsFrom s context e (infer_fsm_event s e) engine w)
        (replay_events-ChainFrom s until_event_id context events)

  init-current_state :
      (s : Machine W) (actions : Option (ActionRegistry W)) (engine : FsmEngine W)
      → init s.fsm_config s.fsm_config.initial_state none actions s.default_guards s.default_actions
        ≡ ok engine
      → engine.current_state ≡ s.fsm_config.initial_state
  unfolding init
  init-current_state s actions engine h =
      elim (Bool-cases (has_key s.fsm_config.initial_state s.fsm_config.states)) [
        | inl known ↦ ground arith
        | inr unknown ↦ absurd (ground arith)
      ]

  summarise-Chain :
      (s : Machine W) (lead_id : ℕ) (dry_run : Bool) (q : String)
      (p : Result (List Step) × FsmEngine W × W) (out : Replayed) (w' : W)
      → ChainFrom q p
      → summarise s lead_id dry_run p ≡ (ok out, w')
      → Chain q out.transitions out.final_state
  unfolding summarise
  summarise-Chain s lead_id dry_run q (ok ts, engine, w) out w' chain h = subst (ChainOut q) h chain
  summarise-Chain s lead_id dry_run q (err x, engine, w) out w' chain h = absurd (ground arith)

  run_engine-Chain :
      (s : Machine W) (until_event_id : Option ℕ) (dry_run : Bool) (data_ : ReplayConversationData)
      (context : Fields) (made : Result (FsmEngine W)) (q : String) (w w' : W) (out : Replayed)
      → ((engine : FsmEngine W) → made ≡ ok engine → engine.current_state ≡ q)
      → run_engine s until_event_id dry_run data_ context made w ≡ (ok out, w')
      → Chain q out.transitions out.final_state
  unfolding run_engine
  run_engine-Chain s until_event_id dry_run data_ context (err x) q w w' out starts h =
      absurd (ground arith)
  run_engine-Chain s until_event_id dry_run data_ context (ok engine) q w w' out starts h =
      subst (λ state. Chain state out.transitions out.final_state) (starts engine refl)
        (summarise-Chain s data_.lead.id dry_run engine.current_state _ out w'
          (replay_events-ChainFrom s until_event_id context data_.events engine w) h)

  replay_data-Chain :
      (s : Machine W) (until_event_id : Option ℕ) (dry_run : Bool)
      (loaded : Result ReplayConversationData) (w w' : W) (out : Replayed)
      → replay_data s until_event_id dry_run loaded w ≡ (ok out, w')
      → Chain s.fsm_config.initial_state out.transitions out.final_state
  unfolding replay_data
  replay_data-Chain s until_event_id dry_run (err x) w w' out h = absurd (ground arith)
  replay_data-Chain s until_event_id dry_run (ok data_) w w' out h =
      run_engine-Chain s until_event_id dry_run data_ (replay_context s data_.lead) _
        s.fsm_config.initial_state w w' out (init-current_state s (registry_for s dry_run)) h

  -- Where a replay returns, its steps form a chain: the first starts in the initial state of the
  -- configuration, each starts in the state where the one before ended, and the final state is the
  -- one where the last ended.
  pub replay_conversation-Chain :
      (s : Machine W) (lead_id : ℕ) (until_event_id : Option ℕ) (dry_run : Bool) (tables : Tables)
      (w w' : W) (out : Replayed)
      → replay_conversation s lead_id until_event_id dry_run tables w ≡ (ok out, w')
      → Chain s.fsm_config.initial_state out.transitions out.final_state
  unfolding replay_conversation
  replay_conversation-Chain s lead_id until_event_id dry_run tables w w' out h =
      replay_data-Chain s until_event_id dry_run (load_conversation s lead_id tables) w w' out h
