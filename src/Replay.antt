-- ===== src/Replay.antt =====
-- The replay of a conversation on the state machine: core/services/replay_engine.py.
pub mod Chain
pub mod Dry
use super_agent_platform.Base.{
  sort_by, contains, strip, get, put, ℕ, String, ◌+++◌, Bool, true, false, not, ◌&&◌, ◌||◌, Option,
  none, some, List, [], ◌∷◌, ◌++◌, map, leb, ◌==◌, if◌then◌else◌, is_none, get_or, length, take,
  any, keep_if, find_first, Value, Fields, null, bool, str, end, field, Result, Exec, skip,
  value_error, ok, err, ℕ_eq, String_eq,
}
use super_agent_platform.Crm.Worker.{text_of}
use super_agent_platform.Fsm.Schema.{TransitionConfig, StateConfig, FsmConfig}
use super_agent_platform.Fsm.Engine.{
  GuardRegistry, ActionFunction, ActionRegistry, TransitionResult, FsmEngine, init, process_event,
}
use super_agent_platform.Fsm.Engine
use super_agent_platform.Inbound.Types.{ConversationEvent, Session, LeadProfile}
use super_agent_platform.Inbound.Store.{list_by_conversation, get_by_lead_id}

-- `ReplayConversationData`
pub record ReplayConversationData : Type 0 where
  pub lead : LeadProfile
  pub session : Option Session
  pub events : List ConversationEvent

-- An item of `transitions`.
pub record Step : Type 0 where
  pub event_id : ℕ
  pub event_type : String
  pub timestamp : ℕ
  pub fsm_event : Option String
  pub state_before : String
  pub state_after : String
  pub actions_executed : List String
  pub transition_taken : Bool
  pub no_transition_matched : Bool

-- The result of `replay_conversation`; `events_processed` is the number of transitions.
pub record Replayed : Type 0 where
  pub lead_id : ℕ
  pub dry_run : Bool
  pub transitions : List Step
  pub final_state : String
  pub events_processed : ℕ

-- The tables that a replay reads.
pub record Tables : Type 0 where
  pub leads : List LeadProfile
  pub sessions : List Session
  pub events : List ConversationEvent

-- The configuration, the keywords as `__init__` prepares them, the registries that an engine builds
-- for itself where it is given none, `str.casefold`, and the texts and names of UUIDs.
pub record Machine (W : Type 0) : Type 0 where
  pub fsm_config : FsmConfig
  pub handoff_keywords : List String
  pub opt_out_keywords : List String
  pub default_guards : GuardRegistry
  pub default_actions : ActionRegistry W
  pub casefold : String → String
  pub uuid_text : ℕ → String
  pub uuid5 : String → ℕ

abbrev pub replay_limit : ℕ
replay_limit = 2000

abbrev created_before : ConversationEvent → ConversationEvent → Bool
created_before r s = leb r.created_at s.created_at

abbrev pub same_id : Option ℕ → ℕ → Bool
same_id none id = false
same_id (some n) id = n == id

-- `list_by_lead_id` of event_repo.py
unfoldable pub list_by_lead_id : ℕ → ℕ → List ConversationEvent → List ConversationEvent
unfolding sort_by
list_by_lead_id lead_id limit rows =
    take limit
      (sort_by created_before (keep_if (λ (r : ConversationEvent). same_id r.lead_id lead_id) rows))

abbrev pub is_nil : {A : Type 0} → List A → Bool
is_nil [] = true
is_nil (_ ∷ _) = false

-- The actions of transitions.
abbrev pub actions_of : List TransitionConfig → List String
actions_of [] = []
actions_of (t ∷ ts) = t.actions ++ actions_of ts

-- The names of actions in a state.
abbrev pub action_names : StateConfig → List String
action_names s = s.on_enter ++ (s.on_exit ++ actions_of s.allowed_transitions)

-- The action that does nothing.
abbrev pub noop : {W : Type 0} → ActionFunction W
noop context = skip

-- `_build_noop_action_registry`; a name that occurs twice is the same action twice.
unfoldable pub build_noop_action_registry :
    {W : Type 0} → List (String × StateConfig) → ActionRegistry W
build_noop_action_registry [] = []
build_noop_action_registry ((_, s) ∷ states) =
    map (λ name. (name, noop)) (action_names s) ++ build_noop_action_registry states

-- What an event without an event of the machine is recorded as.
abbrev pub unmatched : ConversationEvent → String → Step
unmatched e state = record {
  event_id = e.id;
  event_type = e.event_type;
  timestamp = e.created_at;
  fsm_event = none;
  state_before = state;
  state_after = state;
  actions_executed = [];
  transition_taken = false;
  no_transition_matched = true;
}

-- What a result of the machine is recorded as.
abbrev pub matched : ConversationEvent → String → String → TransitionResult → Step
matched e fsm_event state r = record {
  event_id = e.id;
  event_type = e.event_type;
  timestamp = e.created_at;
  fsm_event = some fsm_event;
  state_before = state;
  state_after = r.new_state;
  actions_executed = r.actions_executed;
  transition_taken = r.transition_taken;
  no_transition_matched = r.no_transition_matched;
}

module _ {W : Type 0} (s : Machine W) where
  -- `load_conversation`
  unfoldable pub load_conversation : ℕ → Tables → Result ReplayConversationData
  unfolding get_by_lead_id list_by_lead_id list_by_conversation
  load_conversation lead_id tables =
      let session = get_by_lead_id lead_id tables.sessions in
      let events = list_by_lead_id lead_id replay_limit tables.events in
      elim (find_first (λ (l : LeadProfile). l.id == lead_id) tables.leads) [
        | none ↦ err (value_error ("lead not found: " +++ s.uuid_text lead_id))
        | some lead ↦ ok (record {
          lead = lead;
          session = session;
          events =
              if is_nil events && not (is_none session)
              then list_by_conversation (s.uuid5 ("whatsapp:" +++ lead.phone)) replay_limit
                  tables.events
              else events;
        })
      ]

  -- `_infer_fsm_event`
  unfoldable pub infer_fsm_event : ConversationEvent → Option String
  unfolding contains strip get
  infer_fsm_event e =
      let said = s.casefold (strip (get_or (text_of (get "text" e.payload)) "")) in
      if e.event_type == "handoff_requested"
      then some "handoff_requested"
      else if e.event_type == "system_agent_took_control"
          || e.event_type == "system_agent_released_control"
      then some "agent_command"
      else if not (e.event_type == "inbound_message")
      then none
      else if not (said == "") && any (λ keyword. contains keyword said) s.opt_out_keywords
      then some "opt_out_detected"
      else if not (said == "") && any (λ keyword. contains keyword said) s.handoff_keywords
      then some "handoff_requested"
      else some "user_message"

  -- The record of a call of `process_event`.
  unfoldable pub record_result :
      ConversationEvent
      → String
      → String
      → Result TransitionResult × FsmEngine W × W
      → Result Step × FsmEngine W × W
  record_result e fsm_event state (ok r, engine, w) = (ok (matched e fsm_event state r), engine, w)
  record_result e fsm_event state (err x, engine, w) = (err x, engine, w)

  -- The body of the loop of `replay_conversation` up to the `break`.
  unfoldable pub replay_event :
      Fields → ConversationEvent → Option String → FsmEngine W → W → Result Step × FsmEngine W × W
  unfolding put process_event record_result
  replay_event context e none engine w = (ok (unmatched e engine.current_state), engine, w)
  replay_event context e (some fsm_event) engine w =
      record_result e fsm_event engine.current_state (
        process_event fsm_event
          (if fsm_event == "opt_out_detected"
            then put "opt_out_detected" (bool true) context
            else context)
          engine w)

  -- A step before those that follow it.
  abbrev pub prepend :
      Step → Result (List Step) × FsmEngine W × W → Result (List Step) × FsmEngine W × W
  prepend t (ok ts, engine, w) = (ok (t ∷ ts), engine, w)
  prepend t (err x, engine, w) = (err x, engine, w)

  -- The end of a turn, which goes on or not.
  abbrev pub collect :
      Bool
      → (FsmEngine W → W → Result (List Step) × FsmEngine W × W)
      → Result Step × FsmEngine W × W
      → Result (List Step) × FsmEngine W × W
  collect stops rest (err x, engine, w) = (err x, engine, w)
  collect true rest (ok t, engine, w) = (ok (t ∷ []), engine, w)
  collect false rest (ok t, engine, w) = prepend t (rest engine w)

  -- The loop of `replay_conversation`. The entry of the context for an opt-out is false between two
  -- events.
  unfoldable pub replay_events :
      Option ℕ
      → Fields
      → List ConversationEvent
      → FsmEngine W
      → W
      → Result (List Step) × FsmEngine W × W
  unfolding infer_fsm_event replay_event
  replay_events until_event_id context [] engine w = (ok [], engine, w)
  replay_events until_event_id context (e ∷ events) engine w =
      collect (same_id until_event_id e.id) (replay_events until_event_id context events)
        (replay_event context e (infer_fsm_event e) engine w)

  -- The result of the loop.
  unfoldable pub summarise : ℕ → Bool → Result (List Step) × FsmEngine W × W → Result Replayed × W
  summarise lead_id dry_run (err x, engine, w) = (err x, w)
  summarise lead_id dry_run (ok ts, engine, w) = (
    ok (record {
      lead_id = lead_id;
      dry_run = dry_run;
      transitions = ts;
      final_state = engine.current_state;
      events_processed = length ts;
    }),
    w,
  )

  -- The name of a lead, in the context.
  abbrev pub name_value : Option String → Value
  name_value none = null
  name_value (some name) = str name

  -- `replay_conversation` from the engine on, where there is one.
  unfoldable pub run_engine :
      Option ℕ → Bool → ReplayConversationData → Fields → Result (FsmEngine W) → Exec W Replayed
  unfolding replay_events summarise
  run_engine until_event_id dry_run data_ context (err x) w = (err x, w)
  run_engine until_event_id dry_run data_ context (ok engine) w =
      summarise data_.lead.id dry_run (replay_events until_event_id context data_.events engine w)

  -- The context that every event starts with.
  abbrev pub replay_context : LeadProfile → Fields
  replay_context lead = field "phone" (str lead.phone) (
      field "name" (name_value lead.name)
        (field "is_silenced" (bool false) (field "opt_out_detected" (bool false) end)))

  -- `action_registry`: none lets the engine build its own.
  unfoldable pub registry_for : Bool → Option (ActionRegistry W)
  unfolding build_noop_action_registry
  registry_for true = some (build_noop_action_registry s.fsm_config.states)
  registry_for false = none

  -- `replay_conversation` from the construction of the engine on.
  unfoldable pub replay_data : Option ℕ → Bool → Result ReplayConversationData → Exec W Replayed
  unfolding init registry_for run_engine
  replay_data until_event_id dry_run (err x) w = (err x, w)
  replay_data until_event_id dry_run (ok data_) w =
      run_engine until_event_id dry_run data_ (replay_context data_.lead)
        (init s.fsm_config s.fsm_config.initial_state none (registry_for dry_run) s.default_guards
          s.default_actions)
        w

  -- `replay_conversation`
  unfoldable pub replay_conversation : ℕ → Option ℕ → Bool → Tables → Exec W Replayed
  unfolding load_conversation replay_data
  replay_conversation lead_id until_event_id dry_run tables =
      replay_data until_event_id dry_run (load_conversation lead_id tables)
