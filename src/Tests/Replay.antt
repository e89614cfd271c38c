-- ===== src/Tests/Replay.antt =====
-- The replay of a conversation at a machine of two states and two messages.
use super_agent_platform.Replay.Dry.{replay_conversation-dry_run}
use super_agent_platform.Replay.Chain.{Chain, replay_conversation-Chain}
use super_agent_platform.Inbound.Types.{ConversationEvent}
use super_agent_platform.Fsm.Engine.{ActionFunction}
use super_agent_platform.Fsm.Schema.{TransitionConfig, StateConfig}
use super_agent_platform.Replay.{Replayed, Tables, Machine, replay_conversation, Step}
use super_agent_platform.Base.{
  lookup, merge, ℕ, String, ◌≡◌, refl, true, false, none, some, List, [], ◌∷◌, ◌++◌, str, end,
  field, value_error, ok, err,
}

abbrev greet : TransitionConfig
greet = record { target = "greeting"; event = "user_message"; guard = none; actions = "log" ∷ [] }

abbrev ask_agent : TransitionConfig
ask_agent = record {
  target = "idle";
  event = "handoff_requested";
  guard = none;
  actions = "notify" ∷ [];
}

abbrev state_with : TransitionConfig → StateConfig
state_with t = record {
  description = "";
  allowed_transitions = t ∷ [];
  on_enter = "update_session" ∷ [];
  on_exit = [];
  timeout_minutes = none;
  timeout_target = none;
}

-- The actions of the tests leave their names.
abbrev note : String → ActionFunction (List String)
note name context w = (ok tt, w ++ name ∷ [])

abbrev machine : Machine (List String)
machine = record {
  fsm_config = record {
    initial_state = "idle";
    states = ("idle", state_with greet) ∷ ("greeting", state_with ask_agent) ∷ [];
  };
  handoff_keywords = "asesor" ∷ [];
  opt_out_keywords = "baja" ∷ [];
  default_guards = ("always", λ context. true) ∷ [];
  default_actions =
      ("log", note "log")
      ∷ ("notify", note "notify")
      ∷ ("update_session", note "update_session")
      ∷ [];
  casefold = λ s. s;
  uuid_text = λ n. "7";
  uuid5 = λ s. 1;
}

abbrev inbound : ℕ → String → ConversationEvent
inbound n said = record {
  id = n;
  conversation_id = 1;
  lead_id = some 7;
  event_type = "inbound_message";
  payload = field "text" (str said) end;
  created_at = n;
  message_id = none;
}

abbrev tables : Tables
tables = record {
  leads =
      record {
        id = 7;
        external_crm_id = none;
        phone = "5215550001";
        name = none;
        source = "whatsapp";
        attributes = end;
        created_at = 0;
        updated_at = 0;
      }
      ∷ [];
  sessions = [];
  events = inbound 2 "un asesor" ∷ inbound 1 "hola" ∷ [];
}

abbrev said_hello : Step
said_hello = record {
  event_id = 1;
  event_type = "inbound_message";
  timestamp = 1;
  fsm_event = some "user_message";
  state_before = "idle";
  state_after = "greeting";
  actions_executed = "log" ∷ "update_session" ∷ [];
  transition_taken = true;
  no_transition_matched = false;
}

abbrev asked_agent : Step
asked_agent = record {
  event_id = 2;
  event_type = "inbound_message";
  timestamp = 2;
  fsm_event = some "handoff_requested";
  state_before = "greeting";
  state_after = "idle";
  actions_executed = "notify" ∷ "update_session" ∷ [];
  transition_taken = true;
  no_transition_matched = false;
}

abbrev both : Replayed
both = record {
  lead_id = 7;
  dry_run = false;
  transitions = said_hello ∷ asked_agent ∷ [];
  final_state = "idle";
  events_processed = 2;
}

abbrev left_by_both : List String
left_by_both = "log" ∷ "update_session" ∷ "notify" ∷ "update_session" ∷ []

real_run : replay_conversation machine 7 none false tables [] ≡ (ok both, left_by_both)
unfolding replay_conversation lookup merge
real_run = refl

missing_lead :
    replay_conversation machine 8 none true tables [] ≡ (err (value_error "lead not found: 7"), [])
unfolding replay_conversation
missing_lead = refl

until_first :
    (replay_conversation machine 7 (some 1) true tables []).0
    ≡ ok (record {
      lead_id = 7;
      dry_run = true;
      transitions = said_hello ∷ [];
      final_state = "greeting";
      events_processed = 1;
    })
unfolding replay_conversation lookup merge
until_first = refl

replay_conversation-Chain_example : Chain "idle" both.transitions both.final_state
replay_conversation-Chain_example =
    replay_conversation-Chain machine 7 none false tables [] left_by_both both real_run

replay_conversation-dry_run_example :
    (replay_conversation machine 7 none true tables ("before" ∷ [])).1 ≡ "before" ∷ []
replay_conversation-dry_run_example =
    replay_conversation-dry_run machine 7 none tables ("before" ∷ [])
