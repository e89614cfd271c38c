-- ===== src/Tests/Fsm.antt =====
-- The machine of core/fsm at a configuration of two states.
use mathlib.Core.Bool.{false≢true}
use super_agent_platform.Base.{
  lookup, merge, String, ◌≡◌, refl, ◌↔◌, true, false, none, some, List, [], ◌∷◌, ◌++◌, eq_iff,
  Fields, end, Exec, value_error, ok, err,
}
use super_agent_platform.Fsm.Schema.{
  TransitionConfig, StateConfig, FsmConfig, check_targets, check_timeout_target, check_states,
  validate_state_targets,
}
use super_agent_platform.Fsm.Schema.Closed.{HasState, IsClosed, validate_state_targets_iff}
use super_agent_platform.Fsm.Engine.{
  GuardRegistry, ActionRegistry, TransitionResult, FsmEngine, init, process_event, action_context,
}
use super_agent_platform.Fsm.Engine.Known.{after_events, after_events-known}
use super_agent_platform.Fsm.Engine.Selection.{
  Selects, outcome, process_event-Selects, take_transition, chosen, other_event, guard_of,
}
use super_agent_platform.Fsm.Engine.Executed.{process_event-taken, Called}

abbrev greet : TransitionConfig
greet = record {
  target = "greeting";
  event = "user_message";
  guard = some "is_not_silenced";
  actions = "log" ∷ [];
}

abbrev bad_guard : TransitionConfig
bad_guard = record { target = "idle"; event = "poll"; guard = some "missing"; actions = [] }

abbrev idle_state : StateConfig
idle_state = record {
  description = "Idle";
  allowed_transitions = bad_guard ∷ greet ∷ [];
  on_enter = [];
  on_exit = "leave" ∷ [];
  timeout_minutes = none;
  timeout_target = none;
}

abbrev greeting_state : StateConfig
greeting_state = record {
  description = "Greeting";
  allowed_transitions = [];
  on_enter = "update_session" ∷ [];
  on_exit = [];
  timeout_minutes = some 240;
  timeout_target = some "idle";
}

abbrev tiny : FsmConfig
tiny = record {
  initial_state = "idle";
  states = ("idle", idle_state) ∷ ("greeting", greeting_state) ∷ [];
}

abbrev dangling : FsmConfig
dangling = record { initial_state = "idle"; states = ("idle", idle_state) ∷ [] }

validate_accepts : validate_state_targets tiny ≡ ok tiny
unfolding validate_state_targets check_states check_targets check_timeout_target lookup
validate_accepts = refl

validate_rejects :
    validate_state_targets dangling
    ≡ err (value_error "state 'idle' references unknown transition target 'greeting'")
unfolding validate_state_targets check_states check_targets check_timeout_target lookup
validate_rejects = refl

validate_state_targets_iff_example : (validate_state_targets tiny ≡ ok tiny) ↔ IsClosed tiny
validate_state_targets_iff_example = validate_state_targets_iff tiny

-- The actions of the tests keep their names.
abbrev note : String → Fields → Exec (List String) (Unit {0})
note name context w = (ok tt, w ++ name ∷ [])

abbrev guards : GuardRegistry
guards = ("is_not_silenced", λ context. true) ∷ []

abbrev actions : ActionRegistry (List String)
actions =
    ("leave", note "leave") ∷ ("log", note "log") ∷ ("update_session", note "update_session") ∷ []

abbrev engine : FsmEngine (List String)
engine = record {
  config = tiny;
  current_state = "idle";
  guard_registry = guards;
  action_registry = actions;
}

made : init tiny "idle" (some guards) (some actions) [] [] ≡ ok engine
unfolding init lookup
made = refl

after_events-known_example :
    let end_engine = (after_events (("user_message", end) ∷ ("poll", end) ∷ []) engine []).0 in
    HasState end_engine.config.states end_engine.current_state
after_events-known_example =
    after_events-known tiny "idle" (some guards) (some actions) [] [] engine
      (("user_message", end) ∷ ("poll", end) ∷ []) [] validate_accepts made

Selects-greet :
    Selects engine "user_message" end idle_state.allowed_transitions (take_transition greet)
unfolding lookup
Selects-greet =
    other_event (λ e. false≢true ((eq_iff "poll" "user_message").1 e))
      (chosen (λ context. true) refl refl refl)

found_idle : lookup engine.current_state engine.config.states ≡ some idle_state
unfolding lookup
found_idle = refl

process_event-Selects_example :
    process_event "user_message" end engine []
    ≡ outcome engine "user_message" end idle_state (take_transition greet) []
process_event-Selects_example =
    process_event-Selects engine "user_message" end idle_state (take_transition greet) [] found_idle
      Selects-greet

abbrev greeted : TransitionResult
greeted = record {
  old_state = "idle";
  new_state = "greeting";
  actions_executed = "leave" ∷ "log" ∷ "update_session" ∷ [];
  transition_taken = true;
  no_transition_matched = false;
}

greeted_run : process_event "user_message" end engine [] ≡ (
  ok greeted,
  record engine { current_state = "greeting" },
  "leave" ∷ "log" ∷ "update_session" ∷ [],
)
unfolding process_event lookup merge
greeted_run = refl

process_event-taken_example :
    (target : StateConfig) × (lookup greet.target engine.config.states ≡ some target)
    × Called engine.action_registry
        (action_context end "user_message" engine.current_state greet.target (guard_of greet))
        (idle_state.on_exit ++ (greet.actions ++ target.on_enter))
        []
        ("leave" ∷ "log" ∷ "update_session" ∷ [])
    × (record engine { current_state = "greeting" }
        ≡ record engine { current_state = greet.target })
    × (greeted ≡ record {
      old_state = engine.current_state;
      new_state = greet.target;
      actions_executed = idle_state.on_exit ++ (greet.actions ++ target.on_enter);
      transition_taken = true;
      no_transition_matched = false;
    })
process_event-taken_example =
    process_event-taken engine "user_message" end idle_state greet []
      ("leave" ∷ "log" ∷ "update_session" ∷ []) greeted
      (record engine { current_state = "greeting" }) found_idle Selects-greet greeted_run

poll_raises : (process_event "poll" end engine []).0 ≡ err (value_error "unknown guard: 'missing'")
unfolding process_event lookup merge
poll_raises = refl
