-- ===== src/Fsm/Engine.antt =====
-- The engine of the conversation state machine: core/fsm/engine.py.
-- Guards are total functions of the context; an action acts on a world `W` and may raise.
pub mod Known
pub mod Selection
pub mod Executed
use super_agent_platform.Base.{
  lookup, merge, String, ◌+++◌, Bool, true, false, not, Option, none, some, List, [], ◌∷◌, ◌++◌,
  ◌==◌, if◌then◌else◌, get_or, str_or, Fields, str, end, field, has_key, Result, Exec, pure, raise,
  ◌>>◌, value_error, key_error, ok, err, ◌>>=◌, ℕ_eq, String_eq,
}
use super_agent_platform.Fsm.Schema.{TransitionConfig, StateConfig, FsmConfig}

abbrev pub GuardFunction : Type 0
GuardFunction = Fields → Bool

abbrev pub GuardRegistry : Type 0
GuardRegistry = List (String × GuardFunction)

abbrev pub ActionFunction : Type 0 → Type 0
ActionFunction W = Fields → Exec W (Unit {0})

abbrev pub ActionRegistry : Type 0 → Type 0
ActionRegistry W = List (String × ActionFunction W)

pub record TransitionResult : Type 0 where
  pub old_state : String
  pub new_state : String
  pub actions_executed : List String
  pub transition_taken : Bool
  pub no_transition_matched : Bool

pub record FsmEngine (W : Type 0) : Type 0 where
  pub config : FsmConfig
  pub current_state : String
  pub guard_registry : GuardRegistry
  pub action_registry : ActionRegistry W

-- `action_context`: a copy of the context with the transition's own entries.
unfoldable pub action_context : Fields → String → String → String → String → Fields
action_context context event old_state target guard_name = merge context (
    field "event" (str event) (
      field "old_state" (str old_state) (
        field "new_state" (str target)
          (field "guard" (str guard_name) (field "current_state" (str old_state) end)))))

module _ {W : Type 0} where
  -- `__init__`, with the results of the two default builders as arguments.
  unfoldable pub init :
      FsmConfig
      → String
      → Option GuardRegistry
      → Option (ActionRegistry W)
      → GuardRegistry
      → ActionRegistry W
      → Result (FsmEngine W)
  init config state guards actions default_guards default_actions =
      if not (has_key state config.states)
      then err (value_error ("unknown current state: '" +++ state +++ "'"))
      else ok (record {
        config = config;
        current_state = state;
        guard_registry = get_or guards default_guards;
        action_registry = get_or actions default_actions;
      })

  -- `_execute_actions`: the names already executed, then those of the list.
  unfoldable pub execute_actions :
      ActionRegistry W → List String → Fields → List String → Exec W (List String)
  execute_actions registry [] context executed = pure executed
  execute_actions registry (name ∷ names) context executed = elim (lookup name registry) [
    | none ↦ raise (value_error ("unknown action: '" +++ name +++ "'"))
    | some action_fn ↦
        action_fn context >> execute_actions registry names context (executed ++ name ∷ [])
  ]

  -- The look-up of the target and its entry actions.
  unfoldable pub enter_target :
      FsmEngine W → TransitionConfig → Fields → List String → Exec W (List String)
  unfolding execute_actions
  enter_target engine t context moved = elim (lookup t.target engine.config.states) [
    | none ↦ raise (key_error t.target)
    | some new_state_config ↦
        execute_actions engine.action_registry new_state_config.on_enter context moved
  ]

  -- The three calls of `_execute_actions` for a transition that is taken: the target is looked
  -- up after the exit actions and the transition's own actions have run.
  unfoldable pub run_transition :
      FsmEngine W → StateConfig → TransitionConfig → Fields → Exec W (List String)
  unfolding execute_actions enter_target
  run_transition engine state_config t context = do
    exited ← execute_actions engine.action_registry state_config.on_exit context []
    moved ← execute_actions engine.action_registry t.actions context exited
    enter_target engine t context moved

  -- The result of a run of the actions: the state is assigned last, so a raise leaves it.
  unfoldable pub commit :
      FsmEngine W → String → Result (List String) × W → Result TransitionResult × FsmEngine W × W
  commit engine target (err e, w) = (err e, engine, w)
  commit engine target (ok executed, w) = (
    ok (record {
      old_state = engine.current_state;
      new_state = target;
      actions_executed = executed;
      transition_taken = true;
      no_transition_matched = false;
    }),
    record engine { current_state = target },
    w,
  )

  -- The loop over `allowed_transitions`, and the return after it.
  unfoldable pub scan :
      FsmEngine W
      → StateConfig
      → String
      → Fields
      → List TransitionConfig
      → W
      → Result TransitionResult × FsmEngine W × W
  unfolding run_transition commit action_context
  scan engine state_config event context [] w = (
    ok (record {
      old_state = engine.current_state;
      new_state = engine.current_state;
      actions_executed = [];
      transition_taken = false;
      no_transition_matched = true;
    }),
    engine,
    w,
  )
  scan engine state_config event context (t ∷ ts) w =
      let rest = scan engine state_config event context ts w in
      let guard_name = str_or t.guard "always" in
      if not (t.event == event) then rest else elim (lookup guard_name engine.guard_registry) [
        | none ↦ (err (value_error ("unknown guard: '" +++ guard_name +++ "'")), engine, w)
        | some guard_fn ↦
            if not (guard_fn context)
            then rest
            else commit engine t.target (
                run_transition engine state_config t
                  (action_context context event engine.current_state t.target guard_name) w)
      ]

  -- `process_event`
  unfoldable pub process_event :
      String → Fields → FsmEngine W → W → Result TransitionResult × FsmEngine W × W
  unfolding scan
  process_event event context engine w = elim (lookup engine.current_state engine.config.states) [
    | none ↦ (err (key_error engine.current_state), engine, w)
    | some state_config ↦ scan engine state_config event context state_config.allowed_transitions w
  ]
