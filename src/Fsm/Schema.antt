-- ===== src/Fsm/Schema.antt =====
-- The configuration of the state machine and its validators: core/fsm/schema.py.
pub mod Closed
use super_agent_platform.Base.{
  ℕ, String, ◌+++◌, not, ◌&&◌, Option, none, some, List, [], ◌∷◌, if◌then◌else◌, is_none, has_key,
  Error, Result, value_error, ok, err,
}

pub record TransitionConfig : Type 0 where
  pub target : String
  pub event : String
  pub guard : Option String
  pub actions : List String

pub record StateConfig : Type 0 where
  pub description : String
  pub allowed_transitions : List TransitionConfig
  pub on_enter : List String
  pub on_exit : List String
  pub timeout_minutes : Option ℕ
  pub timeout_target : Option String

-- `states` is a `dict`: a name is looked up at its first entry.
pub record FsmConfig : Type 0 where
  pub initial_state : String
  pub states : List (String × StateConfig)

-- `validate_timeout_pair`; `none` is a pass.
unfoldable pub validate_timeout_pair : StateConfig → Option Error
validate_timeout_pair s =
    if not (is_none s.timeout_target) && is_none s.timeout_minutes
    then some (value_error "timeout_minutes is required when timeout_target is provided")
    else if not (is_none s.timeout_minutes) && is_none s.timeout_target
    then some (value_error "timeout_target is required when timeout_minutes is provided")
    else none

-- The inner loop of `validate_state_targets`, over one state's transitions.
unfoldable pub check_targets :
    List (String × StateConfig) → String → List TransitionConfig → Option Error
check_targets known name [] = none
check_targets known name (t ∷ ts) =
    if not (has_key t.target known)
    then some (
        value_error
          ("state '" +++ name +++ "' references unknown transition target '" +++ t.target +++ "'"))
    else check_targets known name ts

-- The test on one state's timeout target.
unfoldable pub check_timeout_target :
    List (String × StateConfig) → String → Option String → Option Error
check_timeout_target known name none = none
check_timeout_target known name (some target) =
    if not (has_key target known)
    then some (
        value_error
          ("state '" +++ name +++ "' references unknown timeout target '" +++ target +++ "'"))
    else none

-- The outer loop of `validate_state_targets`.
unfoldable pub check_states :
    List (String × StateConfig) → List (String × StateConfig) → Option Error
check_states known [] = none
check_states known ((name, s) ∷ rest) = elim (check_targets known name s.allowed_transitions) [
  | some e ↦ some e
  | none ↦ elim (check_timeout_target known name s.timeout_target) [
    | some e ↦ some e
    | none ↦ check_states known rest
  ]
]

unfoldable pub validate_state_targets : FsmConfig → Result FsmConfig
validate_state_targets c =
    if not (has_key c.initial_state c.states)
    then err (value_error ("initial_state '" +++ c.initial_state +++ "' references unknown state"))
    else elim (check_states c.states c.states) [ some e ↦ err e | none ↦ ok c ]
