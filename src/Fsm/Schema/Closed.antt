-- ===== src/Fsm/Schema/Closed.antt =====
-- What the validators of core/fsm/schema.py accept.
use super_agent_platform.Base.{
  lookup, String, ◌≡◌, refl, ◌↔◌, inl, inr, true, not, Option, none, some, List, [], ◌∷◌, arith,
  is_none, Bool-cases, All, has_key, ok,
}
use super_agent_platform.Fsm.Schema.{
  TransitionConfig, StateConfig, FsmConfig, check_targets, check_timeout_target, check_states,
  validate_state_targets,
}

-- The configuration has a state of this name.
abbrev pub HasState : List (String × StateConfig) → String → Type 0
HasState known name = (s : StateConfig) × (lookup name known ≡ some s)

abbrev pub TimeoutKnown : List (String × StateConfig) → Option String → Type 0
TimeoutKnown known none = Unit {0}
TimeoutKnown known (some target) = HasState known target

abbrev pub TargetsKnown : List (String × StateConfig) → List TransitionConfig → Type 0
TargetsKnown known = All (λ t. HasState known t.target)

abbrev pub StateClosed : List (String × StateConfig) → String × StateConfig → Type 0
StateClosed known (name, s) =
    TargetsKnown known s.allowed_transitions × TimeoutKnown known s.timeout_target

-- Every state that the configuration refers to is one of its states.
pub record IsClosed (c : FsmConfig) : Type 0 where
  pub initial : HasState c.states c.initial_state
  pub states : All (StateClosed c.states) c.states

pub has_key→HasState :
    (known : List (String × StateConfig)) (k : String) → has_key k known ≡ true → HasState known k
has_key→HasState known k h = go (lookup k known) refl h
  where
    go : (o : Option StateConfig) → lookup k known ≡ o → not (is_none o) ≡ true → HasState known k
    go none e p = absurd (cc)
    go (some s) e p = (s, e)

pub HasState→has_key :
    (known : List (String × StateConfig)) (k : String) → HasState known k → has_key k known ≡ true
HasState→has_key known k (s, e) = rw e

check_targets_iff :
    (known : List (String × StateConfig)) (name : String) (ts : List TransitionConfig)
    → (check_targets known name ts ≡ none) ↔ TargetsKnown known ts
unfolding check_targets
check_targets_iff known name [] = (λ _. tt, λ _. refl)
check_targets_iff known name (t ∷ ts) = elim (Bool-cases (has_key t.target known)) [
  | inl known_target ↦ (
    λ h. (
      has_key→HasState known t.target known_target,
      (check_targets_iff known name ts).0 (ground arith),
    ),
    λ h. rw known_target ((check_targets_iff known name ts).1 h.1),
  )
  | inr unknown ↦
      (λ h. absurd (ground arith), λ h. absurd (cc (HasState→has_key known t.target h.0)))
]

check_timeout_target_iff :
    (known : List (String × StateConfig)) (name : String) (o : Option String)
    → (check_timeout_target known name o ≡ none) ↔ TimeoutKnown known o
unfolding check_timeout_target
check_timeout_target_iff known name none = (λ _. tt, λ _. refl)
check_timeout_target_iff known name (some k) =
    (λ h. has_key→HasState known k (ground arith), λ h. rw (HasState→has_key known k h))

check_states_iff :
    (known rest : List (String × StateConfig))
    → (check_states known rest ≡ none) ↔ All (StateClosed known) rest
unfolding check_states
check_states_iff known [] = (λ _. tt, λ _. refl)
check_states_iff known ((name, s) ∷ rest) = (
  λ h. (
    (
      (check_targets_iff known name s.allowed_transitions).0 (ground arith),
      (check_timeout_target_iff known name s.timeout_target).0 (ground arith),
    ),
    (check_states_iff known rest).0 (ground arith),
  ),
  λ h. ground (
    arith,
    (check_targets_iff known name s.allowed_transitions).1 h.0.0,
    (check_timeout_target_iff known name s.timeout_target).1 h.0.1,
    (check_states_iff known rest).1 h.1,
  ),
)

-- The validator accepts a configuration, and returns it as it is, exactly when its initial state
-- and every transition target and timeout target in it name a state of the configuration.
pub validate_state_targets_iff : (c : FsmConfig) → (validate_state_targets c ≡ ok c) ↔ IsClosed c
unfolding validate_state_targets
validate_state_targets_iff c = (
  λ h. record {
    initial = has_key→HasState c.states c.initial_state (ground arith);
    states = (check_states_iff c.states c.states).0 (ground arith);
  },
  λ h.
      rw (HasState→has_key c.states c.initial_state h.initial)
        (rw ((check_states_iff c.states c.states).1 h.states)),
)
