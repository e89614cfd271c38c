-- ===== src/Fsm/Engine/Selection.antt =====
-- Which transition an event takes: `process_event` of core/fsm/engine.py against the rule that
-- the first transition of the event whose guard passes is taken.
use super_agent_platform.Base.{
  lookup, String, ◌+++◌, ◌≡◌, refl, ◌≢◌, ◌⊎◌, inl, inr, true, false, Option, none, some, List, [],
  ◌∷◌, arith, eq_iff, ◌==◌, Bool-cases, str_eq→eq, str_or, Fields, Result, value_error, ok, err,
  ℕ_eq, String_eq,
}
use super_agent_platform.Fsm.Schema.{StateConfig, TransitionConfig}
use super_agent_platform.Fsm.Engine.{
  FsmEngine, GuardFunction, TransitionResult, commit, scan, run_transition, action_context,
  process_event,
}

abbrev pub guard_of : TransitionConfig → String
guard_of t = str_or t.guard "always"

-- What an event comes to in a state.
pub data Choice : Type 0 where
  stay : Choice
  unknown_guard : String → Choice
  take_transition : TransitionConfig → Choice

module _ {W : Type 0} (engine : FsmEngine W) (event : String) (context : Fields) where
  -- The rule, read along the state's transitions in their order.
  pub data Selects : List TransitionConfig → Choice → Type 0 where
    exhausted : Selects [] stay
    chosen :
        {t : TransitionConfig} {ts : List TransitionConfig} (g : GuardFunction)
        → t.event ≡ event
        → lookup (guard_of t) engine.guard_registry ≡ some g
        → g context ≡ true
        → Selects (t ∷ ts) (take_transition t)
    no_guard :
        {t : TransitionConfig} {ts : List TransitionConfig}
        → t.event ≡ event
        → lookup (guard_of t) engine.guard_registry ≡ none
        → Selects (t ∷ ts) (unknown_guard (guard_of t))
    other_event :
        {t : TransitionConfig} {ts : List TransitionConfig} {c : Choice}
        → t.event ≢ event
        → Selects ts c
        → Selects (t ∷ ts) c
    blocked :
        {t : TransitionConfig} {ts : List TransitionConfig} {c : Choice} (g : GuardFunction)
        → t.event ≡ event
        → lookup (guard_of t) engine.guard_registry ≡ some g
        → g context ≡ false
        → Selects ts c
        → Selects (t ∷ ts) c

  -- Every list of transitions has a choice.
  pub select : (ts : List TransitionConfig) → (c : Choice) × Selects ts c
  select [] = (stay, exhausted)
  select (t ∷ ts) = at_event (Bool-cases (t.event == event)) (select ts)
    where
      at_guard :
          t.event ≡ event
          → (o : Option GuardFunction) → lookup (guard_of t) engine.guard_registry ≡ o
          → ((c : Choice) × Selects ts c)
          → (c : Choice) × Selects (t ∷ ts) c
      at_guard same none e rest = (unknown_guard (guard_of t), no_guard same e)
      at_guard same (some g) e (c, rest) = elim (Bool-cases (g context)) [
        | inl passes ↦ (take_transition t, chosen g same e passes)
        | inr fails ↦ (c, blocked g same e fails rest)
      ]

      at_event :
          ((t.event == event) ≡ true) ⊎ ((t.event == event) ≡ false)
          → ((c : Choice) × Selects ts c)
          → (c : Choice) × Selects (t ∷ ts) c
      at_event (inl same) rest = at_guard (str_eq→eq _ _ same) _ refl rest
      at_event (inr differs) (c, rest) =
          (c, other_event (λ e. ground (arith, eq_iff t.event event)) rest)

  -- What the engine does for a choice in the state `s`.
  abbrev pub outcome : StateConfig → Choice → W → Result TransitionResult × FsmEngine W × W
  outcome s stay w = (
    ok (record {
      old_state = engine.current_state;
      new_state = engine.current_state;
      actions_executed = [];
      transition_taken = false;
      no_transition_matched = true;
    }),
    engine,
    w,
  )
  outcome s (unknown_guard name) w =
      (err (value_error ("unknown guard: '" +++ name +++ "'")), engine, w)
  outcome s (take_transition t) w = commit engine t.target (
      run_transition engine s t
        (action_context context event engine.current_state t.target (guard_of t)) w)

  pub scan-Selects :
      (s : StateConfig) {ts : List TransitionConfig} {c : Choice} (w : W)
      → Selects ts c
      → scan engine s event context ts w ≡ outcome s c w
  unfolding scan
  scan-Selects s w exhausted = refl
  scan-Selects s w (chosen {t = t} g same found passes) =
      rw ((eq_iff t.event event).1 same) (rw found (rw passes))
  scan-Selects s w (no_guard {t = t} same missing) = rw ((eq_iff t.event event).1 same) (rw missing)
  scan-Selects s w (other_event {t = t} {ts = ts} differs rest) =
      ground (arith, eq_iff t.event event, scan-Selects s w rest)
  scan-Selects s w (blocked {t = t} {ts = ts} g same found fails rest) =
      rw ((eq_iff t.event event).1 same) (rw found (rw fails (scan-Selects s w rest)))

  -- From a state `s` of the configuration, the engine does what the rule says: the first
  -- transition for the event whose guard passes is taken; where the scan first meets a guard that
  -- is not registered it raises; and where no transition is left, nothing changes.
  pub process_event-Selects :
      (s : StateConfig) (c : Choice) (w : W)
      → lookup engine.current_state engine.config.states ≡ some s
      → Selects s.allowed_transitions c
      → process_event event context engine w ≡ outcome s c w
  unfolding process_event
  process_event-Selects s c w found chosen_by =
      rw (found, process_event) (scan-Selects s w chosen_by)
