-- ===== src/Inbound/Debounce.antt =====
-- The debounce of bursts: `_handle_with_debounce` and `_debounce_execute` of
-- core/services/inbound_handler.py, for one `jid`.
-- The event loop is the sequence of its steps: an event arrives (the first locked section), the
-- sleep of a task ends (the second locked section), or the loop throws a cancellation into a task
-- that waits. Tasks are numbered as they are created.
pub mod Tidy
pub mod Overtaken
pub mod Latest
use super_agent_platform.Base.{
  ℕ, String, Bool, true, false, Option, none, some, List, [], ◌∷◌, ◌++◌, map, ◌==◌, if◌then◌else◌,
  length, find_first, ℕ_eq, String_eq,
}

-- A task of `_debounce_execute`: it waits, it waits and its cancellation is asked for, or it has
-- returned a value; a cancelled task makes `_handle_with_debounce` return `False`.
pub data TaskState : Type 0 where
  waiting cancelling : TaskState
  returned : Bool → TaskState

pub record Task : Type 0 where
  pub number : ℕ
  pub message_id : String
  pub state : TaskState

-- `_debounce_latest.get(jid)`, `_debounce_tasks.get(jid)` and all tasks that were created.
pub record Debounce : Type 0 where
  pub latest : Option String
  pub current : Option ℕ
  pub tasks : List Task

pub data Step : Type 0 where
  arrive : String → Step
  wake : ℕ → Step
  throw : ℕ → Step

abbrev pub set_state : ℕ → (TaskState → TaskState) → List Task → List Task
set_state n f tasks = map (λ t. if t.number == n then record t { state = f t.state } else t) tasks

-- `existing.cancel()`, where the task is not done.
abbrev pub cancel : TaskState → TaskState
cancel waiting = cancelling
cancel cancelling = cancelling
cancel (returned b) = returned b

abbrev pub cancelled : TaskState → TaskState
cancelled cancelling = returned false
cancelled t = t

-- The first locked section of `_handle_with_debounce`.
unfoldable pub on_arrival : String → Debounce → Debounce
on_arrival message_id d =
    let number = length d.tasks in
    let others : List Task = elim d.current [
      | none ↦ d.tasks
      | some n ↦ set_state n cancel d.tasks
    ] in
    record {
      latest = some message_id;
      current = some number;
      tasks = others ++ record { number = number; message_id = message_id; state = waiting } ∷ [];
    }

-- `latest_message_id == message_id`
abbrev pub is_latest : Debounce → String → Bool
is_latest d message_id = elim d.latest [ none ↦ false | some m ↦ m == message_id ]

abbrev pub is_current : Debounce → ℕ → Bool
is_current d n = elim d.current [ none ↦ false | some m ↦ m == n ]

-- The second locked section, of `_debounce_execute`, by the task `t`.
unfoldable pub on_wake : Task → Debounce → Debounce
on_wake t d =
    let should_process = is_latest d t.message_id in
    record {
      latest = if should_process then none else d.latest;
      current = if is_current d t.number then none else d.current;
      tasks = set_state t.number (λ old. returned should_process) d.tasks;
    }

abbrev pub is_waiting : TaskState → Bool
is_waiting waiting = true
is_waiting _ = false

abbrev pub has_number : ℕ → Task → Bool
has_number n t = t.number == n

unfoldable pub step : Step → Debounce → Debounce
unfolding on_arrival on_wake
step (arrive message_id) d = on_arrival message_id d
step (wake n) d = elim (find_first (has_number n) d.tasks) [
  | none ↦ d
  | some t ↦ if is_waiting t.state then on_wake t d else d
]
step (throw n) d = record d { tasks = set_state n cancelled d.tasks }

unfoldable pub run : List Step → Debounce → Debounce
unfolding step
run [] d = d
run (x ∷ xs) d = run xs (step x d)

abbrev pub idle : Debounce
idle = record { latest = none; current = none; tasks = [] }
