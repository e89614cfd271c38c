-- ===== src/Inbound/Debounce/Overtaken.antt =====
-- Bursts of messages in `_handle_with_debounce` of core/services/inbound_handler.py: the messages
-- that another one follows.
use super_agent_platform.Base.{
  ℕ, ◌<◌, ◌≡◌, Bool, true, false, not, ◌&&◌, ◌==◌, length, count_if, ℕ_eq, String_eq,
}
use super_agent_platform.Inbound.Debounce.{
  Task, TaskState, Debounce, is_waiting, waiting, cancelling, returned,
}

-- A task that still may answer, or did.
abbrev is_live : TaskState → Bool
is_live waiting = true
is_live cancelling = false
is_live (returned b) = b

abbrev live : ℕ → Task → Bool
live k t = t.number == k && is_live t.state

-- A number that is given, of a task that will not answer.
IsDead : ℕ → Debounce → Type 0
IsDead k d = (k < length d.tasks) × (count_if (live k) d.tasks ≡ 0)

-- A task that has answered.
abbrev answered : ℕ → Task → Bool
answered k t = t.number == k && is_live t.state && not (is_waiting t.state)
