-- ===== src/Inbound/HandoffService.antt =====
-- Advisers take and release a conversation: core/services/handoff_service.py.
pub mod Control
use super_agent_platform.Base.{
  ℕ, ◌+◌, String, ◌+++◌, none, some, str, end, field, Exec, pure, value_error, ok, err, ◌>>=◌, ◌>>◌,
}
use super_agent_platform.Inbound.Types.{Session}
use super_agent_platform.Inbound.World.{Services, World, move_session}
use super_agent_platform.Inbound.Store
use super_agent_platform.Inbound.Store.{append, get_by_lead_id}

module _ (s : Services) where
  -- `_get_session_by_lead_id`
  unfoldable pub get_session_by_lead_id : ℕ → Exec World Session
  get_session_by_lead_id lead_id w = elim (Store.get_by_lead_id lead_id w.sessions) [
    | none ↦ (err (value_error ("session not found for lead_id=" +++ s.uuid_text lead_id)), w)
    | some session ↦ (ok session, w)
  ]

  -- `_append_system_event`; the conversation has the identifier of the session here.
  unfoldable pub append_system_event : Session → String → Exec World (Unit {0})
  append_system_event session event_type w =
      let (is_new, rows) =
        Store.append
          (record {
            id = w.next_id;
            conversation_id = session.id;
            lead_id = some session.lead_id;
            event_type = event_type;
            payload = field "lead_id" (str (s.uuid_text session.lead_id)) (
                field "session_id" (str (s.uuid_text session.id))
                  (field "state" (str session.current_state) end));
            created_at = s.now;
            message_id = none;
          })
          w.events in
      (ok tt, record w { events = rows; next_id = w.next_id + 1 })

  -- What `take_control` and `release_control` share: they differ in the state and the event.
  unfoldable pub change_control : String → String → ℕ → Exec World Session
  unfolding get_session_by_lead_id append_system_event
  change_control new_state event_type lead_id = do
    session ← get_session_by_lead_id lead_id
    move_session s session.id new_state session.context
    updated_session ← get_session_by_lead_id lead_id
    append_system_event updated_session event_type
    pure updated_session

  unfoldable pub take_control : ℕ → Exec World Session
  unfolding change_control
  take_control = change_control "handoff_active" "system_agent_took_control"

  unfoldable pub release_control : ℕ → Exec World Session
  unfolding change_control
  release_control = change_control "idle" "system_agent_released_control"
