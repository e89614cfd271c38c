-- ===== src/Inbound/Store.antt =====
-- The stores of the inbound path: adapters/storage/repositories/{event,lead,session}_repo.py. Each
-- method is one transaction over the rows; `order_by` is stable here.
use super_agent_platform.Base.{
  sort_by, get, put, ℕ, String, Bool, true, false, Option, none, some, List, [], ◌∷◌, ◌++◌, map,
  leb, ◌==◌, if◌then◌else◌, take, any, keep_if, find_first, Fields, str, Result, runtime_error, ok,
  err, ℕ_eq, String_eq,
}
use super_agent_platform.Inbound.Types.{ConversationEvent, LeadProfile, Session}

-- The index `uq_conversation_events_inbound_message_id` of adapters/storage/models.py: the text of
-- `payload ->> 'message_id'`, of inbound messages.
unfoldable pub dedup_key : ConversationEvent → Option String
dedup_key e =
    if e.event_type == "inbound_message"
    then (elim (get "message_id" e.payload) [ some (str s) ↦ some s | _ ↦ none ])
    else none

abbrev pub same_key : Option String → Option String → Bool
same_key (some a) (some b) = a == b
same_key _ _ = false

-- The row that `append` writes: the message's identifier is put into the payload.
abbrev pub stored_event : ConversationEvent → ConversationEvent
stored_event e = record e {
  payload = elim e.message_id [ none ↦ e.payload | some m ↦ put "message_id" (str m) e.payload ];
}

-- `append` of event_repo.py: whether the event is new, and the rows.
unfoldable pub append : ConversationEvent → List ConversationEvent → Bool × List ConversationEvent
unfolding dedup_key
append e rows =
    let s = stored_event e in
    if any (λ r. same_key (dedup_key r) (dedup_key s)) rows
    then (false, rows)
    else (true, rows ++ s ∷ [])

abbrev pub created_after : ConversationEvent → ConversationEvent → Bool
created_after a b = leb b.created_at a.created_at

abbrev pub reversed : List ConversationEvent → List ConversationEvent
reversed [] = []
reversed (x ∷ xs) = reversed xs ++ x ∷ []

-- `list_by_conversation`: the newest `limit` events, the oldest of them first.
unfoldable pub list_by_conversation : ℕ → ℕ → List ConversationEvent → List ConversationEvent
list_by_conversation conversation_id limit rows =
    reversed (
      take limit (sort_by created_after (keep_if (λ r. r.conversation_id == conversation_id) rows)))

-- `get_by_phone` of lead_repo.py
unfoldable pub get_by_phone : String → List LeadProfile → Option LeadProfile
get_by_phone phone rows = find_first (λ r. r.phone == phone) rows

-- `upsert_by_phone`: the row of the phone keeps its identifier and its creation time.
unfoldable pub upsert_by_phone : LeadProfile → List LeadProfile → LeadProfile × List LeadProfile
upsert_by_phone profile rows =
    elim (find_first (λ (r : LeadProfile). r.phone == profile.phone) rows) [
      | none ↦ (profile, rows ++ profile ∷ [])
      | some r ↦
          let updated : LeadProfile = record profile { id = r.id; created_at = r.created_at } in
          (updated, map (λ s. if s.phone == profile.phone then updated else s) rows)
    ]

-- `get_by_lead_id` of session_repo.py; a lead has one session.
unfoldable pub get_by_lead_id : ℕ → List Session → Option Session
get_by_lead_id lead_id rows = find_first (λ r. r.lead_id == lead_id) rows

-- `upsert`: the row of the identifier keeps its creation time.
unfoldable pub upsert : Session → List Session → Session × List Session
upsert entity rows = elim (find_first (λ (r : Session). r.id == entity.id) rows) [
  | none ↦ (entity, rows ++ entity ∷ [])
  | some r ↦
      let updated : Session = record entity { created_at = r.created_at } in
      (updated, map (λ s. if s.id == entity.id then updated else s) rows)
]

-- `update_state`; `scalar_one` raises where there is no such row.
unfoldable pub update_state : ℕ → String → Fields → ℕ → List Session → Result (List Session)
update_state session_id new_state context now rows =
    if any (λ r. r.id == session_id) rows
    then ok (
        map
          (λ r.
            if r.id == session_id
            then record r { current_state = new_state; context = context; updated_at = now }
            else r)
          rows)
    else err (runtime_error "No row was found when one was required")
