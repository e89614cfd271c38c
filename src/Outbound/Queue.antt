-- ===== src/Outbound/Queue.antt =====
-- The outbound queue: adapters/storage/repositories/outbound_queue_repo.py and
-- adapters/storage/repositories/silenced_repo.py. Each method is one transaction; times are numbers
-- of seconds; the identifiers and clock values that a method draws are arguments; `priority`, by
-- its check constraint 0 or 1, is a number; a campaign's identifier is kept as it is stored.
use super_agent_platform.Base.{
  sort_by, ℕ, ◌+◌, String, Bool, true, false, not, ◌&&◌, ◌||◌, Option, none, some, List, [], ◌∷◌,
  ◌++◌, map, ltb, leb, ◌==◌, if◌then◌else◌, take, any, count_if, keep_if, find_first, Fields, ℕ_eq,
  String_eq,
}

pub data QueueStatus : Type 0 where
  queued processing sent failed : QueueStatus

abbrev pub is_queued : QueueStatus → Bool
is_queued queued = true
is_queued _ = false

-- A row of `outbound_queue`.
pub record QueueRow : Type 0 where
  pub id : ℕ
  pub lead_id : Option ℕ
  pub campaign_id : Option ℕ
  pub priority : ℕ
  pub payload : Fields
  pub status : QueueStatus
  pub scheduled_at : ℕ
  pub sent_at : Option ℕ
  pub attempts : ℕ
  pub last_error : Option String

-- `OutboundQueueItem`: a row with the phone of its lead.
pub record OutboundQueueItem : Type 0 where
  pub queue_row : QueueRow
  pub lead_phone : Option String

-- `enqueue`
unfoldable pub enqueue : ℕ → ℕ → Option ℕ → Fields → ℕ → ℕ → List QueueRow → List QueueRow
enqueue item_id lead_id campaign_id payload priority scheduled_at rows =
    rows
    ++ record {
      id = item_id;
      lead_id = some lead_id;
      campaign_id = campaign_id;
      priority = priority;
      payload = payload;
      status = queued;
      scheduled_at = scheduled_at;
      sent_at = none;
      attempts = 0;
      last_error = none;
    }
      ∷ []

-- The `where` of `get_next_batch`.
abbrev pub is_due : ℕ → QueueRow → Bool
is_due now r = is_queued r.status && leb r.scheduled_at now

-- The `order_by` of `get_next_batch`.
abbrev pub served_before : QueueRow → QueueRow → Bool
served_before r s =
    ltb r.priority s.priority || (r.priority == s.priority && leb r.scheduled_at s.scheduled_at)

unfoldable pub due_rows : ℕ → ℕ → List QueueRow → List QueueRow
due_rows limit now rows = take limit (sort_by served_before (keep_if (is_due now) rows))

abbrev pub has_id : ℕ → QueueRow → Bool
has_id i r = r.id == i

abbrev pub claim : QueueRow → QueueRow
claim r = record r { status = processing; attempts = r.attempts + 1 }

abbrev pub phone_of : List (ℕ × String) → Option ℕ → Option String
phone_of leads none = none
phone_of leads (some lead_id) = elim (find_first (λ (l : ℕ × String). l.0 == lead_id) leads) [
  | none ↦ none
  | some l ↦ some l.1
]

-- `get_next_batch`, over the phones of the table of leads.
unfoldable pub get_next_batch :
    List (ℕ × String) → ℕ → ℕ → List QueueRow → List OutboundQueueItem × List QueueRow
unfolding due_rows
get_next_batch leads limit now rows =
    let models = due_rows limit now rows in
    (
      map (λ r. record { queue_row = claim r; lead_phone = phone_of leads r.lead_id }) models,
      map (λ r. if any (has_id r.id) models then claim r else r) rows,
    )

-- `mark_as_sent`; a missing row is left missing.
unfoldable pub mark_as_sent : ℕ → ℕ → List QueueRow → List QueueRow
mark_as_sent item_id now rows =
    map
      (λ r.
        if r.id == item_id
        then record r { status = sent; sent_at = some now; last_error = none }
        else r)
      rows

-- `mark_as_failed`
unfoldable pub mark_as_failed : ℕ → String → List QueueRow → List QueueRow
mark_as_failed item_id error rows =
    map (λ r. if r.id == item_id then record r { status = failed; last_error = some error } else r)
      rows

-- `count_by_statuses`
unfoldable pub count_by_statuses : (QueueStatus → Bool) → List QueueRow → ℕ
count_by_statuses statuses rows = count_if (λ r. statuses r.status) rows

-- `is_silenced`, over the phones of the table `silenced_users`.
unfoldable pub is_silenced : String → List String → Bool
is_silenced phone phones = any (λ p. p == phone) phones

-- `silence`; the reason and the time are not kept.
unfoldable pub silence : String → List String → List String
unfolding is_silenced
silence phone phones = if is_silenced phone phones then phones else phones ++ phone ∷ []

-- `unsilence`
unfoldable pub unsilence : String → List String → List String
unsilence phone phones = keep_if (λ p. not (p == phone)) phones
