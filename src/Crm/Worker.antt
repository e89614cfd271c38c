-- ===== src/Crm/Worker.antt =====
-- The worker that sends the outbox to the CRM: core/services/crm_worker.py.
pub mod Attempts
pub mod Retry
pub mod Stranded
pub mod Conflict
use super_agent_platform.Base.{
  get, ℕ, ◌+◌, ◌*◌, String, ◌+++◌, Option, none, some, List, [], ◌∷◌, ◌++◌, ltb, leb, ◌==◌,
  if◌then◌else◌, Value, Fields, str, Error, message, Result, Exec, raise, ◌>>◌, skip, modify,
  value_error, ok, err, ◌>>=◌, ℕ_eq, String_eq,
}
use super_agent_platform.Crm.Outbox.{
  OutboxItem, Outbox, get_pending_batch, mark_as_done, mark_as_failed_with_retry, move_to_dlq,
  count_dlq_items, count_pending_items,
}

-- core/domain/lead.py
pub record Lead : Type 0 where
  pub external_id : Option String
  pub phone : String
  pub name : String
  pub stage : String
  pub source : String
  pub attributes : Fields

-- `CRMProvider`, the port that the Monday adapter implements; `P` is the state of the CRM.
pub record CrmProvider (P : Type 0) : Type 0 where
  pub upsert_lead : Lead → Exec P (Unit {0})
  pub change_stage : String → String → Option String → Option String → Exec P (Unit {0})
  pub add_note : String → String → String → Exec P (Unit {0})

pub data Alert : Type 0 where
  dlq_threshold_exceeded : ℕ → ℕ → Alert
  pending_threshold_exceeded : ℕ → ℕ → Alert

-- What the worker acts on: the tables, the CRM and the alerts logged so far.
pub record World (P : Type 0) : Type 0 where
  pub outbox : Outbox
  pub crm : P
  pub alerts : List Alert

-- The clock during a batch, the identifier drawn for the dead letter of an item, and the
-- thresholds of the brand configuration.
pub record Settings : Type 0 where
  pub now : ℕ
  pub dlq_id : ℕ → ℕ
  pub crm_dlq_threshold : ℕ
  pub crm_pending_threshold : ℕ

-- `isinstance(value, str) and value`
abbrev pub text_of : Option Value → Option String
text_of (some (str s)) = if s == "" then none else some s
text_of _ = none

-- `_to_str`
unfoldable pub to_str : Option Value → Option String → Result String
to_str value default = elim (text_of value) [
  | some s ↦ ok s
  | none ↦ elim default [
    | some d ↦ ok d
    | none ↦ err (value_error "required string value is missing")
  ]
]

-- `_to_optional_str`
unfoldable pub to_optional_str : Option Value → Option String
to_optional_str value = text_of value

-- An argument that raises keeps the call from being made.
abbrev pub given : {W A : Type 0} → Result A → Exec W A
given r w = (r, w)

module _ {P : Type 0} (provider : CrmProvider P) where
  -- `_dispatch_operation`
  unfoldable pub dispatch_operation : String → Fields → Exec P (Unit {0})
  unfolding to_str to_optional_str
  dispatch_operation operation payload =
      if operation == "upsert_lead"
      then (do
        phone ← given (to_str (get "phone" payload) none)
        name ← given (to_str (get "name" payload) (some ""))
        stage ← given (to_str (get "stage" payload) (some ""))
        source ← given (to_str (get "source" payload) (some ""))
        provider.upsert_lead (record {
          external_id = to_optional_str (get "external_id" payload);
          phone = phone;
          name = name;
          stage = stage;
          source = source;
          attributes = payload;
        }))
      else if operation == "change_stage"
      then (do
        lead_id ← given (to_str (get "lead_id" payload) none)
        new_stage ← given (to_str (get "new_stage" payload) none)
        provider.change_stage lead_id new_stage (to_optional_str (get "reason" payload))
            (to_optional_str (get "phone" payload)))
      else if operation == "add_note"
      then (do
        lead_id ← given (to_str (get "lead_id" payload) none)
        note ← given (to_str (get "note" payload) none)
        author ← given (to_str (get "author" payload) (some "system"))
        provider.add_note lead_id note author)
      else raise (value_error ("unsupported crm operation: " +++ operation))

  -- `timedelta(minutes=next_attempt * 5)`, in seconds.
  abbrev pub backoff : ℕ → ℕ
  backoff next_attempt = 60 * (next_attempt * 5)

  -- The `except` branch of the loop.
  unfoldable pub handle_failure : Settings → OutboxItem → Error → Exec (World P) (Unit {0})
  handle_failure settings item e w =
      let next_attempt = item.attempts + 1 in
      if ltb next_attempt 3
      then (let (r, o) =
            mark_as_failed_with_retry item.id (message e) (settings.now + backoff next_attempt)
              next_attempt settings.now w.outbox in
          (r, record w { outbox = o }))
      else (
        ok tt,
        record w {
          outbox = move_to_dlq item.id (message e) (settings.dlq_id item.id) settings.now w.outbox;
        },
      )

  -- What follows the dispatch. `mark_as_done` does not raise, so it is outside the `try` here.
  unfoldable pub settle :
      Settings → OutboxItem → World P → Result (Unit {0}) × P → Result (Unit {0}) × World P
  unfolding handle_failure
  settle settings item w (ok _, crm') =
      (ok tt, record w { crm = crm'; outbox = mark_as_done item.id settings.now w.outbox })
  settle settings item w (err e, crm') = handle_failure settings item e (record w { crm = crm' })

  -- The body of the loop.
  unfoldable pub process_item : Settings → OutboxItem → Exec (World P) (Unit {0})
  unfolding settle
  process_item settings item w =
      settle settings item w (dispatch_operation item.operation item.payload w.crm)

  -- The loop of `process_batch`.
  unfoldable pub process_items : Settings → List OutboxItem → Exec (World P) (Unit {0})
  unfolding process_item
  process_items settings [] = skip
  process_items settings (item ∷ items) = process_item settings item >> process_items settings items

  -- `_check_dlq_alerts`: it reads the counts, logs and never raises.
  unfoldable pub check_dlq_alerts : Settings → World P → World P
  check_dlq_alerts settings w =
      let dlq_count = count_dlq_items w.outbox in
      let pending_count = count_pending_items w.outbox in
      record w {
        alerts =
            w.alerts
            ++ ((if leb settings.crm_dlq_threshold dlq_count
                  then dlq_threshold_exceeded dlq_count settings.crm_dlq_threshold ∷ []
                  else [])
                ++ (if leb settings.crm_pending_threshold pending_count
                    then pending_threshold_exceeded pending_count settings.crm_pending_threshold
                      ∷ []
                    else []));
      }

  -- `process_batch`
  unfoldable pub process_batch : Settings → ℕ → Exec (World P) (Unit {0})
  unfolding process_items check_dlq_alerts
  process_batch settings batch_size w =
      let (items, o) = get_pending_batch batch_size settings.now w.outbox in
      (process_items settings items >> modify (check_dlq_alerts settings)) (record w { outbox = o })
