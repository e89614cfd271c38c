-- ===== src/Crm/Outbox.antt =====
-- The outbox of CRM operations: adapters/storage/repositories/crm_outbox_repo.py, over the rows of
-- adapters/storage/models.py. Each method is one transaction; times are numbers of seconds, and
-- the identifiers and clock values that a method draws are arguments. `order_by` is stable here.
pub mod Unique
pub mod Fallback
pub mod Queued
pub mod Calls
use super_agent_platform.Base.{
  sort_by, contains, ℕ, String, ◌+++◌, Bool, true, false, not, ◌&&◌, Option, none, some, List, [],
  ◌∷◌, ◌++◌, map, ltb, leb, ◌==◌, if◌then◌else◌, length, take, any, count_if, keep_if, find_first,
  Fields, Error, Result, Exec, raise, catch, ◌>>=◌, integrity_error, runtime_error,
  programming_error, database_error, ok, err, ◌>>◌, ℕ_eq, String_eq,
}

-- The values of the column `status`.
pub data Status : Type 0 where
  pending processing done dlq : Status

abbrev pub is_pending : Status → Bool
is_pending pending = true
is_pending _ = false

abbrev pub is_dlq : Status → Bool
is_dlq dlq = true
is_dlq _ = false

-- A row of `crm_outbox`, which is also the `OutboxItem` of core/domain/crm_outbox.py.
pub record OutboxItem : Type 0 where
  pub id : ℕ
  pub aggregate_id : ℕ
  pub operation : String
  pub payload : Fields
  pub status : Status
  pub attempts : ℕ
  pub next_retry_at : Option ℕ
  pub last_error : Option String
  pub created_at : ℕ
  pub updated_at : ℕ

-- A row of `crm_dlq`.
pub record DlqItem : Type 0 where
  pub id : ℕ
  pub original_outbox_id : ℕ
  pub payload : Fields
  pub error : String
  pub moved_at : ℕ

-- The two tables, and whether the partial unique index `uq_crm_outbox_pending_operation` exists.
pub record Outbox : Type 0 where
  pub rows : List OutboxItem
  pub dlq_rows : List DlqItem
  pub indexed : Bool

-- The rows that the partial index holds at a key.
abbrev pub pending_at : ℕ → String → OutboxItem → Bool
pending_at aggregate operation r =
    is_pending r.status && (r.aggregate_id == aggregate && r.operation == operation)

-- The row that `enqueue_operation` inserts.
abbrev pub new_item : ℕ → ℕ → String → Fields → ℕ → OutboxItem
new_item item_id aggregate operation payload now = record {
  id = item_id;
  aggregate_id = aggregate;
  operation = operation;
  payload = payload;
  status = pending;
  attempts = 0;
  next_retry_at = none;
  last_error = none;
  created_at = now;
  updated_at = now;
}

-- The `set_` of the upsert, and the assignments of `_update_pending_payload`.
abbrev pub refresh : Fields → ℕ → OutboxItem → OutboxItem
refresh payload now r = record r {
  payload = payload;
  attempts = 0;
  next_retry_at = none;
  last_error = none;
  updated_at = now;
}

-- `_get_existing_pending_id`, with the whole row; `scalar_one_or_none` raises where the table has
-- several, which the index excludes.
unfoldable pub get_existing_pending : ℕ → String → List OutboxItem → Result (Option OutboxItem)
get_existing_pending aggregate operation rows =
    if ltb 1 (count_if (pending_at aggregate operation) rows)
    then err (runtime_error "Multiple rows were found when one or none was required")
    else ok (find_first (pending_at aggregate operation) rows)

-- `INSERT … ON CONFLICT (aggregate_id, operation) WHERE status = 'pending' DO UPDATE … RETURNING id`
unfoldable pub upsert_pending : ℕ → ℕ → String → Fields → ℕ → List OutboxItem → ℕ × List OutboxItem
upsert_pending item_id aggregate operation payload now rows =
    elim (find_first (pending_at aggregate operation) rows) [
      | some r ↦ (
        r.id,
        map (λ s. if pending_at aggregate operation s then refresh payload now s else s) rows,
      )
      | none ↦ (item_id, rows ++ new_item item_id aggregate operation payload now ∷ [])
    ]

-- `_update_pending_payload`: by the row's identifier, whatever its status is.
unfoldable pub update_pending_payload : ℕ → Fields → ℕ → List OutboxItem → List OutboxItem
update_pending_payload item_id payload now rows =
    map (λ s. if s.id == item_id then refresh payload now s else s) rows

-- A transaction of PostgreSQL: the rows that it sees, and whether a statement of it was refused.
pub record Transaction : Type 0 where
  pub rows : List OutboxItem
  pub aborted : Bool

-- What PostgreSQL answers, up to the end of a transaction, once a statement of it was refused.
abbrev pub aborted_transaction : Error
aborted_transaction =
    database_error "current transaction is aborted, commands ignored until end of transaction block"

abbrev pub finish_statement :
    {A : Type 0} → Result (A × List OutboxItem) → Transaction → Result A × Transaction
finish_statement (ok (a, rows)) t = (ok a, record t { rows = rows })
finish_statement (err e) t = (err e, record t { aborted = true })

-- `session.execute`
unfoldable pub execute :
    {A : Type 0} → (List OutboxItem → Result (A × List OutboxItem)) → Exec Transaction A
execute statement t =
    if t.aborted then (err aborted_transaction, t) else finish_statement (statement t.rows) t

-- `_acquire_outbox_lock`
unfoldable pub acquire_outbox_lock : Exec Transaction (Unit {0})
unfolding execute
acquire_outbox_lock = execute λ rows. ok (tt, rows)

-- `_get_existing_pending_id`, in its transaction.
unfoldable pub select_pending : ℕ → String → Exec Transaction (Option OutboxItem)
unfolding execute get_existing_pending
select_pending aggregate operation = execute (λ rows. ok (rows, rows)) >>= λ rows t.
    (get_existing_pending aggregate operation rows, t)

-- The insert or the update of the branch for a missing index; a fresh row violates nothing in a
-- table without the index, so the handler of an `IntegrityError` is not reached.
unfoldable pub fallback_write : ℕ → ℕ → String → Fields → ℕ → Option OutboxItem → Exec Transaction ℕ
unfolding execute update_pending_payload
fallback_write item_id aggregate operation payload now none =
    execute λ rows. ok (item_id, rows ++ new_item item_id aggregate operation payload now ∷ [])
fallback_write item_id aggregate operation payload now (some r) =
    execute λ rows. ok (r.id, update_pending_payload r.id payload now rows)

-- The branch of `enqueue_operation` for a database without the index, in the transaction of the
-- statement that was refused: lock, look up, then insert or update.
unfoldable pub enqueue_fallback : ℕ → ℕ → String → Fields → ℕ → Exec Transaction ℕ
unfolding acquire_outbox_lock select_pending fallback_write
enqueue_fallback item_id aggregate operation payload now = do
  acquire_outbox_lock
  existing ← select_pending aggregate operation
  fallback_write item_id aggregate operation payload now existing

abbrev pub no_constraint : String
no_constraint = "no unique or exclusion constraint matching the ON CONFLICT specification"

-- `except ProgrammingError as exc`, with `_is_missing_on_conflict_constraint`.
unfoldable pub recover : ℕ → ℕ → String → Fields → ℕ → Error → Exec Transaction ℕ
unfolding contains enqueue_fallback
recover item_id aggregate operation payload now (programming_error s) =
    if contains no_constraint s
    then enqueue_fallback item_id aggregate operation payload now
    else raise (programming_error s)
recover item_id aggregate operation payload now e = raise e

-- The statement of `enqueue_operation`: PostgreSQL refuses it where the index is missing.
unfoldable pub on_conflict_statement :
    Bool → ℕ → ℕ → String → Fields → ℕ → List OutboxItem → Result (ℕ × List OutboxItem)
unfolding upsert_pending
on_conflict_statement true item_id aggregate operation payload now rows =
    ok (upsert_pending item_id aggregate operation payload now rows)
on_conflict_statement false item_id aggregate operation payload now rows =
    err (programming_error ("there is " +++ no_constraint))

-- The end of `session_scope`: a commit, or a rollback.
abbrev pub close : Outbox → Result ℕ × Transaction → Result ℕ × Outbox
close o (ok created, t) = (ok created, record o { rows = t.rows })
close o (err e, t) = (err e, o)

-- `enqueue_operation`. `parse_aggregate_id` is `_parse_aggregate_id`, a `UUID` by the text or by
-- its SHA-1, and `item_id` the `uuid4()`; the statement returns an identifier wherever it succeeds.
unfoldable pub enqueue_operation :
    (String → ℕ) → ℕ → ℕ → String → String → Fields → Outbox → Result ℕ × Outbox
unfolding execute on_conflict_statement recover
enqueue_operation parse_aggregate_id item_id now aggregate_id operation payload o =
    let aggregate = parse_aggregate_id aggregate_id in
    close o (
      catch (execute (on_conflict_statement o.indexed item_id aggregate operation payload now))
        (recover item_id aggregate operation payload now)
        (record { rows = o.rows; aborted = false }))

-- The `where` of `get_pending_batch`.
abbrev pub is_due : ℕ → OutboxItem → Bool
is_due now r = is_pending r.status && elim r.next_retry_at [ none ↦ true | some at ↦ leb at now ]

abbrev pub created_before : OutboxItem → OutboxItem → Bool
created_before r s = leb r.created_at s.created_at

-- The rows that the `select` of `get_pending_batch` returns.
unfoldable pub due_rows : ℕ → ℕ → List OutboxItem → List OutboxItem
due_rows limit now rows = take limit (sort_by created_before (keep_if (is_due now) rows))

abbrev pub has_id : ℕ → OutboxItem → Bool
has_id i r = r.id == i

abbrev pub claim : ℕ → OutboxItem → OutboxItem
claim now r = record r { status = processing; updated_at = now }

-- `get_pending_batch`
unfoldable pub get_pending_batch : ℕ → ℕ → Outbox → List OutboxItem × Outbox
unfolding due_rows
get_pending_batch limit now o =
    let models = due_rows limit now o.rows in
    (
      map (claim now) models,
      record o { rows = map (λ r. if any (has_id r.id) models then claim now r else r) o.rows },
    )

-- A write of one row, by its identifier.
unfoldable pub replace : OutboxItem → List OutboxItem → List OutboxItem
replace new rows = map (λ r. if r.id == new.id then new else r) rows

-- `mark_as_done`
unfoldable pub mark_as_done : ℕ → ℕ → Outbox → Outbox
unfolding replace
mark_as_done item_id now o = elim (find_first (has_id item_id) o.rows) [
  | none ↦ o
  | some model ↦ record o {
    rows =
        replace
          (record model {
            status = done;
            last_error = none;
            next_retry_at = none;
            updated_at = now;
          })
          o.rows;
  }
]

-- Another row of the key is pending: with the index the commit of a pending row is refused.
abbrev pub clashes : OutboxItem → OutboxItem → Bool
clashes model r = not (r.id == model.id) && pending_at model.aggregate_id model.operation r

-- `mark_as_failed_with_retry`
unfoldable pub mark_as_failed_with_retry :
    ℕ → String → ℕ → ℕ → ℕ → Outbox → Result (Unit {0}) × Outbox
unfolding replace
mark_as_failed_with_retry item_id error next_retry_at attempt now o =
    elim (find_first (has_id item_id) o.rows) [
      | none ↦ (ok tt, o)
      | some model ↦
          if o.indexed && any (clashes model) o.rows
          then (err (integrity_error "uq_crm_outbox_pending_operation"), o)
          else (
            ok tt,
            record o {
              rows =
                  replace
                    (record model {
                      status = pending;
                      attempts = attempt;
                      last_error = some error;
                      next_retry_at = some next_retry_at;
                      updated_at = now;
                    })
                    o.rows;
            },
          )
    ]

-- `move_to_dlq`
unfoldable pub move_to_dlq : ℕ → String → ℕ → ℕ → Outbox → Outbox
unfolding replace
move_to_dlq item_id error dlq_id now o = elim (find_first (has_id item_id) o.rows) [
  | none ↦ o
  | some model ↦ record o {
    rows =
        replace (record model { status = dlq; last_error = some error; updated_at = now }) o.rows;
    dlq_rows =
        o.dlq_rows
        ++ record {
          id = dlq_id;
          original_outbox_id = model.id;
          payload = model.payload;
          error = error;
          moved_at = now;
        }
          ∷ [];
  }
]

-- `count_dlq_items`
unfoldable pub count_dlq_items : Outbox → ℕ
count_dlq_items o = length o.dlq_rows

-- `count_pending_items`
unfoldable pub count_pending_items : Outbox → ℕ
count_pending_items o = count_if (λ r. is_pending r.status) o.rows
