-- ===== src/Crm/Outbox/Calls.antt =====
-- Sequences of calls of adapters/storage/repositories/crm_outbox_repo.py.
use super_agent_platform.Base.{
  ℕ, String, ◌≡◌, inl, inr, true, List, [], ◌∷◌, arith, if◌then◌else◌, Bool-cases, Option-cases,
  any, count_if, find_first, find_first-none, Fields,
}
use super_agent_platform.Crm.Outbox.{
  OutboxItem, Outbox, pending_at, new_item, refresh, upsert_pending, enqueue_operation, due_rows,
  has_id, claim, get_pending_batch, mark_as_done, clashes, mark_as_failed_with_retry, move_to_dlq,
}
use super_agent_platform.Crm.Outbox.Unique.{IsValid, map-IsValid, replace-IsValid, append-IsValid}

-- A call of the repository, with the identifiers and the clock value that it draws.
pub data Call : Type 0 where
  enqueue : ℕ → ℕ → String → String → Fields → Call
  claim_batch : ℕ → ℕ → Call
  finish : ℕ → ℕ → Call
  retry : ℕ → String → ℕ → ℕ → ℕ → Call
  bury : ℕ → String → ℕ → ℕ → Call

module _ (parse_aggregate_id : String → ℕ) where
  unfoldable pub call : Call → Outbox → Outbox
  call (enqueue item_id now aggregate_id operation payload) o =
      (enqueue_operation parse_aggregate_id item_id now aggregate_id operation payload o).1
  call (claim_batch limit now) o = (get_pending_batch limit now o).1
  call (finish item_id now) o = mark_as_done item_id now o
  call (retry item_id error at attempt now) o =
      (mark_as_failed_with_retry item_id error at attempt now o).1
  call (bury item_id error dlq_id now) o = move_to_dlq item_id error dlq_id now o

  unfoldable pub call_all : List Call → Outbox → Outbox
  call_all [] o = o
  call_all (c ∷ cs) o = call_all cs (call c o)

  -- `uuid4()` draws an identifier that no row has.
  abbrev pub IsFresh : Call → Outbox → Type 0
  IsFresh (enqueue item_id _ _ _ _) o = count_if (has_id item_id) o.rows ≡ 0
  IsFresh (claim_batch _ _) o = Unit {0}
  IsFresh (finish _ _) o = Unit {0}
  IsFresh (retry _ _ _ _ _) o = Unit {0}
  IsFresh (bury _ _ _ _) o = Unit {0}

  unfoldable pub AllFresh : List Call → Outbox → Type 0
  AllFresh [] o = Unit {0}
  AllFresh (c ∷ cs) o = IsFresh c o × AllFresh cs (call c o)

  pub upsert_pending-IsValid :
      (item_id aggregate : ℕ) (operation : String) (payload : Fields) (now : ℕ)
      (rows : List OutboxItem)
      → count_if (has_id item_id) rows ≡ 0
      → IsValid rows
      → IsValid (upsert_pending item_id aggregate operation payload now rows).1
  unfolding upsert_pending
  upsert_pending-IsValid item_id aggregate operation payload now rows fresh h =
      elim (Option-cases (find_first (pending_at aggregate operation) rows)) [
        | inl missing ↦
            rw (missing, upsert_pending)
              (append-IsValid (new_item item_id aggregate operation payload now) rows h fresh
                (find_first-none (pending_at aggregate operation) rows missing))
        | inr (r, found) ↦
            rw (found, upsert_pending)
              (map-IsValid
                (λ s. if pending_at aggregate operation s then refresh payload now s else s) rows
                (λ s. ground arith) (λ s a op p. ground arith) h)
      ]

  get_pending_batch-IsValid :
      (limit now : ℕ) (o : Outbox) → IsValid o.rows → IsValid (get_pending_batch limit now o).1.rows
  unfolding get_pending_batch
  get_pending_batch-IsValid limit now o h =
      map-IsValid (λ r. if any (has_id r.id) (due_rows limit now o.rows) then claim now r else r)
        o.rows (λ s. ground arith) (λ s a op p. ground arith) h

  mark_as_done-IsValid :
      (item_id now : ℕ) (o : Outbox) → IsValid o.rows → IsValid (mark_as_done item_id now o).rows
  unfolding mark_as_done
  mark_as_done-IsValid item_id now o h = elim (Option-cases (find_first (has_id item_id) o.rows)) [
    | inl missing ↦ rw (missing, mark_as_done) h
    | inr (r, found) ↦
        rw (found, mark_as_done) (replace-IsValid _ o.rows h (λ p. absurd (ground arith)))
  ]

  move_to_dlq-IsValid :
      (item_id : ℕ) (error : String) (dlq_id now : ℕ) (o : Outbox)
      → IsValid o.rows
      → IsValid (move_to_dlq item_id error dlq_id now o).rows
  unfolding move_to_dlq
  move_to_dlq-IsValid item_id error dlq_id now o h =
      elim (Option-cases (find_first (has_id item_id) o.rows)) [
        | inl missing ↦ rw (missing, move_to_dlq) h
        | inr (r, found) ↦
            rw (found, move_to_dlq) (replace-IsValid _ o.rows h (λ p. absurd (ground arith)))
      ]

  mark_as_failed_with_retry-IsValid :
      (item_id : ℕ) (error : String) (at attempt now : ℕ) (o : Outbox)
      → o.indexed ≡ true
      → IsValid o.rows
      → IsValid (mark_as_failed_with_retry item_id error at attempt now o).1.rows
  unfolding mark_as_failed_with_retry
  mark_as_failed_with_retry-IsValid item_id error at attempt now o index h =
      elim (Option-cases (find_first (has_id item_id) o.rows)) [
        | inl missing ↦ rw (missing, mark_as_failed_with_retry) h
        | inr (r, found) ↦ elim (Bool-cases (any (clashes r) o.rows)) [
          | inl clash ↦ rw (found, mark_as_failed_with_retry) (rw index (rw clash h))
          | inr free ↦
              rw (found, mark_as_failed_with_retry)
                (rw index (rw free (replace-IsValid _ o.rows h (λ _. free))))
        ]
      ]

  enqueue_operation-IsValid :
      (item_id now : ℕ) (aggregate_id operation : String) (payload : Fields) (o : Outbox)
      → o.indexed ≡ true
      → count_if (has_id item_id) o.rows ≡ 0
      → IsValid o.rows
      → IsValid
          (enqueue_operation parse_aggregate_id item_id now aggregate_id operation payload o).1.rows
  unfolding enqueue_operation
  enqueue_operation-IsValid item_id now aggregate_id operation payload o index fresh h =
      rw (index, enqueue_operation)
        (upsert_pending-IsValid item_id (parse_aggregate_id aggregate_id) operation payload now
          o.rows fresh h)

  call-IsValid :
      (c : Call) (o : Outbox)
      → o.indexed ≡ true
      → IsFresh c o
      → IsValid o.rows
      → IsValid (call c o).rows
  unfolding call
  call-IsValid (enqueue item_id now aggregate_id operation payload) o index fresh h =
      enqueue_operation-IsValid item_id now aggregate_id operation payload o index fresh h
  call-IsValid (claim_batch limit now) o index fresh h = get_pending_batch-IsValid limit now o h
  call-IsValid (finish item_id now) o index fresh h = mark_as_done-IsValid item_id now o h
  call-IsValid (retry item_id error at attempt now) o index fresh h =
      mark_as_failed_with_retry-IsValid item_id error at attempt now o index h
  call-IsValid (bury item_id error dlq_id now) o index fresh h =
      move_to_dlq-IsValid item_id error dlq_id now o h

  indexed-call : (c : Call) (o : Outbox) → o.indexed ≡ true → (call c o).indexed ≡ true
  unfolding call enqueue_operation get_pending_batch mark_as_done mark_as_failed_with_retry
      move_to_dlq
  indexed-call (enqueue item_id now aggregate_id operation payload) o h = ground arith
  indexed-call (claim_batch limit now) o h = h
  indexed-call (finish item_id now) o h = ground arith
  indexed-call (retry item_id error at attempt now) o h = ground arith
  indexed-call (bury item_id error dlq_id now) o h = ground arith

  -- From a table with the index in which no identifier is there twice and no two pending rows
  -- share an aggregate and an operation, every sequence of calls of the repository that draws
  -- fresh identifiers leads to such a table; a retry that would not is refused by the index.
  call_all-IsValid :
      (cs : List Call) (o : Outbox)
      → o.indexed ≡ true
      → AllFresh cs o
      → IsValid o.rows
      → IsValid (call_all cs o).rows
  unfolding call_all AllFresh
  call_all-IsValid [] o index fresh h = h
  call_all-IsValid (c ∷ cs) o index fresh h =
      call_all-IsValid cs (call c o) (indexed-call c o index) fresh.1
        (call-IsValid c o index fresh.0 h)
