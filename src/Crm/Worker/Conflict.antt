-- ===== src/Crm/Worker/Conflict.antt =====
-- A retry of core/services/crm_worker.py that meets a newer pending row of its key.
use super_agent_platform.Crm.Worker.Stranded.{is_processing}
use super_agent_platform.Base.{
  sort_by, ℕ, ◌+◌, ◌<◌, ◌≡◌, refl, true, some, List, [], ◌∷◌, arith, lt→ltb, any, count_if, keep_if,
  count_if-sort_by, count_if-take, Error, integrity_error, err,
}
use super_agent_platform.Crm.Outbox.{
  OutboxItem, is_due, created_before, due_rows, clashes, mark_as_failed_with_retry,
}
use super_agent_platform.Crm.Worker.{
  World, Settings, CrmProvider, dispatch_operation, handle_failure, settle, process_item,
  process_items,
}
use super_agent_platform.Crm.Worker.Retry.{row}

module _ {P : Type 0} (provider : CrmProvider P) (settings : Settings) where
  -- While an item is processed, the same operation of the same aggregate may be enqueued again.
  -- If then the dispatch fails for the first or second time, the write of the retry violates the
  -- unique index: the exception leaves the batch, no table is changed, and so this item and all
  -- items behind it stay in the status that the claim gave them.
  pub process_items_conflict :
      (item model : OutboxItem) (items : List OutboxItem) (w : World P) (e : Error) (crm' : P)
      → item.attempts < 2
      → row item.id w.outbox ≡ some model
      → w.outbox.indexed ≡ true
      → any (clashes model) w.outbox.rows ≡ true
      → dispatch_operation provider item.operation item.payload w.crm ≡ (err e, crm')
      → process_items provider settings (item ∷ items) w
        ≡ (err (integrity_error "uq_crm_outbox_pending_operation"), record w { crm = crm' })
  unfolding process_items process_item settle handle_failure mark_as_failed_with_retry
  process_items_conflict item model items w e crm' few found index clash failed =
      ground (arith, lt→ltb (item.attempts + 1) 3)

-- A row that is in `processing` is never selected by a later batch.
pub due_rows-not_processing :
    (limit now : ℕ) (rows : List OutboxItem)
    → count_if (λ (r : OutboxItem). is_processing r.status) (due_rows limit now rows) ≡ 0
unfolding due_rows
due_rows-not_processing limit now rows =
    let p = λ (r : OutboxItem). is_processing r.status in
    omega (
      arith,
      count_if-take p limit (sort_by created_before (keep_if (is_due now) rows)),
      count_if-sort_by p created_before (keep_if (is_due now) rows),
      none_due rows,
    )
  where
    none_due :
        (xs : List OutboxItem)
        → count_if (λ (r : OutboxItem). is_processing r.status) (keep_if (is_due now) xs) ≡ 0
    none_due [] = refl
    none_due (x ∷ xs) = ground (arith, none_due xs)
