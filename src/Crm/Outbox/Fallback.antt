-- ===== src/Crm/Outbox/Fallback.antt =====
-- The branch of `enqueue_operation` of adapters/storage/repositories/crm_outbox_repo.py for a database
-- without the index.
use super_agent_platform.Crm.Outbox.{
  OutboxItem, Outbox, Transaction, aborted_transaction, acquire_outbox_lock, enqueue_fallback,
  no_constraint, on_conflict_statement, enqueue_operation, execute, recover, close,
}
use super_agent_platform.Base.{
  ℕ, String, ◌+++◌, ◌≡◌, refl, ap, ◌∙◌, true, false, List, Fields, Exec, catch, programming_error,
  err,
}

-- In a transaction of which a statement was refused, the branch is refused at its first statement.
enqueue_fallback_aborted :
    (item_id aggregate : ℕ) (operation : String) (payload : Fields) (now : ℕ)
    (rows : List OutboxItem)
    → let t : Transaction = record { rows = rows; aborted = true } in
      enqueue_fallback item_id aggregate operation payload now t ≡ (err aborted_transaction, t)
unfolding enqueue_fallback acquire_outbox_lock execute
enqueue_fallback_aborted item_id aggregate operation payload now rows = refl

recover_missing :
    (item_id aggregate : ℕ) (operation : String) (payload : Fields) (now : ℕ)
    → recover item_id aggregate operation payload now
        (programming_error ("there is " +++ no_constraint))
      ≡ enqueue_fallback item_id aggregate operation payload now
unfolding recover
recover_missing item_id aggregate operation payload now = refl

-- In a database without the index nothing is ever enqueued: the branch for a missing index runs in
-- the transaction that the refused statement aborted, so PostgreSQL refuses its lock too, and the
-- call raises and leaves the tables as they were, whatever rows they hold.
pub enqueue_operation_unindexed :
    (parse_aggregate_id : String → ℕ) (item_id now : ℕ) (aggregate_id operation : String)
    (payload : Fields) (o : Outbox)
    → o.indexed ≡ false
    → enqueue_operation parse_aggregate_id item_id now aggregate_id operation payload o
      ≡ (err aborted_transaction, o)
unfolding enqueue_operation execute on_conflict_statement
enqueue_operation_unindexed parse_aggregate_id item_id now aggregate_id operation payload o
      missing =
    let aggregate = parse_aggregate_id aggregate_id in
    let start : Transaction = record { rows = o.rows; aborted = false } in
    ap
      (λ indexed. close o (
        catch (execute (on_conflict_statement indexed item_id aggregate operation payload now))
          (recover item_id aggregate operation payload now) start))
      missing
    ∙ ap (λ (m : Exec Transaction ℕ). close o (m (record { rows = o.rows; aborted = true })))
        (recover_missing item_id aggregate operation payload now)
    ∙ ap (close o) (enqueue_fallback_aborted item_id aggregate operation payload now o.rows)
