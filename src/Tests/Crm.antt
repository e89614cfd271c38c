-- ===== src/Tests/Crm.antt =====
-- The outbox of adapters/storage and the worker of core/services at concrete rows.
use super_agent_platform.Crm.Outbox.Queued.{Queued, enqueue_operation-Queued}
use super_agent_platform.Base.{
  sort_by, insert_by, get, ℕ, ◌+◌, ◌*◌, String, ◌≡◌, refl, true, false, some, List, [], ◌∷◌, ◌++◌,
  arith, leb, Occurs, here, there, str, end, field, integrity_error, runtime_error, ok, err,
}
use super_agent_platform.Crm.Outbox.{
  OutboxItem, Outbox, new_item, upsert_pending, aborted_transaction, enqueue_operation, is_due,
  due_rows, claim, get_pending_batch, mark_as_failed_with_retry, pending, processing, dlq,
}
use super_agent_platform.Crm.Outbox.Unique.{IsValid}
use super_agent_platform.Crm.Outbox.Calls.{Call, call, AllFresh, enqueue, claim_batch, retry}
use super_agent_platform.Crm.Outbox.Fallback.{enqueue_operation_unindexed}
use super_agent_platform.Crm.Worker.{
  CrmProvider, World, Settings, dispatch_operation, process_item, process_items, process_batch,
}
use super_agent_platform.Crm.Worker.Attempts.{WithinBudget, process_batch-WithinBudget}
use super_agent_platform.Crm.Worker.Retry.{row, process_item-backoff, process_item-exhausted}
use super_agent_platform.Crm.Worker.Conflict.{process_items_conflict}
use super_agent_platform.Crm.Worker.Stranded.{process_batch_strands_none}

-- Every text names the aggregate 10.
abbrev aggregate_of : String → ℕ
aggregate_of s = 10

abbrev empty_outbox : Outbox
empty_outbox = record { rows = []; dlq_rows = []; indexed = true }

abbrev script : List Call
script =
    enqueue 1 100 "lead" "upsert_lead" (field "phone" (str "55") end)
    ∷ claim_batch 10 110
    ∷ enqueue 2 120 "lead" "upsert_lead" (field "phone" (str "56") end)
    ∷ retry 1 "timeout" 410 1 130
    ∷ []

script_fresh : AllFresh aggregate_of script empty_outbox
unfolding AllFresh call enqueue_operation upsert_pending get_pending_batch due_rows sort_by
    insert_by mark_as_failed_with_retry
script_fresh = (refl, (tt, (refl, (tt, tt))))

empty_IsValid : IsValid []
empty_IsValid = record { ids = λ i. omega arith; keys = λ a op. omega arith }

abbrev waiting : OutboxItem
waiting = new_item 1 10 "upsert_lead" (field "phone" (str "55") end) 100

abbrev newer : OutboxItem
newer = new_item 2 10 "upsert_lead" (field "phone" (str "56") end) 120

waiting-IsValid : IsValid (waiting ∷ [])
waiting-IsValid = record { ids = λ i. ground arith; keys = λ a op. ground arith }

abbrev waiting_outbox : Outbox
waiting_outbox = record { rows = waiting ∷ []; dlq_rows = []; indexed = true }

-- The operation waits already: its row is brought up to date.
enqueue_operation-Queued_example :
    let (r, o') = enqueue_operation aggregate_of 2 120 "lead" "upsert_lead" end waiting_outbox in
    (i : ℕ) × (r ≡ ok i) × Queued 2 10 "upsert_lead" end waiting_outbox.rows o'.rows i
enqueue_operation-Queued_example =
    enqueue_operation-Queued aggregate_of 2 120 "lead" "upsert_lead" end waiting_outbox refl refl
      waiting-IsValid

enqueue_operation_unindexed_example :
    enqueue_operation aggregate_of 2 120 "lead" "upsert_lead" end
      (record waiting_outbox { indexed = false })
    ≡ (err aborted_transaction, record waiting_outbox { indexed = false })
enqueue_operation_unindexed_example =
    enqueue_operation_unindexed aggregate_of 2 120 "lead" "upsert_lead" end
      (record waiting_outbox { indexed = false }) refl

-- A CRM that refuses every call, and counts them.
abbrev broken : CrmProvider ℕ
broken = record {
  upsert_lead = λ lead n. (err (runtime_error "timeout"), n + 1);
  change_stage = λ lead_id stage reason phone n. (err (runtime_error "timeout"), n + 1);
  add_note = λ lead_id note author n. (err (runtime_error "timeout"), n + 1);
}

abbrev settings : Settings
settings = record {
  now = 130;
  dlq_id = λ i. i + 1000;
  crm_dlq_threshold = 5;
  crm_pending_threshold = 50;
}

abbrev world : List OutboxItem → World ℕ
world rows = record {
  outbox = record { rows = rows; dlq_rows = []; indexed = true };
  crm = 0;
  alerts = [];
}

abbrev claimed : OutboxItem
claimed = claim 110 waiting

refused :
    dispatch_operation broken claimed.operation claimed.payload 0
    ≡ (err (runtime_error "timeout"), 1)
unfolding dispatch_operation get
refused = refl

process_items_conflict_example :
    process_items broken settings (claimed ∷ []) (world (claimed ∷ newer ∷ [])) ≡ (
      err (integrity_error "uq_crm_outbox_pending_operation"),
      record (world (claimed ∷ newer ∷ [])) { crm = 1 },
    )
process_items_conflict_example =
    process_items_conflict broken settings claimed claimed [] (world (claimed ∷ newer ∷ []))
      (runtime_error "timeout") 1 (omega arith) refl refl refl refused

process_item-backoff_example :
    let (r, w') = process_item broken settings claimed (world (claimed ∷ [])) in
    (r ≡ ok tt)
    × (retried : OutboxItem) × (row 1 w'.outbox ≡ some retried)
    × (retried.status ≡ pending)
    × (retried.attempts ≡ 0 + 1)
    × (retried.last_error ≡ some "timeout")
    × ((t : ℕ) → is_due t retried ≡ leb (130 + 300 * (0 + 1)) t)
process_item-backoff_example =
    process_item-backoff broken settings claimed claimed (world (claimed ∷ []))
      (runtime_error "timeout") 1 (omega arith) refl refl refused

abbrev twice_failed : OutboxItem
twice_failed = record claimed { attempts = 2 }

process_item-exhausted_example :
    let (r, w') = process_item broken settings twice_failed (world (twice_failed ∷ [])) in
    (r ≡ ok tt)
    × (buried : OutboxItem) × (row 1 w'.outbox ≡ some buried)
    × (buried.status ≡ dlq)
    × ((t : ℕ) → is_due t buried ≡ false)
    × (w'.outbox.dlq_rows
        ≡ []
          ++ record {
            id = 1001;
            original_outbox_id = 1;
            payload = twice_failed.payload;
            error = "timeout";
            moved_at = 130;
          }
            ∷ [])
process_item-exhausted_example =
    process_item-exhausted broken settings twice_failed twice_failed (world (twice_failed ∷ []))
      (runtime_error "timeout") 1 (omega arith) refl refused

process_batch-WithinBudget_example :
    WithinBudget (process_batch broken settings 10 (world (waiting ∷ []))).1.outbox.rows
process_batch-WithinBudget_example =
    process_batch-WithinBudget broken settings 10 (world (waiting ∷ [])) (omega arith)

-- A row that an earlier batch left behind.
abbrev stuck : OutboxItem
stuck = record waiting { id = 3; aggregate_id = 11; status = processing }

batch_ends : (process_batch broken settings 10 (world (waiting ∷ stuck ∷ []))).0 ≡ ok tt
unfolding process_batch get_pending_batch due_rows sort_by insert_by mark_as_failed_with_retry
    dispatch_operation get
batch_ends = refl

stuck_stays :
    Occurs stuck (process_batch broken settings 10 (world (waiting ∷ stuck ∷ []))).1.outbox.rows
unfolding process_batch get_pending_batch due_rows sort_by insert_by mark_as_failed_with_retry
    dispatch_operation get
stuck_stays = there here

process_batch_strands_none_example : Occurs stuck (waiting ∷ stuck ∷ [])
process_batch_strands_none_example =
    process_batch_strands_none broken settings 10 (world (waiting ∷ stuck ∷ [])) stuck batch_ends
      stuck_stays refl
