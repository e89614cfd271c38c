-- ===== src/Crm/Worker/Retry.antt =====
-- What one failure comes to in core/services/crm_worker.py.
use super_agent_platform.Base.{
  ℕ, ◌+◌, ◌*◌, ◌≤◌, ◌<◌, String, ◌≡◌, refl, sym, ◌∙◌, subst, false, Option, some, List, [], ◌∷◌,
  ◌++◌, arith, ltb, leb, lt→ltb, nat_eq→eq, nat_eq_refl, any, find_first, find_first-some, Error,
  message, ok, err,
}
use super_agent_platform.Crm.Outbox.{
  OutboxItem, Outbox, is_due, has_id, replace, clashes, mark_as_failed_with_retry, pending,
  move_to_dlq, dlq,
}
use super_agent_platform.Crm.Worker.{
  World, Settings, CrmProvider, dispatch_operation, handle_failure, settle, process_item, backoff,
}

-- The row with this identifier.
abbrev pub row : ℕ → Outbox → Option OutboxItem
row i o = find_first (has_id i) o.rows

row-replace :
    (new model : OutboxItem) (rows : List OutboxItem)
    → find_first (has_id new.id) rows ≡ some model
    → find_first (has_id new.id) (replace new rows) ≡ some new
unfolding replace
row-replace new model [] h = absurd (ground arith)
row-replace new model (r ∷ rows) h = ground (arith, nat_eq_refl new.id, row-replace new model rows)

row_id : (i : ℕ) (o : Outbox) {m : OutboxItem} → row i o ≡ some m → m.id ≡ i
row_id i o {m} h = nat_eq→eq m.id i (find_first-some (has_id i) o.rows {a = m} h).0

module _ {P : Type 0} (provider : CrmProvider P) (settings : Settings) where
  -- What the row of the item is after the write, where `i` names it.
  row_written :
      (i : ℕ) (o : Outbox) (model new : OutboxItem)
      → row i o ≡ some model
      → new.id ≡ model.id
      → find_first (has_id i) (replace new o.rows) ≡ some new
  row_written i o model new found same =
      let e : new.id ≡ i = same ∙ row_id i o {m = model} found in
      subst (λ (j : ℕ). find_first (has_id j) (replace new o.rows) ≡ some new) e
        (row-replace new model o.rows
          (subst (λ (j : ℕ). find_first (has_id j) o.rows ≡ some model) (sym e) found))

  retry_free :
      (i at attempt now : ℕ) (error : String) (o : Outbox) (model : OutboxItem)
      → row i o ≡ some model
      → any (clashes model) o.rows ≡ false
      → mark_as_failed_with_retry i error at attempt now o ≡ (
        ok tt,
        record o {
          rows =
              replace
                (record model {
                  status = pending;
                  attempts = attempt;
                  last_error = some error;
                  next_retry_at = some at;
                  updated_at = now;
                })
                o.rows;
        },
      )
  unfolding mark_as_failed_with_retry
  retry_free i at attempt now error o model found free = ground arith

  -- The first and the second failure of an operation: if no other row of its key is pending, the
  -- item is not lost. Its row is pending again with one more attempt and the error's text, and it
  -- is due exactly from five minutes later for each attempt made.
  pub process_item-backoff :
      (item model : OutboxItem) (w : World P) (e : Error) (crm' : P)
      → item.attempts < 2
      → row item.id w.outbox ≡ some model
      → any (clashes model) w.outbox.rows ≡ false
      → dispatch_operation provider item.operation item.payload w.crm ≡ (err e, crm')
      → let (r, w') = process_item provider settings item w in
        (r ≡ ok tt)
        × (retried : OutboxItem) × (row item.id w'.outbox ≡ some retried)
        × (retried.status ≡ pending)
        × (retried.attempts ≡ item.attempts + 1)
        × (retried.last_error ≡ some (message e))
        × ((t : ℕ) → is_due t retried ≡ leb (settings.now + 300 * (item.attempts + 1)) t)
  unfolding process_item settle handle_failure
  process_item-backoff item model w e crm' few found free failed =
      let at = settings.now + backoff provider (item.attempts + 1) in
      rw (failed, process_item)
        (rw (lt→ltb (item.attempts + 1) 3 (omega arith)) (
          rw
            (retry_free item.id at (item.attempts + 1) settings.now (message e) w.outbox model found
              free)
            (
              refl,
              record model {
                status = pending;
                attempts = item.attempts + 1;
                last_error = some (message e);
                next_retry_at = some at;
                updated_at = settings.now;
              },
              row_written item.id w.outbox model _ found refl,
              refl,
              refl,
              refl,
              λ t. ground arith,
            )))

  -- The third failure: the row keeps its attempts, gets the status of the dead letters and is
  -- never due again, and exactly one dead letter, with the item's payload, is added.
  pub process_item-exhausted :
      (item model : OutboxItem) (w : World P) (e : Error) (crm' : P)
      → 2 ≤ item.attempts
      → row item.id w.outbox ≡ some model
      → dispatch_operation provider item.operation item.payload w.crm ≡ (err e, crm')
      → let (r, w') = process_item provider settings item w in
        (r ≡ ok tt)
        × (buried : OutboxItem) × (row item.id w'.outbox ≡ some buried)
        × (buried.status ≡ dlq)
        × ((t : ℕ) → is_due t buried ≡ false)
        × (w'.outbox.dlq_rows
            ≡ w.outbox.dlq_rows
              ++ record {
                id = settings.dlq_id item.id;
                original_outbox_id = item.id;
                payload = model.payload;
                error = message e;
                moved_at = settings.now;
              }
                ∷ [])
  unfolding process_item settle handle_failure move_to_dlq
  process_item-exhausted item model w e crm' many found failed =
      let late : ltb (item.attempts + 1) 3 ≡ false = ground arith in
      rw (failed, process_item)
        (rw (late, handle_failure)
          (rw (found, move_to_dlq)
            (
              refl,
              record model {
                status = dlq;
                last_error = some (message e);
                updated_at = settings.now;
              },
              row_written item.id w.outbox model _ found refl,
              refl,
              λ t. refl,
              rw (row_id item.id w.outbox {m = model} found),
            )))
