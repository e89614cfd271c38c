-- ===== src/Crm/Worker/Attempts.antt =====
-- The retries of core/services/crm_worker.py.
use super_agent_platform.Base.{
  ℕ, ◌+◌, ◌<◌, String, ◌≡◌, inl, inr, Bool, ◌&&◌, some, List, [], ◌∷◌, map, arith, ltb, ◌==◌,
  if◌then◌else◌, Bool-cases, ltb→lt, Option-cases, any, find_first, All, All-Occurs,
  find_first-some, message, Result, Exec, bind_result, modify, ok, err, ℕ_eq, String_eq,
}
use super_agent_platform.Crm.Outbox.{
  OutboxItem, Outbox, due_rows, has_id, claim, get_pending_batch, replace, mark_as_done, clashes,
  mark_as_failed_with_retry, move_to_dlq,
}
use super_agent_platform.Crm.Worker.{
  World, Settings, CrmProvider, dispatch_operation, handle_failure, settle, process_item,
  process_items, check_dlq_alerts, process_batch,
}

-- No row has used up its three attempts.
abbrev pub WithinBudget : List OutboxItem → Type 0
WithinBudget = All (λ (r : OutboxItem). r.attempts < 3)

map-WithinBudget :
    (f : OutboxItem → OutboxItem) (rows : List OutboxItem)
    → ((r : OutboxItem) → r.attempts < 3 → (f r).attempts < 3)
    → WithinBudget rows
    → WithinBudget (map f rows)
map-WithinBudget f [] keeps h = tt
map-WithinBudget f (r ∷ rows) keeps h = (keeps r h.0, map-WithinBudget f rows keeps h.1)

replace-WithinBudget :
    (new : OutboxItem) (rows : List OutboxItem)
    → new.attempts < 3
    → WithinBudget rows
    → WithinBudget (replace new rows)
unfolding replace
replace-WithinBudget new rows fits h =
    map-WithinBudget (λ r. if r.id == new.id then new else r) rows (λ r k. ground arith) h

found-WithinBudget :
    (p : OutboxItem → Bool) (rows : List OutboxItem) {r : OutboxItem}
    → find_first p rows ≡ some r
    → WithinBudget rows
    → r.attempts < 3
found-WithinBudget p rows {r} found h =
    All-Occurs (λ (s : OutboxItem). s.attempts < 3) h (find_first-some p rows {a = r} found).1

module _ {P : Type 0} (provider : CrmProvider P) (settings : Settings) where
  mark_as_done-WithinBudget :
      (i now : ℕ) (o : Outbox) → WithinBudget o.rows → WithinBudget (mark_as_done i now o).rows
  unfolding mark_as_done
  mark_as_done-WithinBudget i now o h = elim (Option-cases (find_first (has_id i) o.rows)) [
    | inl missing ↦ rw (missing, mark_as_done) h
    | inr (r, found) ↦
        rw (found, mark_as_done)
          (replace-WithinBudget _ o.rows (found-WithinBudget (has_id i) o.rows found h) h)
  ]

  move_to_dlq-WithinBudget :
      (i : ℕ) (e : String) (d now : ℕ) (o : Outbox)
      → WithinBudget o.rows
      → WithinBudget (move_to_dlq i e d now o).rows
  unfolding move_to_dlq
  move_to_dlq-WithinBudget i e d now o h = elim (Option-cases (find_first (has_id i) o.rows)) [
    | inl missing ↦ rw (missing, move_to_dlq) h
    | inr (r, found) ↦
        rw (found, move_to_dlq)
          (replace-WithinBudget _ o.rows (found-WithinBudget (has_id i) o.rows found h) h)
  ]

  mark_as_failed_with_retry-WithinBudget :
      (i : ℕ) (e : String) (at attempt now : ℕ) (o : Outbox)
      → attempt < 3
      → WithinBudget o.rows
      → WithinBudget (mark_as_failed_with_retry i e at attempt now o).1.rows
  unfolding mark_as_failed_with_retry
  mark_as_failed_with_retry-WithinBudget i e at attempt now o fits h =
      elim (Option-cases (find_first (has_id i) o.rows)) [
        | inl missing ↦ rw (missing, mark_as_failed_with_retry) h
        | inr (r, found) ↦
            rw (found, mark_as_failed_with_retry)
              (elim (Bool-cases (o.indexed && any (clashes r) o.rows)) [
                | inl clash ↦ rw clash h
                | inr free ↦ rw free (replace-WithinBudget _ o.rows fits h)
              ])
      ]

  settle-WithinBudget :
      (item : OutboxItem) (w : World P) (x : Result (Unit {0}) × P)
      → WithinBudget w.outbox.rows
      → WithinBudget (settle provider settings item w x).1.outbox.rows
  unfolding settle
  settle-WithinBudget item w (ok u, crm') h =
      mark_as_done-WithinBudget item.id settings.now w.outbox h
  settle-WithinBudget item w (err e, crm') h = elim (Bool-cases (ltb (item.attempts + 1) 3)) [
    | inl again ↦
        unfold handle_failure in
        rw (again, handle_failure)
          (mark_as_failed_with_retry-WithinBudget item.id (message e) _ (item.attempts + 1)
            settings.now w.outbox (ltb→lt _ _ again) h)
    | inr last ↦
        unfold handle_failure in
        rw (last, handle_failure)
          (move_to_dlq-WithinBudget item.id (message e) _ settings.now w.outbox h)
  ]

  bind-WithinBudget :
      (k : Exec (World P) (Unit {0})) (x : Result (Unit {0}) × World P)
      → ((w : World P) → WithinBudget w.outbox.rows → WithinBudget (k w).1.outbox.rows)
      → WithinBudget x.1.outbox.rows
      → WithinBudget (bind_result x (λ (u : Unit {0}). k)).1.outbox.rows
  bind-WithinBudget k (err e, w) rest h = h
  bind-WithinBudget k (ok u, w) rest h = rest w h

  process_items-WithinBudget :
      (items : List OutboxItem) (w : World P)
      → WithinBudget w.outbox.rows
      → WithinBudget (process_items provider settings items w).1.outbox.rows
  unfolding process_items process_item
  process_items-WithinBudget [] w h = h
  process_items-WithinBudget (item ∷ items) w h =
      bind-WithinBudget (process_items provider settings items)
        (process_item provider settings item w) (process_items-WithinBudget items)
        (settle-WithinBudget item w (dispatch_operation provider item.operation item.payload w.crm)
          h)

  -- If every row has fewer than three attempts, so it is after a batch, also one that raises: a
  -- third failure is never written back as an attempt.
  pub process_batch-WithinBudget :
      (batch_size : ℕ) (w : World P)
      → WithinBudget w.outbox.rows
      → WithinBudget (process_batch provider settings batch_size w).1.outbox.rows
  unfolding process_batch get_pending_batch
  process_batch-WithinBudget batch_size w h =
      let (items, o) = get_pending_batch batch_size settings.now w.outbox in
      let w₁ : World P = record w { outbox = o } in
      bind-WithinBudget (modify (check_dlq_alerts provider settings))
        (process_items provider settings items w₁) (λ v k. unfold check_dlq_alerts in k)
        (process_items-WithinBudget items w₁ (
          map-WithinBudget
            (λ r.
              if any (has_id r.id) (due_rows batch_size settings.now w.outbox.rows)
              then claim settings.now r
              else r)
            w.outbox.rows (λ r k. ground arith) h))
