-- ===== src/Outbound/QueueWorker/Once.antt =====
-- How often core/services/queue_worker.py sends an item of the queue.
use super_agent_platform.Outbound.QueueWorker.Cases.{process_item-cases}
use super_agent_platform.Base.{
  sort_by, ℕ, ◌+◌, ◌≤◌, String, ◌≡◌, refl, inl, inr, Bool, true, false, ◌&&◌, List, [], ◌∷◌, ◌++◌,
  map, arith, ◌==◌, if◌then◌else◌, Bool-cases, any, count_if, keep_if, count_if_mono, count_if-map,
  count_if-append, any-false, count_if-sort_by, count_if-take, message, Result, ok, err, ℕ_eq,
  String_eq,
}
use super_agent_platform.Messaging.{Request, recorder, item, trace}
use super_agent_platform.Outbound.Queue.{
  QueueRow, OutboundQueueItem, is_queued, mark_as_sent, mark_as_failed, is_due, served_before,
  due_rows, has_id, claim, phone_of, get_next_batch,
}
use super_agent_platform.Outbound.QueueWorker.{
  World, process_item, process_items, deliver, settled, process_batch,
}

-- The requests made for an item.
abbrev pub is_for : ℕ → Request → Bool
is_for i r = elim r.correlation [ item j ↦ j == i | trace s ↦ false ]

-- The rows of the item that still wait.
abbrev pub waits : ℕ → QueueRow → Bool
waits i r = is_queued r.status && r.id == i

abbrev pub item_has_id : ℕ → OutboundQueueItem → Bool
item_has_id i x = x.queue_row.id == i

module _ (i : ℕ) where
  -- A write that makes no row wait adds no waiting row.
  map-waits :
      (f : QueueRow → QueueRow) (rows : List QueueRow)
      → ((r : QueueRow) → waits i (f r) ≡ true → waits i r ≡ true)
      → count_if (waits i) (map f rows) ≤ count_if (waits i) rows
  map-waits f rows h = omega (
    arith,
    count_if-map {0, 0} (waits i) f rows,
    count_if_mono {0} (λ r. waits i (f r)) (waits i) h rows,
  )

  mark_as_sent-waits :
      (j now : ℕ) (rows : List QueueRow)
      → count_if (waits i) (mark_as_sent j now rows) ≤ count_if (waits i) rows
  unfolding mark_as_sent
  mark_as_sent-waits j now rows = map-waits _ rows (λ r h. ground arith)

  mark_as_failed-waits :
      (j : ℕ) (e : String) (rows : List QueueRow)
      → count_if (waits i) (mark_as_failed j e rows) ≤ count_if (waits i) rows
  unfolding mark_as_failed
  mark_as_failed-waits j e rows = map-waits _ rows (λ r h. ground arith)

  -- The requests for the item and its waiting rows.
  abbrev pub tally : World (List Request) → ℕ
  tally w = count_if (is_for i) w.mail + count_if (waits i) w.queue

  module _ (answer : List Request → Request → Result (Unit {0})) (now : ℕ) where
    settled-tally :
        (j : ℕ) (w : World (List Request)) (x : Result (Unit {0}))
        → tally (settled (recorder answer) now j w x) ≤ tally w
    settled-tally j w (ok u) = omega (arith, mark_as_sent-waits j now w.queue)
    settled-tally j w (err e) = omega (arith, mark_as_failed-waits j (message e) w.queue)

    deliver-tally :
        (j : ℕ) (phone text : String) (w : World (List Request))
        → tally (deliver (recorder answer) now j phone text w) ≤ tally w + (if j == i then 1 else 0)
    unfolding deliver
    deliver-tally j phone text w =
        let r : Request = record { to = phone; content = text; correlation = item j } in
        omega (
          arith,
          settled-tally j (record w { mail = w.mail ++ r ∷ [] }) (answer w.mail r),
          count_if-append {0} (is_for i) w.mail (r ∷ []),
          one_request r,
        )
      where
        one_request : (r : Request) → count_if (is_for i) (r ∷ []) ≤ (if is_for i r then 1 else 0)
        one_request r = ground arith

    process_item-tally :
        (x : OutboundQueueItem) (w : World (List Request))
        → tally (process_item (recorder answer) now x w)
          ≤ tally w + (if item_has_id i x then 1 else 0)
    process_item-tally x w = elim (process_item-cases (recorder answer) now x w) [
      | inl (error, same) ↦
          rw same (omega (arith, mark_as_failed-waits x.queue_row.id error w.queue))
      | inr (phone, text, open_to, same) ↦ rw same (deliver-tally x.queue_row.id phone text w)
    ]

    process_items-tally :
        (items : List OutboundQueueItem) (w : World (List Request))
        → tally (process_items (recorder answer) now items w)
          ≤ tally w + count_if (item_has_id i) items
    unfolding process_items
    process_items-tally [] w = omega arith
    process_items-tally (x ∷ items) w = ground (
      arith,
      process_item-tally x w,
      process_items-tally items (process_item (recorder answer) now x w),
    )

  -- The claim of a batch: an item in it waits no more.
  claim_tally :
      (leads : List (ℕ × String)) (limit now : ℕ) (rows : List QueueRow)
      → let (items, rows') = get_next_batch leads limit now rows in
        count_if (item_has_id i) items + count_if (waits i) rows' ≤ count_if (waits i) rows
  unfolding get_next_batch due_rows
  claim_tally leads limit now rows =
      let models = due_rows limit now rows in
      let mark : QueueRow → QueueRow = λ r. if any (has_id r.id) models then claim r else r in
      elim (Bool-cases (any (has_id i) models)) [
        | inl claimed ↦ omega (
          arith,
          batch_count models,
          due_waits,
          count_if-map {0, 0} (waits i) mark rows,
          count_if_mono {0} (λ r. waits i (mark r)) (λ r. false) (λ r h. ground (arith, claimed))
              rows,
          none_counted rows,
        )
        | inr left ↦ omega (
          arith,
          batch_count models,
          any-false (has_id i) models left,
          map-waits mark rows (λ r h. ground arith),
        )
      ]
    where
      batch_count :
          (models : List QueueRow)
          → count_if (item_has_id i) (
              map
                (λ r. record { queue_row = claim r; lead_phone = phone_of leads r.lead_id })
                models)
            ≡ count_if (has_id i) models
      batch_count [] = refl
      batch_count (r ∷ models) = ground (arith, batch_count models)

      none_counted : (xs : List QueueRow) → count_if (λ r. false) xs ≡ 0
      none_counted [] = refl
      none_counted (x ∷ xs) = none_counted xs

      kept_waits :
          (xs : List QueueRow)
          → count_if (has_id i) (keep_if (is_due now) xs) ≤ count_if (waits i) xs
      kept_waits [] = omega arith
      kept_waits (x ∷ xs) = ground (arith, kept_waits xs)

      due_waits : count_if (has_id i) (due_rows limit now rows) ≤ count_if (waits i) rows
      due_waits = omega (
        arith,
        count_if-take (has_id i) limit (sort_by served_before (keep_if (is_due now) rows)),
        count_if-sort_by (has_id i) served_before (keep_if (is_due now) rows),
        kept_waits rows,
      )

  -- A batch sends an item at most as often as it takes a waiting row of the item from the queue:
  -- the requests for the item and its waiting rows together never grow. So an item is never sent
  -- again once it has been claimed, whatever the provider answers.
  pub process_batch-tally :
      (answer : List Request → Request → Result (Unit {0})) (now batch_size : ℕ)
      (w : World (List Request))
      → tally (process_batch (recorder answer) now batch_size w) ≤ tally w
  unfolding process_batch
  process_batch-tally answer now batch_size w =
      let (items, queue') = get_next_batch w.leads batch_size now w.queue in
      omega (
        arith,
        process_items-tally answer now items (record w { queue = queue' }),
        claim_tally w.leads batch_size now w.queue,
      )
