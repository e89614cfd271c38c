-- ===== src/Outbound/CampaignWorker/Runs.antt =====
-- The results and the requests of a run of core/services/campaign_worker.py.
use super_agent_platform.Base.{
  sort_by, ℕ, suc, ◌+◌, ◌≤◌, String, ◌≡◌, refl, inl, inr, Bool, true, false, some, List, [], ◌∷◌,
  ◌++◌, arith, ◌==◌, if◌then◌else◌, Bool-cases, Option-cases, length, keep_if, length-append,
  length-take-le, length-map, Fields, Result, is_ok, ok, err, ℕ_eq, String_eq,
}
use super_agent_platform.Messaging.{Request, recorder, item}
use super_agent_platform.Outbound.Queue.{
  QueueRow, OutboundQueueItem, is_silenced, is_due, served_before, due_rows, claim, phone_of,
  get_next_batch,
}
use super_agent_platform.Outbound.QueueWorker.{World, settled}
use super_agent_platform.Outbound.QueueWorker.OptOut.{settled_lem}
use super_agent_platform.Outbound.CampaignWorker.{
  run_item, run_items, run_once, render_message, resolve_phone,
}

module _ (answer : List Request → Request → Result (Unit {0}))
    (format_map : String → Fields → Result String) (now duration_ms : ℕ) where
  -- The counters after one more item.
  count_one :
      (was_sent : Bool) (n m m' s f s' f' k : ℕ)
      → n + (if was_sent then 1 else 0) ≤ m
      → m ≤ n + 1
      → s' + f' ≡ (if was_sent then s + 1 else s) + (if was_sent then f else f + 1) + k
      → m + s' ≤ m' + (if was_sent then s + 1 else s)
      → m' ≤ m + k
      → (s' + f' ≡ s + f + suc k) × (n + s' ≤ m' + s) × (m' ≤ n + suc k)
  count_one true n m m' s f s' f' k lower upper total at_least at_most =
      (omega arith, omega arith, omega arith)
  count_one false n m m' s f s' f' k lower upper total at_least at_most =
      (omega arith, omega arith, omega arith)

  -- One item makes one request at most, and one exactly if it counts as sent.
  abbrev Counted : World (List Request) → Bool × World (List Request) → Type 0
  Counted w (was_sent, w') =
      (length w.mail + (if was_sent then 1 else 0) ≤ length w'.mail)
      × (length w'.mail ≤ length w.mail + 1)

  -- An item with a text and a phone is sent.
  run_item-sends :
      (i : OutboundQueueItem) (w : World (List Request)) (phone text : String)
      → render_message (recorder answer) format_map now duration_ms i.queue_row.payload ≡ ok text
      → (text == "") ≡ false
      → resolve_phone i.lead_phone i.queue_row.payload ≡ some phone
      → let r : Request = record {
        to = phone;
        content = text;
        correlation = item i.queue_row.id;
      } in
        run_item (recorder answer) format_map now duration_ms i w ≡ (
          is_ok (answer w.mail r),
          settled
              (recorder answer)
              now
              i.queue_row.id
              (record w { mail = w.mail ++ r ∷ [] })
              (answer w.mail r),
        )
  unfolding run_item
  run_item-sends i w phone text rendered filled has_phone =
      rw (rendered, run_item) (rw (has_phone, run_item) (rw (filled, run_item)))

  settled-Counted :
      (i : ℕ) (w : World (List Request)) (r : Request) (x : Result (Unit {0}))
      → Counted w
          (is_ok x, settled (recorder answer) now i (record w { mail = w.mail ++ r ∷ [] }) x)
  settled-Counted i w r (ok u) = (
    omega (arith, length-append {0} w.mail (r ∷ [])),
    omega (arith, length-append {0} w.mail (r ∷ [])),
  )
  settled-Counted i w r (err e) = (
    omega (arith, length-append {0} w.mail (r ∷ [])),
    omega (arith, length-append {0} w.mail (r ∷ [])),
  )

  run_item-Counted :
      (i : OutboundQueueItem) (w : World (List Request))
      → Counted w (run_item (recorder answer) format_map now duration_ms i w)
  run_item-Counted i w =
      go (render_message (recorder answer) format_map now duration_ms i.queue_row.payload) refl
    where
      go :
          (x : Result String)
          → render_message (recorder answer) format_map now duration_ms i.queue_row.payload ≡ x
          → Counted w (run_item (recorder answer) format_map now duration_ms i w)
      go (err e) raised = unfold run_item in rw (raised, run_item) (omega arith, omega arith)
      go (ok text) rendered = elim (Option-cases (resolve_phone i.lead_phone i.queue_row.payload)) [
        | inl missing ↦
            unfold run_item in
            rw (rendered, run_item) (rw (missing, run_item) (omega arith, omega arith))
        | inr (phone, has_phone) ↦ elim (Bool-cases (text == "")) [
          | inl blank ↦
              unfold run_item in
              rw (rendered, run_item)
                (rw (has_phone, run_item) (rw (blank, run_item) (omega arith, omega arith)))
          | inr filled ↦
              rw (run_item-sends i w phone text rendered filled has_phone)
                (settled-Counted i.queue_row.id w _ _)
        ]
      ]

  run_items_counts :
      (items : List OutboundQueueItem) (s f : ℕ) (w : World (List Request))
      → let (s', f', w') = run_items (recorder answer) format_map now duration_ms items s f w in
        (s' + f' ≡ s + f + length items)
        × (length w.mail + s' ≤ length w'.mail + s)
        × (length w'.mail ≤ length w.mail + length items)
  unfolding run_items
  run_items_counts [] s f w = (omega arith, omega arith, omega arith)
  run_items_counts (i ∷ items) s f w =
      let x = run_item (recorder answer) format_map now duration_ms i w in
      let (s', f', w') =
        run_items (recorder answer) format_map now duration_ms items (if x.0 then s + 1 else s)
          (if x.0 then f else f + 1) x.1 in
      let (total, at_least, at_most) =
        run_items_counts items (if x.0 then s + 1 else s) (if x.0 then f else f + 1) x.1 in
      let (lower, upper) = run_item-Counted i w in
      count_one x.0 (length w.mail) (length x.1.mail) (length w'.mail) s f s' f' (length items)
        lower upper total at_least at_most

  -- A run counts every item of its batch as sent or as failed, its batch has at most the size
  -- asked for, and it makes at least one request for each item that it counts as sent and at most
  -- one for each item of the batch.
  pub run_once_counts :
      (batch_size : ℕ) (w : World (List Request))
      → let (result, w') = run_once (recorder answer) format_map now duration_ms batch_size w in
        (result.succeeded + result.failed ≡ result.processed)
        × (result.processed ≤ batch_size)
        × (length w.mail + result.succeeded ≤ length w'.mail)
        × (length w'.mail ≤ length w.mail + result.processed)
  unfolding run_once get_next_batch due_rows
  run_once_counts batch_size w =
      let (items, queue') = get_next_batch w.leads batch_size now w.queue in
      let (total, at_least, at_most) = run_items_counts items 0 0 (record w { queue = queue' }) in
      (
        omega arith,
        omega (
          arith,
          length-map {0, 0} {B = OutboundQueueItem}
              (λ (r : QueueRow). record {
                queue_row = claim r;
                lead_phone = phone_of w.leads r.lead_id;
              })
              (due_rows batch_size now w.queue),
          length-take-le {0} batch_size (sort_by served_before (keep_if (is_due now) w.queue)),
        ),
        omega arith,
        omega arith,
      )

  -- The run does not consult the silenced phones: an item whose text is not blank is sent to its
  -- phone also where that phone is silenced.
  pub run_item-ignores_opt_out :
      (i : OutboundQueueItem) (w : World (List Request)) (phone text : String)
      → is_silenced phone w.silenced ≡ true
      → render_message (recorder answer) format_map now duration_ms i.queue_row.payload ≡ ok text
      → (text == "") ≡ false
      → resolve_phone i.lead_phone i.queue_row.payload ≡ some phone
      → (run_item (recorder answer) format_map now duration_ms i w).1.mail
        ≡ w.mail ++ record { to = phone; content = text; correlation = item i.queue_row.id } ∷ []
  run_item-ignores_opt_out i w phone text opted_out rendered filled has_phone =
      rw (run_item-sends i w phone text rendered filled has_phone) (
        (settled_lem (recorder answer) now i.queue_row.id
          (record w {
            mail =
                w.mail
                ++ record { to = phone; content = text; correlation = item i.queue_row.id } ∷ [];
          })
          _).1)
