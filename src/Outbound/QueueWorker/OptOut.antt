-- ===== src/Outbound/QueueWorker/OptOut.antt =====
-- Opt-outs in core/services/queue_worker.py.
use super_agent_platform.Outbound.QueueWorker.Cases.{process_item-cases}
use super_agent_platform.Base.{
  ℕ, String, ◌≡◌, refl, sym, subst, inl, inr, false, List, [], ◌∷◌, ◌++◌, All, All-append, Result,
  ok, err,
}
use super_agent_platform.Messaging.{Request, recorder, item, MessagingProvider}
use super_agent_platform.Outbound.Queue.{OutboundQueueItem, is_silenced, get_next_batch}
use super_agent_platform.Outbound.QueueWorker.{
  World, process_item, process_items, process_batch, deliver, settled,
}

-- Every request is to a phone that is not among the silenced.
abbrev pub Respects : List String → List Request → Type 0
Respects phones = All (λ (r : Request). is_silenced r.to phones ≡ false)

-- Marking a row leaves the phones and the requests alone.
pub settled_lem :
    {M : Type 0} (provider : MessagingProvider M) (now item_id : ℕ) (w : World M)
    (x : Result (Unit {0}))
    → ((settled provider now item_id w x).silenced ≡ w.silenced)
      × ((settled provider now item_id w x).mail ≡ w.mail)
settled_lem provider now item_id w (ok u) = (refl, refl)
settled_lem provider now item_id w (err e) = (refl, refl)

module _ (answer : List Request → Request → Result (Unit {0})) (now : ℕ) where
  deliver-Respects :
      (item_id : ℕ) (phone text : String) (w : World (List Request))
      → is_silenced phone w.silenced ≡ false
      → Respects w.silenced w.mail
      → let w' = deliver (recorder answer) now item_id phone text w in
        (w'.silenced ≡ w.silenced) × Respects w.silenced w'.mail
  unfolding deliver
  deliver-Respects item_id phone text w open_to h =
      let r : Request = record { to = phone; content = text; correlation = item item_id } in
      let kept : Respects w.silenced (w.mail ++ r ∷ []) =
        All-append (λ (q : Request). is_silenced q.to w.silenced ≡ false) w.mail (r ∷ []) h
          (open_to, tt) in
      let (same, logged) =
        settled_lem (recorder answer) now item_id (record w { mail = w.mail ++ r ∷ [] })
          (answer w.mail r) in
      (same, rw logged kept)

  process_item-Respects :
      (i : OutboundQueueItem) (w : World (List Request))
      → Respects w.silenced w.mail
      → let w' = process_item (recorder answer) now i w in
        (w'.silenced ≡ w.silenced) × Respects w.silenced w'.mail
  process_item-Respects i w h = elim (process_item-cases (recorder answer) now i w) [
    | inl (error, same) ↦ rw same (refl, h)
    | inr (phone, text, open_to, same) ↦
        rw same (deliver-Respects i.queue_row.id phone text w open_to h)
  ]

  process_items-Respects :
      (items : List OutboundQueueItem) (w : World (List Request))
      → Respects w.silenced w.mail
      → Respects w.silenced (process_items (recorder answer) now items w).mail
  unfolding process_items
  process_items-Respects [] w h = h
  process_items-Respects (i ∷ items) w h =
      let w' = process_item (recorder answer) now i w in
      let (same, kept) = process_item-Respects i w h in
      subst (λ s. Respects s (process_items (recorder answer) now items w').mail) same
        (process_items-Respects items w' (subst (λ s. Respects s w'.mail) (sym same) kept))

  -- A batch messages nobody who opted out: if no request so far went to a silenced phone, then,
  -- whatever the provider answers, none of those made by the batch does.
  pub process_batch-Respects :
      (batch_size : ℕ) (w : World (List Request))
      → Respects w.silenced w.mail
      → Respects w.silenced (process_batch (recorder answer) now batch_size w).mail
  unfolding process_batch
  process_batch-Respects batch_size w h =
      let (items, queue') = get_next_batch w.leads batch_size now w.queue in
      process_items-Respects items (record w { queue = queue' }) h
