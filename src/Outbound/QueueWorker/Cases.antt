-- ===== src/Outbound/QueueWorker/Cases.antt =====
-- The two things that core/services/queue_worker.py does with an item.
use super_agent_platform.Base.{get, ℕ, String, ◌≡◌, ◌⊎◌, inl, inr, false, Bool-cases, Option-cases}
use super_agent_platform.Messaging.{MessagingProvider}
use super_agent_platform.Outbound.Queue.{OutboundQueueItem, is_silenced}
use super_agent_platform.Outbound.QueueWorker.{World, process_item, deliver, text_to_send, fail}

module _ {M : Type 0} (provider : MessagingProvider M) (now : ℕ) where
  abbrev pub Fails : OutboundQueueItem → World M → Type 0
  Fails i w =
      (error : String) × (process_item provider now i w ≡ fail provider now i.queue_row.id error w)

  abbrev pub Delivers : OutboundQueueItem → World M → Type 0
  Delivers i w =
      (phone : String) × (text : String) × (is_silenced phone w.silenced ≡ false)
      × (process_item provider now i w ≡ deliver provider now i.queue_row.id phone text w)

  -- An item is marked as failed, or its text is sent to a phone that is not silenced.
  pub process_item-cases : (i : OutboundQueueItem) (w : World M) → Fails i w ⊎ Delivers i w
  unfolding process_item
  process_item-cases i w = elim (Option-cases i.lead_phone) [
    | inl missing ↦ inl ("missing_phone_for_lead", rw (missing, process_item))
    | inr (phone, has_phone) ↦ elim (Bool-cases (is_silenced phone w.silenced)) [
      | inl opted_out ↦
          inl ("lead_silenced_opt_out", rw (has_phone, process_item) (rw (opted_out, process_item)))
      | inr open_to ↦ elim (Option-cases (text_to_send (get "text" i.queue_row.payload))) [
        | inl blank ↦ inl (
          "missing_text_payload",
          rw (has_phone, process_item) (rw (open_to, process_item) (rw (blank, process_item))),
        )
        | inr (text, has_text) ↦ inr (
          phone,
          text,
          open_to,
          rw (has_phone, process_item) (rw (open_to, process_item) (rw (has_text, process_item))),
        )
      ]
    ]
  ]
