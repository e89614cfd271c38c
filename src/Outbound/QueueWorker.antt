-- ===== src/Outbound/QueueWorker.antt =====
-- The worker that respects opt-outs: core/services/queue_worker.py.
pub mod Cases
pub mod OptOut
pub mod Once
use super_agent_platform.Base.{
  strip, get, ℕ, String, Option, none, some, List, [], ◌∷◌, ◌==◌, if◌then◌else◌, Value, str,
  message, Result, ok, err, ℕ_eq, String_eq,
}
use super_agent_platform.Messaging.{MessagingProvider, item}
use super_agent_platform.Outbound.Queue.{
  QueueRow, OutboundQueueItem, get_next_batch, mark_as_sent, mark_as_failed, is_silenced,
}

-- The queue, the phones of the leads, the silenced phones and the provider.
pub record World (M : Type 0) : Type 0 where
  pub queue : List QueueRow
  pub leads : List (ℕ × String)
  pub silenced : List String
  pub mail : M

-- The text of a payload, if it is one that is not blank.
abbrev pub text_to_send : Option Value → Option String
text_to_send (some (str s)) = if strip s == "" then none else some s
text_to_send _ = none

module _ {M : Type 0} (provider : MessagingProvider M) (now : ℕ) where
  abbrev pub fail : ℕ → String → World M → World M
  fail item_id error w = record w { queue = mark_as_failed item_id error w.queue }

  -- What follows the send: the row is marked by its outcome.
  abbrev pub settled : ℕ → World M → Result (Unit {0}) → World M
  settled item_id w (ok _) = record w { queue = mark_as_sent item_id now w.queue }
  settled item_id w (err e) = fail item_id (message e) w

  -- The `try` around the send.
  unfoldable pub deliver : ℕ → String → String → World M → World M
  deliver item_id phone text w =
      let (r, mail') = provider.send_text phone text (item item_id) w.mail in
      settled item_id (record w { mail = mail' }) r

  -- The body of the loop.
  unfoldable pub process_item : OutboundQueueItem → World M → World M
  unfolding deliver
  process_item i w =
      let item_id = i.queue_row.id in
      elim i.lead_phone [
        | none ↦ fail item_id "missing_phone_for_lead" w
        | some phone ↦
            if is_silenced phone w.silenced
            then fail item_id "lead_silenced_opt_out" w
            else elim (text_to_send (get "text" i.queue_row.payload)) [
              | none ↦ fail item_id "missing_text_payload" w
              | some text ↦ deliver item_id phone text w
            ]
      ]

  unfoldable pub process_items : List OutboundQueueItem → World M → World M
  unfolding process_item
  process_items [] w = w
  process_items (i ∷ items) w = process_items items (process_item i w)

  -- `process_batch`
  unfoldable pub process_batch : ℕ → World M → World M
  unfolding process_items
  process_batch batch_size w =
      let (items, queue') = get_next_batch w.leads batch_size now w.queue in
      process_items items (record w { queue = queue' })
