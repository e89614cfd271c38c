-- ===== src/Outbound/CampaignWorker.antt =====
-- The worker of campaigns: core/services/campaign_worker.py.
pub mod Runs
use super_agent_platform.Base.{
  strip, get, ℕ, ◌+◌, String, Bool, false, Option, none, some, List, [], ◌∷◌, ◌==◌, if◌then◌else◌,
  or_else, length, Value, Fields, str, dict, message, Result, is_ok, ok, err, ℕ_eq, String_eq,
}
use super_agent_platform.Messaging.{MessagingProvider, item}
use super_agent_platform.Outbound.Queue.{OutboundQueueItem, get_next_batch}
use super_agent_platform.Outbound.QueueWorker.{World, fail, settled}

-- `_read_string`
unfoldable pub read_string : Option Value → Option String
read_string (some (str s)) = if strip s == "" then none else some (strip s)
read_string _ = none

-- `_resolve_phone`: the lead's phone, then the entries `phone` and `to` of the payload.
unfoldable pub resolve_phone : Option String → Fields → Option String
unfolding read_string
resolve_phone lead_phone payload =
    or_else (elim lead_phone [ none ↦ none | some s ↦ read_string (some (str s)) ])
      (or_else (read_string (get "phone" payload)) (read_string (get "to" payload)))

pub record CampaignRunResult : Type 0 where
  pub processed : ℕ
  pub succeeded : ℕ
  pub failed : ℕ
  pub duration_ms : ℕ

-- `format_map` is `str.format_map` over a `_TemplateValues`, which may raise on the template;
-- `duration_ms` is what the clock measures.
module _ {M : Type 0} (provider : MessagingProvider M)
    (format_map : String → Fields → Result String) (now duration_ms : ℕ) where
  -- `_render_message`
  unfoldable pub render_message : Fields → Result String
  unfolding read_string
  render_message payload =
      elim (or_else (read_string (get "template" payload)) (read_string (get "text" payload))) [
        | none ↦ ok ""
        | some template ↦
            let values : Fields = elim (get "variables" payload) [
              | some (dict variables) ↦ variables
              | _ ↦ payload
            ] in
            elim (format_map template values) [ ok s ↦ ok (strip s) | err e ↦ err e ]
      ]

  -- The `try` around one item: the world, and whether the item was sent.
  unfoldable pub run_item : OutboundQueueItem → World M → Bool × World M
  unfolding render_message resolve_phone
  run_item i w =
      let item_id = i.queue_row.id in
      let payload = i.queue_row.payload in
      elim (render_message payload) [
        | err e ↦ (false, fail provider now item_id (message e) w)
        | ok text ↦ elim (resolve_phone i.lead_phone payload) [
          | none ↦ (false, fail provider now item_id "missing_phone" w)
          | some phone ↦
              if text == ""
              then (false, fail provider now item_id "missing_message" w)
              else (let (r, mail') = provider.send_text phone text (item item_id) w.mail in
                  (is_ok r, settled provider now item_id (record w { mail = mail' }) r))
        ]
      ]

  -- The loop, with its two counters.
  unfoldable pub run_items : List OutboundQueueItem → ℕ → ℕ → World M → ℕ × ℕ × World M
  unfolding run_item
  run_items [] succeeded failed w = (succeeded, failed, w)
  run_items (i ∷ items) succeeded failed w =
      let (was_sent, w') = run_item i w in
      run_items items (if was_sent then succeeded + 1 else succeeded)
        (if was_sent then failed else failed + 1) w'

  -- `run_once`
  unfoldable pub run_once : ℕ → World M → CampaignRunResult × World M
  unfolding run_items
  run_once batch_size w =
      let (items, queue') = get_next_batch w.leads batch_size now w.queue in
      let (succeeded, failed, w') = run_items items 0 0 (record w { queue = queue' }) in
      (
        record {
          processed = length items;
          succeeded = succeeded;
          failed = failed;
          duration_ms = duration_ms;
        },
        w',
      )
