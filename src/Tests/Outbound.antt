-- ===== src/Tests/Outbound.antt =====
-- The outbound queue and its workers at concrete rows.
use super_agent_platform.Base.{
  sort_by, insert_by, strip, is_space, get, ◌+◌, ◌≤◌, String, ◌≡◌, refl, true, none, some, List, [],
  ◌∷◌, ◌++◌, length, Fields, str, end, field, Result, ok,
}
use super_agent_platform.Messaging.{Request, recorder, item}
use super_agent_platform.Outbound.Queue.{
  QueueRow, OutboundQueueItem, is_silenced, claim, queued, get_next_batch, mark_as_sent,
  mark_as_failed,
}
use super_agent_platform.Outbound.QueueWorker.{World, deliver, process_batch}
use super_agent_platform.Outbound.QueueWorker.OptOut.{Respects, process_batch-Respects}
use super_agent_platform.Outbound.QueueWorker.Once.{tally, process_batch-tally}
use super_agent_platform.Outbound.CampaignWorker.{
  run_item, run_once, render_message, resolve_phone, read_string,
}
use super_agent_platform.Outbound.CampaignWorker.Runs.{run_once_counts, run_item-ignores_opt_out}
use super_agent_platform.Outbound.QueueWorker

abbrev promo : QueueRow
promo = record {
  id = 1;
  lead_id = some 7;
  campaign_id = some 3;
  priority = 1;
  payload = field "text" (str "hola") end;
  status = queued;
  scheduled_at = 50;
  sent_at = none;
  attempts = 0;
  last_error = none;
}

abbrev reminder : QueueRow
reminder = record promo { id = 2; lead_id = some 8; priority = 0 }

abbrev accept : List Request → Request → Result (Unit {0})
accept requests r = ok tt

abbrev world : World (List Request)
world = record {
  queue = promo ∷ reminder ∷ [];
  leads = (7, "5551") ∷ (8, "5552") ∷ [];
  silenced = "5551" ∷ [];
  mail = [];
}

process_batch-Respects_example :
    Respects ("5551" ∷ []) (QueueWorker.process_batch (recorder accept) 60 10 world).mail
process_batch-Respects_example = process_batch-Respects accept 60 10 world tt

-- Only the lead that did not opt out is messaged.
batch_sends :
    (QueueWorker.process_batch (recorder accept) 60 10 world).mail
    ≡ record { to = "5552"; content = "hola"; correlation = item 2 } ∷ []
unfolding QueueWorker.process_batch QueueWorker.deliver get_next_batch sort_by insert_by is_silenced
    strip is_space get mark_as_sent mark_as_failed
batch_sends = refl

process_batch-tally_example :
    tally 2 (QueueWorker.process_batch (recorder accept) 60 10 world) ≤ tally 2 world
process_batch-tally_example = process_batch-tally 2 accept 60 10 world

-- A template without place holders.
abbrev plain : String → Fields → Result String
plain template values = ok template

run_once_counts_example :
    let (result, w') = run_once (recorder accept) plain 60 12 10 world in
    (result.succeeded + result.failed ≡ result.processed)
    × (result.processed ≤ 10)
    × (0 + result.succeeded ≤ length w'.mail)
    × (length w'.mail ≤ 0 + result.processed)
run_once_counts_example = run_once_counts accept plain 60 12 10 world

abbrev promo_item : OutboundQueueItem
promo_item = record { queue_row = claim promo; lead_phone = some "5551" }

silenced_phone : is_silenced "5551" world.silenced ≡ true
unfolding is_silenced
silenced_phone = refl

rendered : render_message (recorder accept) plain 60 12 promo.payload ≡ ok "hola"
unfolding render_message read_string strip get
rendered = refl

resolved : resolve_phone (some "5551") promo.payload ≡ some "5551"
unfolding resolve_phone read_string strip get
resolved = refl

run_item-ignores_opt_out_example :
    (run_item (recorder accept) plain 60 12 promo_item world).1.mail
    ≡ [] ++ record { to = "5551"; content = "hola"; correlation = item 1 } ∷ []
run_item-ignores_opt_out_example =
    run_item-ignores_opt_out accept plain 60 12 promo_item world "5551" "hola" silenced_phone
      rendered refl resolved
