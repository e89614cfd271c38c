-- ===== src/Inbound/Handler/Redelivery.antt =====
-- Deliveries of one message by core/services/inbound_handler.py and event_repo.py.
use super_agent_platform.Inbound.Media.Enriched.{
  SameMessage, OnlyMedia, Enriches, Enriches-OnlyMedia, enrich_event-Enriches,
}
use super_agent_platform.Outbound.Queue.{is_silenced}
use super_agent_platform.Inbound.Handler.{
  handle, InboundHandleResult, ignored, build_event_payload, append_event, after_append,
  append_enriched,
}
use super_agent_platform.Base.{
  ℕ, ◌+◌, String, ◌≡◌, refl, ap, ◌∙◌, inl, inr, Bool, true, false, Option, none, some, List, [],
  ◌∷◌, ◌++◌, eq_refl, Bool-cases, any, any-append, Fields, get-put, str, Result, bind_result, ok,
  err,
}
use super_agent_platform.Inbound.Types.{InboundEvent, ConversationEvent}
use super_agent_platform.Inbound.World.{World, Services}
use super_agent_platform.Inbound.Store.{dedup_key, same_key, stored_event, append}
use super_agent_platform.Inbound.Media.{enrich_event}

-- The key of an inbound message is in the rows.
abbrev pub is_logged : String → List ConversationEvent → Bool
is_logged m rows = any (λ r. same_key (dedup_key r) (some m)) rows

stored_key :
    (e : ConversationEvent) (m : String)
    → e.event_type ≡ "inbound_message"
    → e.message_id ≡ some m
    → dedup_key (stored_event e) ≡ some m
unfolding dedup_key
stored_key e m inbound same =
    rw (inbound) (rw same (rw (get-put "message_id" "message_id" (str m) e.payload) refl))

logged_append :
    (m : String) (rows more : List ConversationEvent)
    → is_logged m rows ≡ true
    → is_logged m (rows ++ more) ≡ true
logged_append m rows more h =
    rw (any-append {0} (λ (r : ConversationEvent). same_key (dedup_key r) (some m)) rows more)
      (rw h refl)

-- An appended event is logged, also where it was there before.
append-is_logged :
    (e : ConversationEvent) (m : String) (rows : List ConversationEvent)
    → dedup_key (stored_event e) ≡ some m
    → is_logged m (append e rows).1 ≡ true
unfolding append
append-is_logged e m rows key = elim (Bool-cases (is_logged m rows)) [
  | inl there_before ↦ rw (key, append) (rw there_before there_before)
  | inr unseen ↦
      rw (key, append)
        (rw unseen (
          rw
            (any-append {0} (λ (r : ConversationEvent). same_key (dedup_key r) (some m)) rows
              (stored_event e ∷ []))
            (rw unseen (rw key (rw (eq_refl m) refl)))))
]

append_refused :
    (e : ConversationEvent) (m : String) (rows : List ConversationEvent)
    → dedup_key (stored_event e) ≡ some m
    → is_logged m rows ≡ true
    → append e rows ≡ (false, rows)
unfolding append
append_refused e m rows key h = rw (key, append) (rw h refl)

-- The row of the log for an event of the provider.
abbrev pub event_row : Services → ℕ → InboundEvent → World → ConversationEvent
event_row s cid e w = record {
  id = w.next_id;
  conversation_id = cid;
  lead_id = none;
  event_type = e.event_type;
  payload = build_event_payload s e;
  created_at = e.received_at;
  message_id = some e.message_id;
}

-- What another delivery of a message comes to, by how the reading of its media ended.
unfoldable pub delivered_again :
    Services
    → InboundEvent
    → Result (InboundEvent × Option String) × World
    → Result InboundHandleResult × World
delivered_again s again (ok (e, failure), w) = (
  ok (ignored "duplicate" (some (s.conversation_id_of again.from_phone)) e),
  record w { next_id = w.next_id + 1 },
)
delivered_again s again (err x, w) = (err x, w)

module _ (s : Services) (cid : ℕ) (e again : InboundEvent) (w : World)
    (more : List ConversationEvent) (inbound : e.event_type ≡ "inbound_message")
    (inbound' : again.event_type ≡ "inbound_message") (same : again.message_id ≡ e.message_id) where
  append_enriched-delivered_again :
      (read : InboundEvent) (failure : Option String) (later : World)
      → SameMessage again read
      → later.events ≡ (append_event s cid e w).1.events ++ more
      → append_enriched s (read, failure) later
        ≡ delivered_again s again (ok (read, failure), later)
  unfolding append_enriched append_event after_append delivered_again
  append_enriched-delivered_again read failure later kept grown =
      let m = e.message_id in
      let row = event_row s (s.conversation_id_of read.from_phone) read later in
      let logged : is_logged m later.events ≡ true = rw grown (
        logged_append m (append (event_row s cid e w) w.events).1 more (
          append-is_logged (event_row s cid e w) m w.events
            (stored_key (event_row s cid e w) m inbound refl))) in
      let refused =
        append_refused row m later.events
          (stored_key row m (kept.event_type ∙ inbound') (ap some (kept.message_id ∙ same)))
          logged in
      rw refused (
        ap
          (λ p. (
            ok (ignored "duplicate" (some (s.conversation_id_of p)) read),
            record later { next_id = later.next_id + 1 },
          ))
          kept.from_phone)

  read-delivered_again :
      (later : World) (x : Result (InboundEvent × Option String) × World)
      → Enriches again later x
      → later.events ≡ (append_event s cid e w).1.events ++ more
      → bind_result x (append_enriched s) ≡ delivered_again s again x
  unfolding delivered_again
  read-delivered_again later (ok (read, failure), v) (kept, only) grown =
      append_enriched-delivered_again read failure v kept
        (ap (λ (u : World). u.events) only ∙ grown)
  read-delivered_again later (err x, v) only grown = refl

  -- Once the event of an inbound message was appended, whatever events are appended after it, every
  -- other delivery of a message with its identifier, from a phone that is not silenced, comes to
  -- `duplicate`, and an identifier is drawn, or, where the services for its media raise, to their
  -- exception; the requests for the media are made again, and nothing else changes.
  pub handle_redelivered :
      (raw : Fields) (later : World)
      → s.parse_inbound_event raw ≡ some again
      → is_silenced again.from_phone later.silenced ≡ false
      → later.events ≡ (append_event s cid e w).1.events ++ more
      → (handle s raw later ≡ delivered_again s again (enrich_event s again later))
        × OnlyMedia later (enrich_event s again later).1
  unfolding handle
  handle_redelivered raw later parsed heard grown =
      let reads = enrich_event-Enriches s again later in
      (
        rw (parsed, handle)
            (rw heard (read-delivered_again later (enrich_event s again later) reads grown)),
        Enriches-OnlyMedia again later (enrich_event s again later) reads,
      )
