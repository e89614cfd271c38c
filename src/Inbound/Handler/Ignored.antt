-- ===== src/Inbound/Handler/Ignored.antt =====
-- Messages that `handle` of core/services/inbound_handler.py leaves alone.
use super_agent_platform.Inbound.Media.Enriched.{OnlyMedia, Enriches, enrich_event-Enriches}
use super_agent_platform.Inbound.Media.{enrich_event}
use super_agent_platform.Outbound.Queue.{is_silenced}
use super_agent_platform.Inbound.Branches.{extract_handoff_field}
use super_agent_platform.Inbound.Profile.{
  get_or_create_lead_profile, get_or_create_session, update_lead_profile_from_inbound,
  enqueue_lead_upsert, update_session_after_response, build_fsm_context,
}
use super_agent_platform.Fsm.Engine.{TransitionResult}
use super_agent_platform.Base.{
  ℕ, String, ◌+++◌, ◌≡◌, refl, ap, inl, inr, Bool, true, false, Option, none, some, [], ◌∷◌, arith,
  ◌==◌, get_or, Bool-cases, Option-cases, Fields, Result, Exec, pure, bind_result, ◌>>=◌, ok, err,
  ℕ_eq, String_eq,
}
use super_agent_platform.Inbound.Orchestrator.{classify}
use super_agent_platform.Messaging.{trace}
use super_agent_platform.Inbound.Types.{InboundEvent, Session, LeadProfile}
use super_agent_platform.Inbound.World.{World, Services, send_or_log}
use super_agent_platform.Inbound.Handler.{
  handle, InboundHandleResult, taken_up, append_event, should_defer, log_conversation_turn,
  run_machine, act_on_intent, converse, answer_media_failure, dispatch, take_up, after_append,
  append_enriched,
}

-- A computation whose result, where it has one, says that the message was taken up.
Processes : Exec World InboundHandleResult → Type 0
Processes x = (w : World) (r : InboundHandleResult) → (x w).0 ≡ ok r → r.was_processed ≡ true

bind_result-Processes :
    {A : Type 0} (x : Result A × World) (k : A → Exec World InboundHandleResult)
    → ((a : A) → Processes (k a))
    → (r : InboundHandleResult) → (bind_result x k).0 ≡ ok r
    → r.was_processed ≡ true
unfolding Processes
bind_result-Processes (ok a, w) k h r done_ok = h a w r done_ok
bind_result-Processes (err e, w) k h r done_ok = absurd (ground arith)

>>=-Processes :
    {A : Type 0} (x : Exec World A) (k : A → Exec World InboundHandleResult)
    → ((a : A) → Processes (k a))
    → Processes (x >>= k)
unfolding Processes
>>=-Processes x k h w r done_ok = bind_result-Processes (x w) k h r done_ok

pure-Processes :
    (status : String) (conversation_id lead_id : ℕ) (e : InboundEvent)
    → Processes (pure (taken_up status conversation_id lead_id e))
unfolding Processes
pure-Processes status conversation_id lead_id e w r same = ground arith

-- The summary of a turn.
abbrev turn_summary : LeadProfile → Session → String
turn_summary lead final =
    "Interes: "
    +++ get_or
        (extract_handoff_field lead (some final)
          ("vehiculo_interes" ∷ "vehicle_interest" ∷ "interes_modelo" ∷ []))
        "N/A"
    +++ " | FSM: "
    +++ final.current_state

module _ (s : Services) where
  converse-Processes :
      (e : InboundEvent) (lead : LeadProfile) (session : Session) (cid : ℕ)
      → Processes (converse s e lead session cid)
  unfolding converse
  converse-Processes e lead session cid =
      let c = classify s.python.lower s.word_search s.policies e session in
      >>=-Processes {A = TransitionResult}
        (run_machine s session c (build_fsm_context s e lead session c)) _
        (λ moved.
          >>=-Processes {A = Session} (update_session_after_response s session e moved.new_state c)
            _
            (λ updated.
              >>=-Processes {A = Session} (act_on_intent s e lead updated cid c) _ (λ final.
                >>=-Processes {A = Unit {0}}
                  (log_conversation_turn s lead.id e.from_phone final.current_state c.intent
                    (turn_summary lead final) e.message_id)
                  _ (λ u. pure-Processes "processed" cid lead.id e))))

  answer_media_failure-Processes :
      (e : InboundEvent) (lead : LeadProfile) (session : Session) (cid : ℕ) (reply : String)
      → Processes (answer_media_failure s e lead session cid reply)
  unfolding answer_media_failure
  answer_media_failure-Processes e lead session cid reply =
      >>=-Processes {A = Unit {0}} (send_or_log s e.from_phone reply (trace e.message_id)) _ (λ u.
        >>=-Processes {A = Unit {0}}
          (log_conversation_turn s lead.id e.from_phone session.current_state
            "media_processing_fallback" "Fallback por error al procesar media" e.message_id)
          _ (λ v. pure-Processes "processed" cid lead.id e))

  dispatch-Processes :
      (e : InboundEvent) (failure : Option String) (lead : LeadProfile) (session : Session)
      (cid : ℕ)
      → Processes (dispatch s e failure lead session cid)
  unfolding dispatch
  dispatch-Processes e failure lead session cid =
      elim (Bool-cases (session.current_state == "handoff_active")) [
        | inl active ↦ rw active (pure-Processes "handoff_active" cid lead.id e)
        | inr free ↦ rw free (open_branch failure)
      ]
    where
      open_branch :
          (f : Option String)
          → Processes (elim f as (λ x. Exec World InboundHandleResult) [
            | some reply ↦ answer_media_failure s e lead session cid reply
            | none ↦ converse s e lead session cid
          ])
      open_branch none = converse-Processes e lead session cid
      open_branch (some reply) = answer_media_failure-Processes e lead session cid reply

  take_up-Processes :
      (e : InboundEvent) (failure : Option String) (cid : ℕ) → Processes (take_up s e failure cid)
  unfolding take_up
  take_up-Processes e failure cid =
      >>=-Processes {A = LeadProfile} (get_or_create_lead_profile s e) _ (λ found.
        >>=-Processes {A = Session} (get_or_create_session s found.id e.received_at) _ (λ session.
          >>=-Processes {A = LeadProfile} (update_lead_profile_from_inbound s found e) _ (λ lead.
            >>=-Processes {A = Unit {0}} (enqueue_lead_upsert s lead session e) _
              (λ u. dispatch-Processes e failure lead session cid))))

-- What a message may change: nothing that the program keeps but the events, the requests for
-- media and the identifiers drawn.
pub record Untouched (w w' : World) : Type 0 where
  pub mail : w'.mail ≡ w.mail
  pub leads : w'.leads ≡ w.leads
  pub sessions : w'.sessions ≡ w.sessions
  pub outbox : w'.outbox ≡ w.outbox
  pub silenced : w'.silenced ≡ w.silenced
  pub turns : w'.turns ≡ w.turns

abbrev nothing : (w : World) → Untouched w w
nothing w = record {
  mail = refl;
  leads = refl;
  sessions = refl;
  outbox = refl;
  silenced = refl;
  turns = refl;
}

-- A run that changes nothing but the events where its result says that the message was left alone.
Spares : World → Result InboundHandleResult × World → Type 0
Spares w x = (r : InboundHandleResult) → x.0 ≡ ok r → r.was_processed ≡ false → Untouched w x.1

result-Spares : (w w' : World) (r : Result InboundHandleResult) → Untouched w w' → Spares w (r, w')
unfolding Spares
result-Spares w w' r u r' same dropped = u

Processes-Spares :
    (w w' : World) (x : Exec World InboundHandleResult) → Processes x → Spares w (x w')
unfolding Spares Processes
Processes-Spares w w' x h r same dropped = absurd (ground (arith, h w' r same))

module _ (s : Services) where
  after_append-Spares :
      (e : InboundEvent) (failure : Option String) (cid : ℕ) (appended : Bool) (w w' : World)
      → Untouched w w'
      → Spares w (after_append s e failure cid appended w')
  unfolding after_append
  after_append-Spares e failure cid false w w' u = result-Spares w w' _ u
  after_append-Spares e failure cid true w w' u = elim (Bool-cases (should_defer s e)) [
    | inl defers ↦ rw defers (result-Spares w w' _ u)
    | inr stays ↦
        rw stays
          (Processes-Spares w w' (take_up s e failure cid) (take_up-Processes s e failure cid))
  ]

  OnlyMedia-Untouched : (w w' : World) → OnlyMedia w w' → Untouched w w'
  OnlyMedia-Untouched w w' only = record {
    mail = ap (λ (v : World). v.mail) only;
    leads = ap (λ (v : World). v.leads) only;
    sessions = ap (λ (v : World). v.sessions) only;
    outbox = ap (λ (v : World). v.outbox) only;
    silenced = ap (λ (v : World). v.silenced) only;
    turns = ap (λ (v : World). v.turns) only;
  }

  enriched-Spares :
      (e : InboundEvent) (w : World) (x : Result (InboundEvent × Option String) × World)
      → Enriches e w x
      → Spares w (bind_result x (append_enriched s))
  unfolding append_enriched append_event
  enriched-Spares e w (ok (e', failure), v) (same, only) =
      let kept = OnlyMedia-Untouched w v only in
      after_append-Spares e' failure (s.conversation_id_of e'.from_phone) _ w _ (record {
        mail = kept.mail;
        leads = kept.leads;
        sessions = kept.sessions;
        outbox = kept.outbox;
        silenced = kept.silenced;
        turns = kept.turns;
      })
  enriched-Spares e w (err x, v) only = result-Spares w v (err x) (OnlyMedia-Untouched w v only)

  handle-Spares : (raw : Fields) (w : World) → Spares w (handle s raw w)
  unfolding handle
  handle-Spares raw w = elim (Option-cases (s.parse_inbound_event raw)) [
    | inl missing ↦ rw (missing, handle) (result-Spares w w _ (nothing w))
    | inr (e, found) ↦ elim (Bool-cases (is_silenced e.from_phone w.silenced)) [
      | inl silent ↦ rw (found, handle) (rw silent (result-Spares w w _ (nothing w)))
      | inr heard ↦
          rw (found, handle)
            (rw heard (enriched-Spares e w (enrich_event s e w) (enrich_event-Enriches s e w)))
    ]
  ]

  -- A message that the result calls not processed, because its payload is refused, its phone is
  -- silenced, it was delivered before or a later message of a burst will be answered, changes none
  -- of the leads, sessions, outbox rows, silenced phones and turns, and no message is sent; the
  -- requests for its media, which come before the event is appended, are not ruled out.
  pub handle_ignored-Untouched :
      (raw : Fields) (w : World) (r : InboundHandleResult)
      → (handle s raw w).0 ≡ ok r
      → r.was_processed ≡ false
      → Untouched w (handle s raw w).1
  unfolding Spares
  handle_ignored-Untouched raw w = handle-Spares raw w
