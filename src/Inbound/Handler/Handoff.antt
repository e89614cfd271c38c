-- ===== src/Inbound/Handler/Handoff.antt =====
-- Messages to `handle` of core/services/inbound_handler.py while an adviser has the conversation.
use super_agent_platform.Inbound.Media.Enriched.{OnlyMedia, Enriches, enrich_event-Enriches}
use super_agent_platform.Inbound.Handler.Redelivery.{event_row}
use super_agent_platform.Inbound.Media.{enrich_event}
use super_agent_platform.Outbound.Queue.{is_silenced}
use super_agent_platform.Base.{
  ℕ, ◌+◌, String, ◌≡◌, refl, ap, ◌∙◌, inl, inr, Bool, true, false, not, ◌||◌, Option, some, eq_iff,
  ◌==◌, if◌then◌else◌, get_or, Bool-cases, Fields, Result, Exec, pure, bind_result, ◌>>=◌, ok, err,
  ℕ_eq, String_eq,
}
use super_agent_platform.Inbound.Types.{InboundEvent, Session, LeadProfile}
use super_agent_platform.Inbound.World.{World, Services, enqueue_crm, save_lead}
use super_agent_platform.Inbound.Store.{append, get_by_phone, get_by_lead_id}
use super_agent_platform.Inbound.Profile.{
  same_name, get_or_create_lead_profile, get_or_create_session, existing_slots, set_attribute,
  merged_name, update_lead_profile_from_inbound, enqueue_lead_upsert,
}
use super_agent_platform.Inbound.Handler.{
  handle, InboundHandleResult, ignored, taken_up, append_event, should_defer, dispatch, take_up,
  after_append, append_enriched,
}

-- The program neither sends a message nor moves a session, silences a phone or logs a turn.
pub record IsCalm (w w' : World) : Type 0 where
  pub mail : w'.mail ≡ w.mail
  pub sessions : w'.sessions ≡ w.sessions
  pub silenced : w'.silenced ≡ w.silenced
  pub turns : w'.turns ≡ w.turns

IsCalm-trans : {w w' w'' : World} → IsCalm w w' → IsCalm w' w'' → IsCalm w w''
IsCalm-trans a b = record {
  mail = b.mail ∙ a.mail;
  sessions = b.sessions ∙ a.sessions;
  silenced = b.silenced ∙ a.silenced;
  turns = b.turns ∙ a.turns;
}

abbrev CalmRun : {A : Type 0} → World → Result A × World → Type 0
CalmRun w x = IsCalm w x.1

bind_result-IsCalm :
    {A B : Type 0} (w : World) (x : Result A × World) (k : A → Exec World B)
    → CalmRun w x
    → ((a : A) (w' : World) → CalmRun w' (k a w'))
    → CalmRun w (bind_result x k)
bind_result-IsCalm w (ok a, w') k h next = IsCalm-trans h (next a w')
bind_result-IsCalm w (err e, w') k h next = h

pass-IsCalm :
    {A B : Type 0} (w : World) (x : Exec World A) (a : A) (k : A → Exec World B)
    → x w ≡ (ok a, w)
    → CalmRun w (k a w)
    → CalmRun w ((x >>= k) w)
pass-IsCalm w x a k same h = rw same h

if-IsCalm :
    {A : Type 0} (b : Bool) (x y : Exec World A) (w : World)
    → CalmRun w (x w)
    → CalmRun w (y w)
    → CalmRun w ((if b then x else y) w)
if-IsCalm true x y w h k = h
if-IsCalm false x y w h k = k

module _ (s : Services) where
  update_lead-IsCalm :
      (lead : LeadProfile) (e : InboundEvent) (w : World)
      → CalmRun w (update_lead_profile_from_inbound s lead e w)
  unfolding update_lead_profile_from_inbound save_lead
  update_lead-IsCalm lead e w =
      let slots = s.extract (get_or e.body "") (existing_slots s lead) in
      let found = s.hints e.body in
      let rounds = set_attribute s slots found "vehicle_interest" (
        set_attribute s slots found "budget"
          (set_attribute s slots found "city" (false, lead.attributes))) in
      let name = merged_name s slots found e lead.name in
      if-IsCalm (rounds.0 || not (same_name name lead.name))
        (save_lead s (record lead { name = name; attributes = rounds.1; updated_at = s.now }))
        (pure lead) w (record { mail = refl; sessions = refl; silenced = refl; turns = refl })
        (record { mail = refl; sessions = refl; silenced = refl; turns = refl })

  enqueue_lead_upsert-IsCalm :
      (lead : LeadProfile) (session : Session) (e : InboundEvent) (w : World)
      → CalmRun w (enqueue_lead_upsert s lead session e w)
  unfolding enqueue_lead_upsert enqueue_crm
  enqueue_lead_upsert-IsCalm lead session e w = record {
    mail = refl;
    sessions = refl;
    silenced = refl;
    turns = refl;
  }

  dispatch_in_handoff :
      (e : InboundEvent) (failure : Option String) (lead : LeadProfile) (session : Session)
      (cid : ℕ) (w : World)
      → (session.current_state == "handoff_active") ≡ true
      → dispatch s e failure lead session cid w ≡ (ok (taken_up "handoff_active" cid lead.id e), w)
  unfolding dispatch
  dispatch_in_handoff e failure lead session cid w active = rw (active, dispatch) refl

  get_or_create_lead_profile_known :
      (e : InboundEvent) (lead : LeadProfile) (w : World)
      → get_by_phone e.from_phone w.leads ≡ some lead
      → get_or_create_lead_profile s e w ≡ (ok lead, w)
  unfolding get_or_create_lead_profile
  get_or_create_lead_profile_known e lead w known = rw (known, get_or_create_lead_profile) refl

  get_or_create_session_known :
      (lead_id at : ℕ) (session : Session) (w : World)
      → get_by_lead_id lead_id w.sessions ≡ some session
      → get_or_create_session s lead_id at w ≡ (ok session, w)
  unfolding get_or_create_session
  get_or_create_session_known lead_id at session w known = rw (known, get_or_create_session) refl

  take_up-IsCalm :
      (e : InboundEvent) (failure : Option String) (cid : ℕ) (lead : LeadProfile)
      (session : Session) (w : World)
      → get_by_phone e.from_phone w.leads ≡ some lead
      → get_by_lead_id lead.id w.sessions ≡ some session
      → (session.current_state == "handoff_active") ≡ true
      → CalmRun w (take_up s e failure cid w)
  unfolding take_up
  take_up-IsCalm e failure cid lead session w known open_session active =
      pass-IsCalm {A = LeadProfile} w (get_or_create_lead_profile s e) lead _
        (get_or_create_lead_profile_known e lead w known)
        (pass-IsCalm {A = Session} w (get_or_create_session s lead.id e.received_at) session _
          (get_or_create_session_known lead.id e.received_at session w open_session)
          (bind_result-IsCalm {A = LeadProfile} w (update_lead_profile_from_inbound s lead e w) _
            (update_lead-IsCalm lead e w)
            (λ lead' w'.
              bind_result-IsCalm {A = Unit {0}} w' (enqueue_lead_upsert s lead' session e w') _
                (enqueue_lead_upsert-IsCalm lead' session e w')
                (λ u w''.
                  rw (dispatch_in_handoff e failure lead' session cid w'' active)
                    (record { mail = refl; sessions = refl; silenced = refl; turns = refl })))))

  after_append-IsCalm :
      (e : InboundEvent) (failure : Option String) (cid : ℕ) (appended : Bool) (lead : LeadProfile)
      (session : Session) (w : World)
      → get_by_phone e.from_phone w.leads ≡ some lead
      → get_by_lead_id lead.id w.sessions ≡ some session
      → (session.current_state == "handoff_active") ≡ true
      → CalmRun w (after_append s e failure cid appended w)
  unfolding after_append
  after_append-IsCalm e failure cid false lead session w known open_session active = record {
    mail = refl;
    sessions = refl;
    silenced = refl;
    turns = refl;
  }
  after_append-IsCalm e failure cid true lead session w known open_session active =
      if-IsCalm {A = InboundHandleResult} (should_defer s e)
        (pure (ignored "deferred_for_accumulation" (some cid) e)) (take_up s e failure cid) w
        (record { mail = refl; sessions = refl; silenced = refl; turns = refl })
        (take_up-IsCalm e failure cid lead session w known open_session active)

  OnlyMedia-IsCalm : (w w' : World) → OnlyMedia w w' → IsCalm w w'
  OnlyMedia-IsCalm w w' only = record {
    mail = ap (λ (v : World). v.mail) only;
    sessions = ap (λ (v : World). v.sessions) only;
    silenced = ap (λ (v : World). v.silenced) only;
    turns = ap (λ (v : World). v.turns) only;
  }

  append_enriched-IsCalm :
      (e : InboundEvent) (failure : Option String) (lead : LeadProfile) (session : Session)
      (w : World)
      → get_by_phone e.from_phone w.leads ≡ some lead
      → get_by_lead_id lead.id w.sessions ≡ some session
      → (session.current_state == "handoff_active") ≡ true
      → CalmRun w (append_enriched s (e, failure) w)
  unfolding append_enriched append_event
  append_enriched-IsCalm e failure lead session w known open_session active =
      let cid = s.conversation_id_of e.from_phone in
      let stored = append (event_row s cid e w) w.events in
      IsCalm-trans {w' = record w { events = stored.1; next_id = w.next_id + 1 }}
        (record { mail = refl; sessions = refl; silenced = refl; turns = refl })
        (after_append-IsCalm e failure cid stored.0 lead session _ known open_session active)

  enriched-IsCalm :
      (e : InboundEvent) (lead : LeadProfile) (session : Session) (w : World)
      (x : Result (InboundEvent × Option String) × World)
      → Enriches e w x
      → get_by_phone e.from_phone w.leads ≡ some lead
      → get_by_lead_id lead.id w.sessions ≡ some session
      → (session.current_state == "handoff_active") ≡ true
      → CalmRun w (bind_result x (append_enriched s))
  enriched-IsCalm e lead session w (ok (e', failure), v) (same, only) known open_session active =
      IsCalm-trans (OnlyMedia-IsCalm w v only) (
        append_enriched-IsCalm e' failure lead session v
          (ap (λ p. get_by_phone p v.leads) same.from_phone
            ∙ ap (λ (u : World). get_by_phone e.from_phone u.leads) only
            ∙ known)
          (ap (λ (u : World). get_by_lead_id lead.id u.sessions) only ∙ open_session) active)
  enriched-IsCalm e lead session w (err x, v) only known open_session active =
      OnlyMedia-IsCalm w v only

  -- While the session of the lead of a phone is in the state `handoff_active`, for a message from
  -- the phone no message is sent, no session moved, no phone silenced and no turn logged, whatever
  -- the handler's result is, an exception included; the requests for the media of a voice note or
  -- an image, which come before the state is looked at, are not ruled out.
  pub handle-IsCalm :
      (raw : Fields) (e : InboundEvent) (lead : LeadProfile) (session : Session) (w : World)
      → s.parse_inbound_event raw ≡ some e
      → get_by_phone e.from_phone w.leads ≡ some lead
      → get_by_lead_id lead.id w.sessions ≡ some session
      → session.current_state ≡ "handoff_active"
      → IsCalm w (handle s raw w).1
  unfolding handle
  handle-IsCalm raw e lead session w parsed known open_session active =
      elim (Bool-cases (is_silenced e.from_phone w.silenced)) [
        | inl silent ↦
            rw (parsed, handle)
              (rw silent (record { mail = refl; sessions = refl; silenced = refl; turns = refl }))
        | inr heard ↦
            rw (parsed, handle)
              (rw heard (
                enriched-IsCalm e lead session w (enrich_event s e w) (enrich_event-Enriches s e w)
                  known open_session ((eq_iff session.current_state "handoff_active").1 active)))
      ]
