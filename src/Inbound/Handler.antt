-- ===== src/Inbound/Handler.antt =====
-- The handler of the webhook: `InboundMessageHandler.handle` of core/services/inbound_handler.py.
-- Each step is a definition that ends in the next, as the early returns of the method have it.
pub mod Ignored
pub mod Handoff
pub mod OptOut
pub mod Redelivery
use super_agent_platform.Fsm.Guards.{build_default_guard_registry}
use super_agent_platform.Inbound.Store.{append, list_by_conversation, update_state}
use super_agent_platform.Base.{
  lstrip, get, put, ℕ, ◌+◌, String, ◌+++◌, Bool, true, false, not, ◌||◌, Option, none, some, List,
  [], ◌∷◌, ◌==◌, if◌then◌else◌, get_or, take_last, keep_if, str_or, take_chars, Fields, str, dict,
  end, field, has_key, Exec, pure, gets, ◌>>=◌, modify, ok, err, ◌>>◌, ℕ_eq, String_eq,
}
use super_agent_platform.Messaging.{trace}
use super_agent_platform.Inbound.Types.{
  MessageKind, InboundEvent, ConversationEvent, Session, LeadProfile, MessageClassification,
}
use super_agent_platform.Inbound.World.{
  World, Services, send_text, send_document, send_or_log, enqueue_crm, move_session,
}
use super_agent_platform.Inbound.Store
use super_agent_platform.Inbound.Media.{enrich_event}
use super_agent_platform.Inbound.Orchestrator.{classify}
use super_agent_platform.Inbound.Profile.{
  kind_value, text_of, get_or_create_lead_profile, get_or_create_session,
  update_lead_profile_from_inbound, enqueue_lead_upsert, update_session_after_response,
  activate_handoff_session, build_fsm_context,
}
use super_agent_platform.Inbound.Branches.{extract_handoff_field, route_handoff_to_branch}
use super_agent_platform.Fsm.Engine.{TransitionResult, init, process_event}
use super_agent_platform.Fsm.Engine
use super_agent_platform.Fsm.Guards
use super_agent_platform.Fsm.Actions.{
  FsmActionDependencies, text_or_null, build_default_action_registry,
}
use super_agent_platform.Fsm.Actions
use super_agent_platform.Outbound.Queue.{is_silenced, silence}

pub record InboundHandleResult : Type 0 where
  pub status : String
  pub was_processed : Bool
  pub conversation_id : Option ℕ
  pub lead_id : Option ℕ
  pub event_type : Option String
  pub message_kind : Option MessageKind

-- The result of a message that is left alone after its event was read.
abbrev pub ignored : String → Option ℕ → InboundEvent → InboundHandleResult
ignored status conversation_id e = record {
  status = status;
  was_processed = false;
  conversation_id = conversation_id;
  lead_id = none;
  event_type = some e.event_type;
  message_kind = some e.kind;
}

-- The result of a message that was taken up.
abbrev pub taken_up : String → ℕ → ℕ → InboundEvent → InboundHandleResult
taken_up status conversation_id lead_id e = record {
  status = status;
  was_processed = true;
  conversation_id = some conversation_id;
  lead_id = some lead_id;
  event_type = some e.event_type;
  message_kind = some e.kind;
}

module _ (s : Services) where
  -- `_build_event_payload`
  unfoldable pub build_event_payload : InboundEvent → Fields
  build_event_payload e =
      let payload : Fields = field "message_id" (str e.message_id) (
        field "from_phone" (str e.from_phone) (
          field "message_kind" (str (kind_value e.kind)) (
            field "text" (text_or_null e.body) (
              field "media_url" (text_or_null e.media_url) (
                field "channel" (str e.channel) (
                  field "event_type" (str e.event_type) (
                    field "sender_id" (str e.sender_id) (
                      field "metadata" (dict e.metadata)
                        (field "raw_metadata" (dict e.raw_metadata) end))))))))) in
      elim e.occurred_at [
        | none ↦ payload
        | some at ↦ put "occurred_at" (str (s.isoformat at)) payload
      ]

  -- `append` of the events with a drawn identifier: whether the event is new.
  unfoldable pub append_event : ℕ → InboundEvent → Exec World Bool
  unfolding build_event_payload
  append_event conversation_id e w =
      let (is_new, rows) =
        Store.append
          (record {
            id = w.next_id;
            conversation_id = conversation_id;
            lead_id = none;
            event_type = e.event_type;
            payload = build_event_payload e;
            created_at = e.received_at;
            message_id = some e.message_id;
          })
          w.events in
      (ok is_new, record w { events = rows; next_id = w.next_id + 1 })

  -- `_should_defer_due_newer_inbound`
  unfoldable pub should_defer : InboundEvent → Bool
  should_defer e =
      if not s.accumulates
      then false
      else if not (e.event_type == "inbound_message")
      then false
      else if take_chars 1 (lstrip (get_or e.body "")) == "/"
      then false
      else not (s.settles e)

  -- `_log_conversation_turn`: a failure of the log is only logged.
  unfoldable pub log_conversation_turn :
      ℕ → String → String → String → String → String → Exec World (Unit {0})
  log_conversation_turn lead_id phone last_state last_intent summary correlation_id w =
      elim s.log_turn [
        | none ↦ (ok tt, w)
        | some log_turn ↦
            let masked = if phone == "" then "???" else take_chars 4 phone +++ "***" in
            let (r, turns') =
              log_turn
                (record {
                  lead_id = lead_id;
                  phone_masked = masked;
                  last_state = last_state;
                  last_intent = last_intent;
                  summary = summary;
                  correlation_id = correlation_id;
                })
                w.turns in
            (ok tt, record w { turns = turns' })
      ]

  -- The ports of the machine's actions, as `__init__` gives them.
  unfoldable pub action_dependencies : FsmActionDependencies World
  unfolding move_session enqueue_crm send_text send_document
  action_dependencies = record {
    update_state = some (move_session s);
    enqueue_operation = some (enqueue_crm s);
    messaging_provider = some (record { send_text = send_text s; send_document = send_document s });
    branch_provider = some s.branch_provider;
    brand = s.brand;
  }

  -- `_resolve_session_state`
  unfoldable pub resolve_session_state : String → String
  resolve_session_state state =
      if has_key state s.fsm_config.states then state else s.fsm_config.initial_state

  -- The engine of the message, and its event.
  unfoldable pub run_machine :
      Session → MessageClassification → Fields → Exec World TransitionResult
  unfolding action_dependencies resolve_session_state
  run_machine session c context w =
      let guards = Guards.build_default_guard_registry s.python in
      let actions =
        Actions.build_default_action_registry s.python.casefold action_dependencies s.file_name_of
          s.parse_uuid in
      elim (Engine.init s.fsm_config (resolve_session_state session.current_state) (some guards)
        (some actions) guards actions) [
          | err e ↦ (err e, w)
          | ok engine ↦
              let (r, engine', w') = Engine.process_event c.fsm_event context engine w in (r, w')
        ]

  -- `_build_recent_conversation_history`, of the last ten.
  unfoldable pub recent_history : ℕ → World → List ConversationEvent
  recent_history conversation_id w = take_last 10 (
      keep_if
        (λ (x : ConversationEvent).
          x.event_type == "inbound_message" || x.event_type == "outbound_message")
        (Store.list_by_conversation conversation_id 50 w.events))

  -- The branch on the intent: the session with which the handler goes on.
  unfoldable pub act_on_intent :
      InboundEvent → LeadProfile → Session → ℕ → MessageClassification → Exec World Session
  unfolding send_or_log route_handoff_to_branch activate_handoff_session recent_history silence
  act_on_intent e lead session conversation_id c =
      if c.intent == "opt_out"
      then (do modify λ w. record w { silenced = silence e.from_phone w.silenced }; pure session)
      else if c.intent == "handoff_request"
      then (do
        send_or_log s e.from_phone
            (str_or (text_of (get "handoff_response_text" c.metadata))
              "Un asesor te contactara pronto.")
            (trace e.message_id)
        route_handoff_to_branch s e lead session conversation_id
        activate_handoff_session s session e)
      else if c.intent == "unsupported"
      then (do
        send_or_log s e.from_phone
            "Recibi tu mensaje pero no puedo procesar ese tipo de contenido todavia."
            (trace e.message_id)
        pure session)
      else (do
        history ← gets (recent_history conversation_id)
        s.respond e session history
        pure session)

  -- From the classification to the end.
  unfoldable pub converse :
      InboundEvent → LeadProfile → Session → ℕ → Exec World InboundHandleResult
  unfolding run_machine act_on_intent log_conversation_turn build_fsm_context
      update_session_after_response classify extract_handoff_field
  converse e lead session conversation_id = do
    let c = classify s.python.lower s.word_search s.policies e session
    moved ← run_machine session c (build_fsm_context s e lead session c)
    updated ← update_session_after_response s session e moved.new_state c
    final ← act_on_intent e lead updated conversation_id c
    let interest =
        get_or
          (extract_handoff_field lead (some final)
            ("vehiculo_interes" ∷ "vehicle_interest" ∷ "interes_modelo" ∷ []))
          "N/A"
    log_conversation_turn lead.id e.from_phone final.current_state c.intent
        ("Interes: " +++ interest +++ " | FSM: " +++ final.current_state) e.message_id
    pure (taken_up "processed" conversation_id lead.id e)

  -- The reply to media that could not be read.
  unfoldable pub answer_media_failure :
      InboundEvent → LeadProfile → Session → ℕ → String → Exec World InboundHandleResult
  unfolding send_or_log log_conversation_turn
  answer_media_failure e lead session conversation_id reply = do
    send_or_log s e.from_phone reply (trace e.message_id)
    log_conversation_turn lead.id e.from_phone session.current_state "media_processing_fallback"
        "Fallback por error al procesar media" e.message_id
    pure (taken_up "processed" conversation_id lead.id e)

  -- The branch on the session's state and on the media.
  unfoldable pub dispatch :
      InboundEvent → Option String → LeadProfile → Session → ℕ → Exec World InboundHandleResult
  unfolding converse answer_media_failure
  dispatch e failure lead session conversation_id =
      if session.current_state == "handoff_active"
      then pure (taken_up "handoff_active" conversation_id lead.id e)
      else elim failure [
        | some reply ↦ answer_media_failure e lead session conversation_id reply
        | none ↦ converse e lead session conversation_id
      ]

  -- From the lead to the branch.
  unfoldable pub take_up : InboundEvent → Option String → ℕ → Exec World InboundHandleResult
  unfolding get_or_create_lead_profile get_or_create_session update_lead_profile_from_inbound
      enqueue_lead_upsert dispatch
  take_up e failure conversation_id = do
    found ← get_or_create_lead_profile s e
    session ← get_or_create_session s found.id e.received_at
    lead ← update_lead_profile_from_inbound s found e
    enqueue_lead_upsert s lead session e
    dispatch e failure lead session conversation_id

  -- The guards between the append and the lead.
  unfoldable pub after_append :
      InboundEvent → Option String → ℕ → Bool → Exec World InboundHandleResult
  unfolding take_up should_defer
  after_append e failure conversation_id appended =
      if not appended
      then pure (ignored "duplicate" (some conversation_id) e)
      else if should_defer e
      then pure (ignored "deferred_for_accumulation" (some conversation_id) e)
      else take_up e failure conversation_id

  -- `handle` after the media were read.
  unfoldable pub append_enriched : InboundEvent × Option String → Exec World InboundHandleResult
  unfolding append_event after_append
  append_enriched (e, failure) =
      let conversation_id = s.conversation_id_of e.from_phone in
      append_event conversation_id e >>= after_append e failure conversation_id

  -- `handle`
  unfoldable pub handle : Fields → Exec World InboundHandleResult
  unfolding append_enriched enrich_event is_silenced
  handle raw_payload w = elim (s.parse_inbound_event raw_payload) [
    | none ↦ (
      ok (record {
        status = "invalid_payload";
        was_processed = false;
        conversation_id = none;
        lead_id = none;
        event_type = none;
        message_kind = none;
      }),
      w,
    )
    | some e ↦
        if is_silenced e.from_phone w.silenced
        then (ok (ignored "silenced" none e), w)
        else (enrich_event s e >>= append_enriched) w
  ]
