-- ===== src/Inbound/Profile.antt =====
-- Leads, sessions and their payloads in core/services/inbound_handler.py.
use super_agent_platform.Inbound.Store.{get_by_phone, get_by_lead_id}
use super_agent_platform.Base.{
  strip, get, put, merge, ℕ, String, Bool, true, false, not, ◌||◌, Option, none, some, ◌==◌,
  if◌then◌else◌, or_else, get_or, str_or, Value, Fields, null, bool, num, str, dict, end, field,
  Exec, pure, ok, ◌>>=◌, ℕ_eq, String_eq,
}
use super_agent_platform.Inbound.Types.{
  InboundEvent, LeadProfile, Session, MessageKind, MessageClassification,
}
use super_agent_platform.Inbound.World.{
  Services, World, LeadSlots, draw_id, save_lead, save_session, enqueue_crm,
}
use super_agent_platform.Inbound.Store
use super_agent_platform.Fsm.Actions.Context.{coerce_str}
use super_agent_platform.Fsm.Actions.{text_or_null}
use super_agent_platform.Fsm.Guards.{value_or}

-- `_extract_push_name`
unfoldable pub extract_push_name : InboundEvent → Option String
unfolding coerce_str
extract_push_name e = coerce_str (get "push_name" e.raw_metadata)

-- `isinstance(push_name, str) and push_name`, not stripped.
abbrev pub raw_push_name : Option Value → Option String
raw_push_name (some (str n)) = if n == "" then none else some n
raw_push_name _ = none

-- `MessageKind.value`
abbrev pub kind_value : MessageKind → String
kind_value MessageKind.text = "text"
kind_value MessageKind.image = "image"
kind_value MessageKind.audio = "audio"
kind_value MessageKind.document = "document"
kind_value MessageKind.video = "video"
kind_value MessageKind.sticker = "sticker"
kind_value MessageKind.location = "location"
kind_value MessageKind.contact = "contact"
kind_value MessageKind.reaction = "reaction"
kind_value MessageKind.unsupported = "unsupported"

-- `isinstance(value, str)`
abbrev pub text_of : Option Value → Option String
text_of (some (str t)) = some t
text_of _ = none

abbrev pub text_value : Option String → Option Value
text_value none = none
text_value (some t) = some (str t)

-- A missing value and `None` are one.
abbrev pub not_none : Option Value → Option Value
not_none none = none
not_none (some null) = none
not_none (some v) = some v

-- `==` of a stored value with a text or a number.
abbrev pub same_value : Value → Value → Bool
same_value (str a) (str b) = a == b
same_value (num a) (num b) = a == b
same_value _ _ = false

abbrev pub holds : String → Value → Fields → Bool
holds key v d = elim (get key d) [ none ↦ false | some x ↦ same_value x v ]

abbrev pub same_name : Option String → Option String → Bool
same_name none none = true
same_name (some a) (some b) = a == b
same_name _ _ = false

-- A key with a value is set, and one without is left out.
abbrev pub set_entry : String → Option Value → Fields → Fields
set_entry key none d = d
set_entry key (some v) d = put key v d

-- `_build_crm_upsert_payload`
unfoldable pub build_crm_upsert_payload : LeadProfile → Session → InboundEvent → Fields
build_crm_upsert_payload lead session e =
    let payload : Fields = field "phone" (str lead.phone) (
      field "name" (text_or_null lead.name) (
        field "source" (str lead.source) (
          field "fsm_state" (str session.current_state)
            (field "last_message_text" (text_or_null e.body) end)))) in
    let d = lead.attributes in
    set_entry "vehicle_interest" (not_none (get "vehicle_interest" d)) (
      set_entry "budget" (not_none (get "budget" d))
        (set_entry "city" (not_none (get "city" d)) payload))

module _ (s : Services) where
  -- `_get_or_create_lead_profile`
  unfoldable pub get_or_create_lead_profile : InboundEvent → Exec World LeadProfile
  unfolding save_lead
  get_or_create_lead_profile e w = elim (Store.get_by_phone e.from_phone w.leads) [
    | some existing ↦ (ok existing, w)
    | none ↦
        (do
          id ← draw_id
          save_lead s (record {
            id = id;
            external_crm_id = none;
            phone = e.from_phone;
            name = raw_push_name (get "push_name" e.raw_metadata);
            source = "whatsapp_inbound";
            attributes = field "channel" (str e.channel) (field "sender_id" (str e.sender_id) end);
            created_at = s.now;
            updated_at = s.now;
          }))
          w
  ]

  -- `_get_or_create_session`
  unfoldable pub get_or_create_session : ℕ → ℕ → Exec World Session
  unfolding save_session
  get_or_create_session lead_id occurred_at w = elim (Store.get_by_lead_id lead_id w.sessions) [
    | some existing ↦ (ok existing, w)
    | none ↦
        (do
          id ← draw_id
          save_session s (record {
            id = id;
            lead_id = lead_id;
            current_state = s.fsm_config.initial_state;
            context = end;
            created_at = s.now;
            updated_at = s.now;
            last_event_at = some occurred_at;
          }))
          w
  ]

  -- `_coerce_float`, over the numbers of `Value`.
  unfoldable pub coerce_float : Option Value → Option ℕ
  coerce_float (some (num n)) = some n
  coerce_float (some (str t)) = if strip t == "" then none else s.parse_float (strip t)
  coerce_float _ = none

  -- The slots of a lead before the extraction.
  unfoldable pub existing_slots : LeadProfile → LeadSlots
  unfolding coerce_str coerce_float
  existing_slots lead =
      let d = lead.attributes in
      record {
        name =
            coerce_str
              (value_or (elim lead.name [ none ↦ none | some n ↦ some (str n) ]) (get "name" d));
        city = coerce_str (value_or (get "city" d) (get "ciudad" d));
        vehicle_interest = coerce_str (
            value_or (get "vehicle_interest" d)
              (value_or (get "vehiculo_interes" d) (get "interes_modelo" d)));
        budget = coerce_float (get "budget" d);
        phone = coerce_str (get "phone" d);
        contact_preference = coerce_str (get "contact_preference" d);
      }

  -- The value that the loop over the keys finds for one: the extracted slot, else the hint.
  unfoldable pub found_value : LeadSlots → Fields → String → Option Value
  found_value slots found key =
      let slot : Option Value =
        if key == "city"
        then text_value slots.city
        else if key == "budget"
        then (elim slots.budget [ none ↦ none | some n ↦ some (num n) ])
        else text_value slots.vehicle_interest in
      or_else slot (not_none (get key found))

  -- One round of the loop: whether anything changed so far, and the attributes.
  unfoldable pub set_attribute : LeadSlots → Fields → String → Bool × Fields → Bool × Fields
  unfolding found_value
  set_attribute slots found key (changed, d) = elim (found_value slots found key) [
    | none ↦ (changed, d)
    | some v ↦ if holds key v d then (changed, d) else (true, put key v d)
  ]

  -- The name after the extraction: a slot or a hint, else the push name where there is no name.
  unfoldable pub merged_name : LeadSlots → Fields → InboundEvent → Option String → Option String
  unfolding extract_push_name
  merged_name slots found e name =
      let hinted = str_or (or_else slots.name (text_of (get "name" found))) "" in
      if not (hinted == "")
      then some hinted
      else if str_or name "" == ""
      then or_else (extract_push_name e) name
      else name

  -- `_update_lead_profile_from_inbound`
  unfoldable pub update_lead_profile_from_inbound :
      LeadProfile → InboundEvent → Exec World LeadProfile
  unfolding existing_slots set_attribute merged_name save_lead
  update_lead_profile_from_inbound lead e =
      let slots = s.extract (get_or e.body "") (existing_slots lead) in
      let found = s.hints e.body in
      let (changed, attributes) = set_attribute slots found "vehicle_interest" (
        set_attribute slots found "budget"
          (set_attribute slots found "city" (false, lead.attributes))) in
      let name = merged_name slots found e lead.name in
      if changed || not (same_name name lead.name)
      then save_lead s (record lead { name = name; attributes = attributes; updated_at = s.now })
      else pure lead

  -- `_enqueue_lead_upsert`
  unfoldable pub enqueue_lead_upsert : LeadProfile → Session → InboundEvent → Exec World (Unit {0})
  unfolding build_crm_upsert_payload enqueue_crm
  enqueue_lead_upsert lead session e =
      enqueue_crm s (s.uuid_text lead.id) "upsert_lead" (build_crm_upsert_payload lead session e)

  -- The context of a session after a classified message.
  unfoldable pub classified_context : InboundEvent → MessageClassification → Fields → Fields
  classified_context e c d =
      put "last_classification"
        (dict (
          field "intent" (str c.intent) (
            field "confidence" (num c.confidence)
              (field "fsm_event" (str c.fsm_event) (field "metadata" (dict c.metadata) end)))))
        (put "last_inbound_message"
          (dict (
            field "text" (text_or_null e.body) (
              field "type" (str (kind_value e.kind))
                (field "timestamp" (str (s.isoformat e.received_at)) end))))
          d)

  -- `_update_session_after_response`
  unfoldable pub update_session_after_response :
      Session → InboundEvent → String → MessageClassification → Exec World Session
  unfolding classified_context save_session
  update_session_after_response session e new_state c = save_session s (record session {
    current_state = new_state;
    context = classified_context e c session.context;
    updated_at = s.now;
    last_event_at = some e.received_at;
  })

  -- `_activate_handoff_session`
  unfoldable pub activate_handoff_session : Session → InboundEvent → Exec World Session
  unfolding save_session
  activate_handoff_session session e = save_session s (record session {
    current_state = "handoff_active";
    context =
        put "handoff"
          (dict (
            field "active" (bool true) (
              field "activated_at" (str (s.isoformat s.now))
                (field "trigger_message_id" (str e.message_id) end))))
          session.context;
    updated_at = s.now;
    last_event_at = some e.received_at;
  })

  -- `_build_fsm_context`
  unfoldable pub build_fsm_context :
      InboundEvent → LeadProfile → Session → MessageClassification → Fields
  build_fsm_context e lead session c = merge session.context (
      field "phone" (str e.from_phone) (
        field "name" (text_or_null lead.name) (
          field "lead_id" (str (s.uuid_text lead.id)) (
            field "lead_external_crm_id" (text_or_null lead.external_crm_id) (
              field "session_id" (str (s.uuid_text session.id)) (
                field "session_context" (dict session.context) (
                  field "lead_attributes" (dict lead.attributes) (
                    field "is_silenced" (bool false) (
                      field "opt_out_detected" (bool (c.intent == "opt_out")) (
                        field "campaign_id" (get_or (get "campaign_id" session.context) null) (
                          field "correlation_id" (str e.message_id)
                            (field "inbound_text" (text_or_null e.body) end))))))))))))
