-- ===== src/Agent/Respond.antt =====
-- `respond` of core/services/conversation_agent.py.
use super_agent_platform.Base.{
  strip, get, put, ℕ, zero, suc, ◌+◌, ◌-◌, String, ◌+++◌, Bool, true, false, not, ◌&&◌, Option,
  none, some, List, [], ◌∷◌, ◌==◌, if◌then◌else◌, get_or, length, take, take_last, Fields, bool,
  str, dict, end, field, Exec, pure, catch, ◌>>=◌, skip, when, ℕ_eq, String_eq,
}
use super_agent_platform.Crm.Worker.{text_of}
use super_agent_platform.Inbound.Types.{InboundEvent, ConversationEvent, Session}
use super_agent_platform.Agent.Policies.{get_allowed_tools, is_repetition, detect_friction}
use super_agent_platform.Agent.Messages.{
  ChatMessage, format_history_as_messages, build_user_message, ensure_current_user_message,
  is_empty, trim_messages_for_budget, texts_of, is_handoff_state, should_send_handoff_message,
}
use super_agent_platform.Agent.Answer.{
  resolve_llm_failure_message, text_or_blank, build_photo_ack_text, is_photo_only_request,
  compress_response_text, build_system_prompt, inventory_prompt_context,
}
use super_agent_platform.Agent.Ports.{LlmResponse, Ports, run_tool_calling_loop}

abbrev pub max_regen_attempts : ℕ
max_regen_attempts = 2

-- `_extract_correlation_id`
unfoldable pub extract_correlation_id : InboundEvent → String
unfolding get
extract_correlation_id e = get_or (text_of (get "correlation_id" e.metadata)) e.message_id

-- The states that the payloads of a history name.
unfoldable pub states_of : List ConversationEvent → List String
unfolding get strip
states_of [] = []
states_of (item ∷ history) =
    let rest = states_of history in
    let state = text_or_blank (get "state" item.payload) in
    if strip state == "" then rest else state ∷ rest

abbrev pub replicate : ℕ → String → List String
replicate zero s = []
replicate (suc n) s = s ∷ replicate n s

abbrev pub last_text : List String → String
last_text [] = ""
last_text (s ∷ []) = s
last_text (s ∷ (t ∷ rest)) = last_text (t ∷ rest)

-- `xs[:-1]`
abbrev pub but_last : List String → List String
but_last xs = take (length xs - 1) xs

-- The messages of `respond`.
unfoldable pub messages_of : InboundEvent → List ConversationEvent → List ChatMessage
unfolding format_history_as_messages ensure_current_user_message build_user_message
    trim_messages_for_budget
messages_of e history =
    let messages = ensure_current_user_message (format_history_as_messages history) e in
    trim_messages_for_budget (if is_empty messages then build_user_message e ∷ [] else messages)
      4000

module _ {S : Type 0} (ports : Ports S) where
  -- The event of a text that was sent.
  unfoldable pub outbound_event :
      InboundEvent → Session → String → String → Fields → ℕ → ℕ → ConversationEvent
  unfolding extract_correlation_id
  outbound_event e session reply provider_message_id llm_metadata id created_at = record {
    id = id;
    conversation_id = ports.uuid5 e.from_phone;
    lead_id = some session.lead_id;
    event_type = "outbound_message";
    payload = field "text" (str reply) (
        field "correlation_id" (str (extract_correlation_id e)) (
          field "state" (str session.current_state)
            (field "llm_metadata" (dict llm_metadata) (field "message_kind" (str "text") end))));
    created_at = created_at;
    message_id = some provider_message_id;
  }

  -- `_persist_outbound_event`
  unfoldable pub persist_outbound_event :
      InboundEvent → Session → String → String → Fields → Exec S (Unit {0})
  unfolding outbound_event
  persist_outbound_event e session reply provider_message_id llm_metadata = ports.uuid4 >>= λ id.
      ports.now >>= λ created_at.
      ports.append (outbound_event e session reply provider_message_id llm_metadata id created_at)

  -- A text is sent and its event is kept.
  unfoldable pub send_and_persist : InboundEvent → Session → String → Fields → Exec S (Unit {0})
  unfolding extract_correlation_id persist_outbound_event
  send_and_persist e session reply llm_metadata =
      ports.send_text e.from_phone reply (extract_correlation_id e) >>= λ message_id.
      persist_outbound_event e session reply message_id llm_metadata

  -- The branch of `respond` for a conversation that was handed off.
  unfoldable pub wait_for_adviser : InboundEvent → Session → List ChatMessage → Exec S (Unit {0})
  unfolding texts_of should_send_handoff_message send_and_persist
  wait_for_adviser e session messages =
      when
        (should_send_handoff_message session.current_state (texts_of "assistant" messages)
          ports.handoff_waiting)
        (send_and_persist e session ports.handoff_waiting
          (field "source" (str "handoff_wait_message") end))

  -- `_handle_photo_only_request`
  unfoldable pub handle_photo_only_request : InboundEvent → Session → Exec S (Unit {0})
  unfolding extract_correlation_id build_photo_ack_text send_and_persist strip
  handle_photo_only_request e session =
      ports.send_inventory_photos (strip (get_or e.body "")) e.from_phone (extract_correlation_id e)
      >>= λ photos_result.
          send_and_persist e session (build_photo_ack_text ports.tools photos_result) (
            field "response_mode" (str "photo_only_direct")
              (field "photos_result" (str photos_result) end))

  -- The system prompt, with the inventory where the state is that of the catalogue.
  unfoldable pub system_prompt : InboundEvent → Session → Exec S String
  unfolding build_system_prompt inventory_prompt_context strip
  system_prompt e session =
      let prompt = build_system_prompt ports.prompt session.current_state in
      let hint = strip (get_or e.body "") in
      if session.current_state == "catalog_navigation"
      then (ports.query_inventory (if hint == "" then none else some hint) 3 >>= λ snapshot.
          pure (prompt +++ ("\n\n" +++ inventory_prompt_context snapshot)))
      else pure prompt

  -- The loop of `respond` that asks again while the answer repeats an earlier one, with the number
  -- of attempts that are left.
  unfoldable pub regenerate :
      ℕ
      → InboundEvent
      → Session
      → List ConversationEvent
      → List ChatMessage
      → String
      → Exec S (LlmResponse × String)
  unfolding run_tool_calling_loop get_allowed_tools compress_response_text is_repetition texts_of
      extract_correlation_id
  regenerate zero e session history messages system =
      run_tool_calling_loop ports (take_last 12 messages) system e.from_phone
        (extract_correlation_id e) (get_allowed_tools session.current_state)
      >>= λ r. pure (r, compress_response_text ports.tools r.content e.body history 3 700)
  regenerate (suc n) e session history messages system =
      run_tool_calling_loop ports (take_last 12 messages) system e.from_phone
        (extract_correlation_id e) (get_allowed_tools session.current_state)
      >>= λ r.
          let reply = compress_response_text ports.tools r.content e.body history 3 700 in
          if is_repetition ports.tools reply (texts_of "assistant" messages)
          then regenerate n e session history messages system
          else pure (r, reply)

  -- The test for friction in `respond`.
  unfoldable pub has_friction :
      InboundEvent → Session → List ConversationEvent → List ChatMessage → Bool
  unfolding texts_of states_of detect_friction strip
  has_friction e session history messages =
      let current = strip (get_or e.body "") in
      let from_client = texts_of "user" messages in
      let recent =
        if not (current == "") && last_text from_client == current
        then but_last from_client
        else from_client in
      let states = states_of history in
      let turns = length recent + (if current == "" then 0 else 1) in
      detect_friction ports.tools current recent session.current_state
        (if is_empty states then replicate turns session.current_state else states)

  -- The answer of the model, or the text for friction in its place.
  unfoldable pub send_answer :
      InboundEvent
      → Session
      → List ConversationEvent
      → List ChatMessage
      → LlmResponse × String
      → Exec S (Unit {0})
  unfolding has_friction send_and_persist put
  send_answer e session history messages (r, reply) =
      if has_friction e session history messages
      then send_and_persist e session ports.friction_escalation
          (put "handoff_triggered" (bool false) (put "friction_escalation" (bool true) r.metadata))
      else send_and_persist e session reply r.metadata

  -- `respond` from the answer of the model on.
  unfoldable pub answer_by_model :
      InboundEvent → Session → List ConversationEvent → List ChatMessage → Exec S (Unit {0})
  unfolding system_prompt regenerate send_answer
  answer_by_model e session history messages = system_prompt e session >>= λ system.
      regenerate max_regen_attempts e session history messages system
      >>= send_answer e session history messages

  -- The block of the `try` of `respond` after the history is read.
  unfoldable pub answer : InboundEvent → Session → List ConversationEvent → Exec S (Unit {0})
  unfolding messages_of wait_for_adviser is_photo_only_request handle_photo_only_request
      answer_by_model
  answer e session history =
      let messages = messages_of e history in
      if is_handoff_state session.current_state
      then wait_for_adviser e session messages
      else if is_photo_only_request ports.tools e.body
      then handle_photo_only_request e session
      else answer_by_model e session history messages

  -- The history that `respond` is given, or reads.
  unfoldable pub history_of :
      InboundEvent → Option (List ConversationEvent) → Exec S (List ConversationEvent)
  history_of e none = ports.list_by_conversation (ports.uuid5 e.from_phone) 30
  history_of e (some history) = pure history

  -- The `except` clause of `respond`.
  unfoldable pub apologise : InboundEvent → Session → Exec S (Unit {0})
  unfolding send_and_persist resolve_llm_failure_message
  apologise e session =
      catch
        (send_and_persist e session (resolve_llm_failure_message ports.both_llms_failed)
          (field "fallback_type" (str "both_llms_failed") end))
        (λ x. skip)

  -- `respond`
  unfoldable pub respond :
      InboundEvent → Session → Option (List ConversationEvent) → Exec S (Unit {0})
  unfolding history_of answer apologise
  respond e session conversation_history =
      catch (history_of e conversation_history >>= answer e session) (λ x. apologise e session)
