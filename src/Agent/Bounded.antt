-- ===== src/Agent/Bounded.antt =====
-- How often `respond` of core/services/conversation_agent.py asks the language model.
use super_agent_platform.Agent.Policies.{get_allowed_tools, is_repetition}
use super_agent_platform.Agent.Answer.{
  resolve_llm_failure_message, build_photo_ack_text, is_photo_only_request, compress_response_text,
  build_system_prompt, inventory_prompt_context,
}
use super_agent_platform.Agent.Respond.{
  extract_correlation_id, messages_of, outbound_event, persist_outbound_event, send_and_persist,
  wait_for_adviser, handle_photo_only_request, system_prompt, regenerate, has_friction, send_answer,
  answer_by_model, answer, history_of, apologise, respond,
}
use super_agent_platform.Base.{
  strip, put, ℕ, zero, suc, ◌+◌, ◌*◌, ◌≤◌, String, ◌+++◌, ◌≡◌, refl, true, false, Option, none,
  some, List, [], ◌∷◌, ◌++◌, map, arith, ◌==◌, if◌then◌else◌, get_or, take_last, Fields, bool, str,
  end, field, ◌>>=◌, skip, ok, ℕ_eq, String_eq,
}
use super_agent_platform.Inbound.Types.{InboundEvent, ConversationEvent, Session}
use super_agent_platform.Agent.Messages.{
  ToolCall, ChatMessage, is_empty, texts_of, is_handoff_state, should_send_handoff_message,
}
use super_agent_platform.Agent.Ports.{
  ToolSchema, LlmResponse, Ports, filter_tool_schemas, call_message, result_message, execute_all,
  tool_rounds, run_tool_calling_loop,
}
use super_agent_platform.Agent.Cost.{
  Costs, Costs-bind, Costs-catch, Costs-pure, Costs-more, Costs-if, Costs-call, when-Costs, handled,
}

-- A count of the requests to the model: one for each `complete`, none for any other call.
pub record Metered {S : Type 0} (ports : Ports S) : Type 0 where
  pub asked : S → ℕ
  pub complete_law :
      (messages : List ChatMessage) (system : String) (schemas : List ToolSchema) (w : S)
      → asked (ports.complete messages system schemas w).1 ≡ asked w + 1
  pub send_law :
      (to content trace : String) (w : S) → asked (ports.send_text to content trace w).1 ≡ asked w
  pub list_law : (id limit : ℕ) (w : S) → asked (ports.list_by_conversation id limit w).1 ≡ asked w
  pub append_law : (e : ConversationEvent) (w : S) → asked (ports.append e w).1 ≡ asked w
  pub tool_law :
      (call : ToolCall) (phone trace : String) (w : S)
      → asked (ports.execute_tool call phone trace w).1 ≡ asked w
  pub inventory_law :
      (hint : Option String) (most : ℕ) (w : S)
      → asked (ports.query_inventory hint most w).1 ≡ asked w
  pub photos_law :
      (product phone trace : String) (w : S)
      → asked (ports.send_inventory_photos product phone trace w).1 ≡ asked w
  pub uuid4_law : (w : S) → asked (ports.uuid4 w).1 ≡ asked w
  pub now_law : (w : S) → asked (ports.now w).1 ≡ asked w

module _ {S : Type 0} (ports : Ports S) (meter : Metered ports) where
  execute_all-Costs :
      (phone trace : String) (calls : List ToolCall)
      → Costs meter.asked 0 (execute_all ports phone trace calls)
  unfolding execute_all
  execute_all-Costs phone trace [] = Costs-pure []
  execute_all-Costs phone trace (call ∷ calls) =
      Costs-bind 0 0 0 (omega arith)
        (Costs-call (ports.execute_tool call phone trace) (meter.tool_law call phone trace))
        (λ result.
          Costs-bind 0 0 0 (omega arith) (execute_all-Costs phone trace calls)
            (λ results. Costs-pure (result ∷ results)))

  complete-Costs :
      (messages : List ChatMessage) (system : String) (schemas : List ToolSchema)
      → Costs meter.asked 1 (ports.complete messages system schemas)
  complete-Costs messages system schemas = record {
    bound = λ w. omega (arith, meter.complete_law messages system schemas w);
  }

  tool_rounds-Costs :
      (n : ℕ) (working : List ChatMessage) (system phone trace : String) (allowed : List String)
      → Costs meter.asked (suc n) (tool_rounds ports n working system phone trace allowed)
  unfolding tool_rounds
  tool_rounds-Costs zero working system phone trace allowed =
      Costs-bind 1 0 1 (omega arith)
        (complete-Costs working system (filter_tool_schemas ports.tool_schemas allowed))
        (λ r. Costs-if 0 (is_empty r.tool_calls) (Costs-pure r) (
          Costs-bind 0 0 0 (omega arith) (execute_all-Costs phone trace r.tool_calls)
            (λ results. Costs-pure r)))
  tool_rounds-Costs (suc n) working system phone trace allowed =
      Costs-bind 1 (suc n) (suc (suc n)) (omega arith)
        (complete-Costs working system (filter_tool_schemas ports.tool_schemas allowed))
        (λ r.
          Costs-if (suc n) (is_empty r.tool_calls)
            (Costs-more 0 (suc n) (omega arith) (Costs-pure r))
            (Costs-bind 0 (suc n) (suc n) (omega arith) (execute_all-Costs phone trace r.tool_calls)
              (λ results.
                tool_rounds-Costs n (working ++ call_message r ∷ map result_message results) system
                  phone trace allowed)))

  send_and_persist-Costs :
      (e : InboundEvent) (session : Session) (reply : String) (metadata : Fields)
      → Costs meter.asked 0 (send_and_persist ports e session reply metadata)
  unfolding send_and_persist persist_outbound_event
  send_and_persist-Costs e session reply metadata =
      let trace = extract_correlation_id e in
      Costs-bind 0 0 0 (omega arith)
        (Costs-call (ports.send_text e.from_phone reply trace)
          (meter.send_law e.from_phone reply trace))
        (λ message_id.
          Costs-bind 0 0 0 (omega arith) (Costs-call ports.uuid4 meter.uuid4_law) (λ id.
            Costs-bind 0 0 0 (omega arith) (Costs-call ports.now meter.now_law) (λ created_at.
              let kept = outbound_event ports e session reply message_id metadata id created_at in
              Costs-call (ports.append kept) (meter.append_law kept))))

  regenerate-Costs :
      (n : ℕ) (e : InboundEvent) (session : Session) (history : List ConversationEvent)
      (messages : List ChatMessage) (system : String)
      → Costs meter.asked (3 * suc n) (regenerate ports n e session history messages system)
  unfolding regenerate run_tool_calling_loop
  regenerate-Costs zero e session history messages system =
      Costs-bind 3 0 (3 * 1) (omega arith)
        (tool_rounds-Costs 2 (take_last 12 messages) system e.from_phone (extract_correlation_id e)
          (get_allowed_tools session.current_state))
        (λ r. Costs-pure (r, compress_response_text ports.tools r.content e.body history 3 700))
  regenerate-Costs (suc n) e session history messages system =
      Costs-bind 3 (3 * suc n) (3 * suc (suc n)) (omega arith)
        (tool_rounds-Costs 2 (take_last 12 messages) system e.from_phone (extract_correlation_id e)
          (get_allowed_tools session.current_state))
        (λ r.
          let reply = compress_response_text ports.tools r.content e.body history 3 700 in
          Costs-if (3 * suc n) (is_repetition ports.tools reply (texts_of "assistant" messages))
            (regenerate-Costs n e session history messages system)
            (Costs-more 0 (3 * suc n) (omega arith) (Costs-pure (r, reply))))

  system_prompt-Costs :
      (e : InboundEvent) (session : Session) → Costs meter.asked 0 (system_prompt ports e session)
  unfolding system_prompt
  system_prompt-Costs e session =
      let prompt = build_system_prompt ports.prompt session.current_state in
      let typed = strip (get_or e.body "") in
      let hint = if typed == "" then none else some typed in
      Costs-if 0 (session.current_state == "catalog_navigation")
        (Costs-bind 0 0 0 (omega arith)
          (Costs-call (ports.query_inventory hint 3) (meter.inventory_law hint 3))
          (λ snapshot. Costs-pure (prompt +++ ("\n\n" +++ inventory_prompt_context snapshot))))
        (Costs-pure prompt)

  send_answer-Costs :
      (e : InboundEvent) (session : Session) (history : List ConversationEvent)
      (messages : List ChatMessage) (r : LlmResponse × String)
      → Costs meter.asked 0 (send_answer ports e session history messages r)
  unfolding send_answer
  send_answer-Costs e session history messages (r, reply) =
      Costs-if 0 (has_friction ports e session history messages)
        (send_and_persist-Costs e session ports.friction_escalation
          (put "handoff_triggered" (bool false) (put "friction_escalation" (bool true) r.metadata)))
        (send_and_persist-Costs e session reply r.metadata)

  answer_by_model-Costs :
      (e : InboundEvent) (session : Session) (history : List ConversationEvent)
      (messages : List ChatMessage)
      → Costs meter.asked 9 (answer_by_model ports e session history messages)
  unfolding answer_by_model
  answer_by_model-Costs e session history messages =
      Costs-bind 0 9 9 (omega arith) (system_prompt-Costs e session) (λ system.
        Costs-bind (3 * 3) 0 9 (omega arith) (regenerate-Costs 2 e session history messages system)
          (send_answer-Costs e session history messages))

  photo-Costs :
      (e : InboundEvent) (session : Session)
      → Costs meter.asked 0 (handle_photo_only_request ports e session)
  unfolding handle_photo_only_request
  photo-Costs e session =
      let product = strip (get_or e.body "") in
      let trace = extract_correlation_id e in
      Costs-bind 0 0 0 (omega arith)
        (Costs-call (ports.send_inventory_photos product e.from_phone trace)
          (meter.photos_law product e.from_phone trace))
        (λ photos_result.
          send_and_persist-Costs e session (build_photo_ack_text ports.tools photos_result) (
            field "response_mode" (str "photo_only_direct")
              (field "photos_result" (str photos_result) end)))

  wait-Costs :
      (e : InboundEvent) (session : Session) (messages : List ChatMessage)
      → Costs meter.asked 0 (wait_for_adviser ports e session messages)
  unfolding wait_for_adviser
  wait-Costs e session messages =
      when-Costs
        (should_send_handoff_message session.current_state (texts_of "assistant" messages)
          ports.handoff_waiting)
        (send_and_persist-Costs e session ports.handoff_waiting
          (field "source" (str "handoff_wait_message") end))

  -- The requests to the model that an answer may take.
  abbrev pub most_asked : Session → ℕ
  most_asked session = if is_handoff_state session.current_state then 0 else 9

  answer-Costs :
      (e : InboundEvent) (session : Session) (history : List ConversationEvent)
      → Costs meter.asked (most_asked session) (answer ports e session history)
  unfolding answer
  answer-Costs e session history =
      let messages = messages_of e history in
      elim (is_handoff_state session.current_state)
        as (λ b. Costs meter.asked (if b then 0 else 9) (
          if b
          then wait_for_adviser ports e session messages
          else if is_photo_only_request ports.tools e.body
          then handle_photo_only_request ports e session
          else answer_by_model ports e session history messages)) [
            | true ↦ wait-Costs e session messages
            | false ↦
                Costs-if 9 (is_photo_only_request ports.tools e.body)
                  (Costs-more 0 9 (omega arith) (photo-Costs e session))
                  (answer_by_model-Costs e session history messages)
          ]

  apologise-Costs :
      (e : InboundEvent) (session : Session) → Costs meter.asked 0 (apologise ports e session)
  unfolding apologise
  apologise-Costs e session =
      Costs-catch 0 0 0 (omega arith)
        (send_and_persist-Costs e session (resolve_llm_failure_message ports.both_llms_failed)
          (field "fallback_type" (str "both_llms_failed") end))
        (λ x. Costs-pure tt)

  history-Costs :
      (e : InboundEvent) (given : Option (List ConversationEvent))
      → Costs meter.asked 0 (history_of ports e given)
  unfolding history_of
  history-Costs e none =
      Costs-call (ports.list_by_conversation (ports.uuid5 e.from_phone) 30)
        (meter.list_law (ports.uuid5 e.from_phone) 30)
  history-Costs e (some history) = Costs-pure history

  -- `respond` never raises, whatever the model, the provider, the skills and the repository do; and
  -- it asks the model at most nine times, and not at all while a handoff is pending or active.
  pub respond_bounded :
      (e : InboundEvent) (session : Session) (given : Option (List ConversationEvent)) (w : S)
      → ((respond ports e session given w).0 ≡ ok tt)
        × (meter.asked (respond ports e session given w).1
            ≤ meter.asked w + (if is_handoff_state session.current_state then 0 else 9))
  unfolding respond apologise
  respond_bounded e session given w =
      let most = most_asked session in
      let costs =
        Costs-catch most 0 most (omega arith)
          (Costs-bind 0 most most (omega arith) (history-Costs e given) (answer-Costs e session))
          (λ x. apologise-Costs e session) in
      (
        handled (λ x. apologise ports e session)
            ((history_of ports e given >>= answer ports e session) w)
            (λ x v.
              handled (λ y. skip)
                (send_and_persist ports e session
                  (resolve_llm_failure_message ports.both_llms_failed)
                  (field "fallback_type" (str "both_llms_failed") end) v)
                (λ y u. refl)),
        costs.bound w,
      )
