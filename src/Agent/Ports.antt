-- ===== src/Agent/Ports.antt =====
-- What the agent of core/services/conversation_agent.py is built with.
use super_agent_platform.Base.{
  ℕ, zero, suc, ◌-◌, String, Option, none, some, List, [], ◌∷◌, ◌++◌, map, if◌then◌else◌, keep_if,
  Fields, Exec, pure, ◌>>=◌,
}
use super_agent_platform.Inbound.Types.{ConversationEvent}
use super_agent_platform.Agent.Policies.{TextTools, elem}
use super_agent_platform.Agent.Messages.{
  ToolCall, ToolResult, ChatMessage, is_empty, calls_of, result_of,
}

-- core/domain/llm.py
pub record ToolSchema : Type 0 where
  pub name : String
  pub description : String
  pub input_schema : Fields

pub record LlmResponse : Type 0 where
  pub content : String
  pub finish_reason : String
  pub tool_calls : List ToolCall
  pub metadata : Fields

-- The language model, the messaging provider (whose answer is the identifier of the message), the
-- events of the conversations, the skills, the UUID of a phone, fresh UUIDs and the clock, and the
-- texts of the brand; `S` is the state of them all.
pub record Ports (S : Type 0) : Type 0 where
  pub tools : TextTools
  pub complete : List ChatMessage → String → List ToolSchema → Exec S LlmResponse
  pub send_text : String → String → String → Exec S String
  pub list_by_conversation : ℕ → ℕ → Exec S (List ConversationEvent)
  pub append : ConversationEvent → Exec S (Unit {0})
  pub tool_schemas : List ToolSchema
  pub execute_tool : ToolCall → String → String → Exec S ToolResult
  pub query_inventory : Option String → ℕ → Exec S String
  pub send_inventory_photos : String → String → String → Exec S String
  pub uuid5 : String → ℕ
  pub uuid4 : Exec S ℕ
  pub now : Exec S ℕ
  pub prompt : String
  pub handoff_waiting : String
  pub friction_escalation : String
  pub both_llms_failed : List String

-- `_filter_tool_schemas`, for a list of tools.
unfoldable pub filter_tool_schemas : List ToolSchema → List String → List ToolSchema
filter_tool_schemas all_schemas allowed =
    keep_if (λ (schema : ToolSchema). elem schema.name allowed) all_schemas

-- `ChatMessage` of an answer that calls tools.
abbrev pub call_message : LlmResponse → ChatMessage
call_message r = record {
  role = "assistant";
  content = r.content;
  name = none;
  tool_call_id = none;
  metadata = calls_of r.tool_calls;
}

-- `ChatMessage` of a result.
abbrev pub result_message : ToolResult → ChatMessage
result_message r = record {
  role = "tool";
  content = r.content;
  name = some r.name;
  tool_call_id = some r.tool_call_id;
  metadata = result_of r.is_error r.metadata;
}

abbrev pub max_rounds : ℕ
max_rounds = 3

module _ {S : Type 0} (ports : Ports S) where
  -- The calls of an answer, in their order.
  unfoldable pub execute_all : String → String → List ToolCall → Exec S (List ToolResult)
  execute_all phone correlation_id [] = pure []
  execute_all phone correlation_id (call ∷ calls) =
      ports.execute_tool call phone correlation_id >>= λ result.
      execute_all phone correlation_id calls >>= λ results. pure (result ∷ results)

  -- The rounds of `_run_tool_calling_loop`, with the number of those that may follow the first one.
  unfoldable pub tool_rounds :
      ℕ → List ChatMessage → String → String → String → List String → Exec S LlmResponse
  unfolding execute_all filter_tool_schemas
  tool_rounds zero working system phone correlation_id allowed =
      ports.complete working system (filter_tool_schemas ports.tool_schemas allowed) >>= λ r.
      if is_empty r.tool_calls
      then pure r
      else (execute_all phone correlation_id r.tool_calls >>= λ results. pure r)
  tool_rounds (suc n) working system phone correlation_id allowed =
      ports.complete working system (filter_tool_schemas ports.tool_schemas allowed) >>= λ r.
      if is_empty r.tool_calls
      then pure r
      else (execute_all phone correlation_id r.tool_calls >>= λ results.
          tool_rounds n (working ++ call_message r ∷ map result_message results) system phone
            correlation_id allowed)

  -- `_run_tool_calling_loop`
  unfoldable pub run_tool_calling_loop :
      List ChatMessage → String → String → String → List String → Exec S LlmResponse
  unfolding tool_rounds
  run_tool_calling_loop messages system phone correlation_id allowed =
      tool_rounds (max_rounds - 1) messages system phone correlation_id allowed
