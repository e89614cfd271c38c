-- ===== src/Agent/Messages.antt =====
-- The messages that the agent of core/services/conversation_agent.py builds from a conversation.
use super_agent_platform.Base.{
  contains, strip, get, ℕ, ◌+◌, String, Bool, true, false, not, ◌&&◌, ◌||◌, Option, none, some,
  List, [], ◌∷◌, ◌++◌, map, ltb, leb, ◌==◌, if◌then◌else◌, get_or, take_last, any, keep_if, chars,
  Value, Fields, str, ℕ_eq, String_eq,
}
use super_agent_platform.Inbound.Types.{InboundEvent, ConversationEvent}

pub record ToolCall : Type 0 where
  pub id : String
  pub name : String
  pub arguments : Fields

pub record ToolResult : Type 0 where
  pub tool_call_id : String
  pub name : String
  pub content : String
  pub is_error : Bool
  pub metadata : Fields

-- The metadata that the agent gives a message.
pub data Metadata : Type 0 where
  no_metadata : Metadata
  calls_of : List ToolCall → Metadata
  result_of : Bool → Fields → Metadata

pub record ChatMessage : Type 0 where
  pub role : String
  pub content : String
  pub name : Option String
  pub tool_call_id : Option String
  pub metadata : Metadata

-- A message of the conversation.
abbrev pub chat : String → String → ChatMessage
chat role content = record {
  role = role;
  content = content;
  name = none;
  tool_call_id = none;
  metadata = no_metadata;
}

-- `_resolve_role`
unfoldable pub resolve_role : String → Option String
resolve_role event_type =
    if event_type == "inbound_message"
    then some "user"
    else if event_type == "outbound_message"
    then some "assistant"
    else none

-- The text of a payload that is one and not blank, stripped.
abbrev pub stripped_text : Option Value → Option String
stripped_text (some (str s)) = if strip s == "" then none else some (strip s)
stripped_text _ = none

-- The message of an event, if it has one.
abbrev pub message_of : Option String → Option String → List ChatMessage
message_of (some role) (some s) = chat role s ∷ []
message_of _ _ = []

-- `_format_history_as_messages`
unfoldable pub format_history_as_messages : List ConversationEvent → List ChatMessage
unfolding resolve_role get
format_history_as_messages [] = []
format_history_as_messages (item ∷ history) =
    message_of (resolve_role item.event_type) (stripped_text (get "text" item.payload))
    ++ format_history_as_messages history

-- `_build_user_message`
unfoldable pub build_user_message : InboundEvent → ChatMessage
build_user_message e = chat "user" (strip (get_or e.body ""))

abbrev pub last : List ChatMessage → Option ChatMessage
last [] = none
last (m ∷ []) = some m
last (m ∷ (n ∷ rest)) = last (n ∷ rest)

-- `last.role == "user" and last.content == current.content`
abbrev pub repeats : Option ChatMessage → ChatMessage → Bool
repeats none current = false
repeats (some m) current = m.role == "user" && m.content == current.content

-- `_ensure_current_user_message`
unfoldable pub ensure_current_user_message : List ChatMessage → InboundEvent → List ChatMessage
unfolding build_user_message
ensure_current_user_message messages e =
    let current = build_user_message e in
    if current.content == "" || repeats (last messages) current
    then messages
    else messages ++ current ∷ []

abbrev pub is_empty : {A : Type 0} → List A → Bool
is_empty [] = true
is_empty (_ ∷ _) = false

-- The loop of `_trim_messages_for_budget` over the messages from the last one on; what it keeps is
-- collected in the order of the messages.
unfoldable pub keep_within : ℕ → List ChatMessage → ℕ → List ChatMessage → List ChatMessage
keep_within max_total_chars [] total trimmed = trimmed
keep_within max_total_chars (m ∷ earlier) total trimmed =
    let rest = keep_within max_total_chars earlier (total + chars m.content) (m ∷ trimmed) in
    if not (is_empty trimmed) && ltb max_total_chars (total + chars m.content)
    then trimmed
    else rest

-- The list from its last item on.
abbrev pub backwards : List ChatMessage → List ChatMessage → List ChatMessage
backwards [] earlier = earlier
backwards (m ∷ messages) earlier = backwards messages (m ∷ earlier)

-- `_trim_messages_for_budget`
unfoldable pub trim_messages_for_budget : List ChatMessage → ℕ → List ChatMessage
unfolding keep_within
trim_messages_for_budget messages max_total_chars =
    if leb max_total_chars 0
    then take_last 1 messages
    else keep_within max_total_chars (backwards messages []) 0 []

-- The texts of the messages of a role that are not empty.
unfoldable pub texts_of : String → List ChatMessage → List String
texts_of role messages =
    map (λ (m : ChatMessage). m.content)
      (keep_if (λ (m : ChatMessage). m.role == role && not (m.content == "")) messages)

abbrev pub is_handoff_state : String → Bool
is_handoff_state s = s == "handoff_pending" || s == "handoff_active"

-- `should_send_handoff_message`
unfoldable pub should_send_handoff_message : String → List String → String → Bool
unfolding contains
should_send_handoff_message current_state recent_bot_messages handoff_msg =
    is_handoff_state current_state
    && not (any (λ msg. contains handoff_msg msg) (take_last 2 recent_bot_messages))
