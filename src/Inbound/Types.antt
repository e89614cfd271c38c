-- ===== src/Inbound/Types.antt =====
-- The data of the inbound path: core/domain/{messaging,conversation_event,session,lead,classification}.py.
-- Identifiers are numbers that stand for UUIDs, times are numbers of seconds.
use super_agent_platform.Base.{ℕ, String, Option, Fields}

pub data MessageKind : Type 0 where
  text image audio document video sticker location contact reaction unsupported : MessageKind

pub record InboundEvent : Type 0 where
  pub message_id : String
  pub from_phone : String
  pub kind : MessageKind
  pub body : Option String
  pub media_url : Option String
  pub raw_metadata : Fields
  pub received_at : ℕ
  pub sender_id : String
  pub channel : String
  pub event_type : String
  pub occurred_at : Option ℕ
  pub metadata : Fields

pub record ConversationEvent : Type 0 where
  pub id : ℕ
  pub conversation_id : ℕ
  pub lead_id : Option ℕ
  pub event_type : String
  pub payload : Fields
  pub created_at : ℕ
  pub message_id : Option String

pub record Session : Type 0 where
  pub id : ℕ
  pub lead_id : ℕ
  pub current_state : String
  pub context : Fields
  pub created_at : ℕ
  pub updated_at : ℕ
  pub last_event_at : Option ℕ

pub record LeadProfile : Type 0 where
  pub id : ℕ
  pub external_crm_id : Option String
  pub phone : String
  pub name : Option String
  pub source : String
  pub attributes : Fields
  pub created_at : ℕ
  pub updated_at : ℕ

-- `confidence` is a float by its value times 1000.
pub record MessageClassification : Type 0 where
  pub intent : String
  pub confidence : ℕ
  pub fsm_event : String
  pub metadata : Fields
