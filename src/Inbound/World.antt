-- ===== src/Inbound/World.antt =====
-- What the handler of core/services/inbound_handler.py acts on, and the services that it calls.
use super_agent_platform.Inbound.Store.{upsert_by_phone, upsert, update_state}
use super_agent_platform.Base.{
  ℕ, ◌+◌, String, Bool, Option, List, [], ◌∷◌, ◌++◌, Fields, Result, Exec, catch, skip, ok, err,
}
use super_agent_platform.Messaging.{Correlation, Request, recorder}
use super_agent_platform.Fsm.Schema.{FsmConfig}
use super_agent_platform.Fsm.Actions.Context.{BranchProvider, ActionBrand}
use super_agent_platform.Fsm.Guards.{PythonText}
use super_agent_platform.Crm.Outbox.{Outbox, enqueue_operation}
use super_agent_platform.Inbound.Types.{InboundEvent, ConversationEvent, Session, LeadProfile}
use super_agent_platform.Inbound.Orchestrator.{Policies}
use super_agent_platform.Inbound.Store

-- A row of the conversation log.
pub record Turn : Type 0 where
  pub lead_id : ℕ
  pub phone_masked : String
  pub last_state : String
  pub last_intent : String
  pub summary : String
  pub correlation_id : String

-- A request for the media of a message: `get_media_base64` of the messaging provider, `transcribe`
-- of the transcription provider and `analyze` of the image analysis.
pub data MediaRequest : Type 0 where
  get_media_base64 : String → String → MediaRequest
  transcribe : String → String → MediaRequest
  analyze : String → MediaRequest

-- The tables, the messages sent to the messaging provider, the requests for media, the log, and a
-- supply of identifiers: each `uuid4()` draws the next number.
pub record World : Type 0 where
  pub events : List ConversationEvent
  pub leads : List LeadProfile
  pub sessions : List Session
  pub outbox : Outbox
  pub silenced : List String
  pub mail : List Request
  pub media : List MediaRequest
  pub turns : List Turn
  pub next_id : ℕ

-- core/domain/slots.py; the budget is a number as in `Value`.
pub record LeadSlots : Type 0 where
  pub name : Option String
  pub city : Option String
  pub vehicle_interest : Option String
  pub budget : Option ℕ
  pub phone : Option String
  pub contact_preference : Option String

-- The services and the configuration: `parse_inbound_event` is `none` where the payload is refused;
-- the answer to a request for media may depend on those made before, is `none` where the service
-- has nothing, and may be an exception; `extract` is the slot extractor and
-- `hints` the legacy hints; `respond` is the conversation agent; `settles` is what the debounce
-- task of an event returns; `now` is the clock during the call.
pub record Services : Type 0 where
  pub parse_inbound_event : Fields → Option InboundEvent
  pub answer_media : List MediaRequest → MediaRequest → Result (Option String)
  pub answer : List Request → Request → Result (Unit {0})
  pub log_turn : Option (Turn → Exec (List Turn) (Unit {0}))
  pub respond : InboundEvent → Session → List ConversationEvent → Exec World (Unit {0})
  pub extract : String → LeadSlots → LeadSlots
  pub hints : Option String → Fields
  pub parse_float : String → Option ℕ
  pub settles : InboundEvent → Bool
  pub accumulates : Bool
  pub conversation_id_of : String → ℕ
  pub uuid_text : ℕ → String
  pub parse_uuid : String → Option ℕ
  pub parse_aggregate_id : String → ℕ
  pub file_name_of : String → String
  pub isoformat : ℕ → String
  pub words : String → List String
  pub python : PythonText
  pub word_search : String → String → Bool
  pub policies : Policies
  pub fsm_config : FsmConfig
  pub branch_provider : BranchProvider
  pub brand : Option ActionBrand
  pub now : ℕ

-- `uuid4()`
abbrev pub draw_id : Exec World ℕ
draw_id w = (ok w.next_id, record w { next_id = w.next_id + 1 })

module _ (s : Services) where
  -- A request for media: it is logged before it is answered.
  abbrev pub fetch : MediaRequest → Exec World (Option String)
  fetch request w = (s.answer_media w.media request, record w { media = w.media ++ request ∷ [] })

  -- The messaging provider, on the requests of the world.
  unfoldable pub send_text : String → String → Correlation → Exec World (Unit {0})
  send_text to content correlation w =
      let (r, mail') = (recorder s.answer).send_text to content correlation w.mail in
      (r, record w { mail = mail' })

  unfoldable pub send_document : String → String → String → Correlation → Exec World (Unit {0})
  send_document to url filename correlation w =
      let (r, mail') = (recorder s.answer).send_document to url filename correlation w.mail in
      (r, record w { mail = mail' })

  -- A text whose failure is only logged, as the handler's four senders do.
  unfoldable pub send_or_log : String → String → Correlation → Exec World (Unit {0})
  unfolding send_text
  send_or_log to content correlation = catch (send_text to content correlation) λ e. skip

  -- The outbox, with a drawn identifier.
  unfoldable pub enqueue_crm : String → String → Fields → Exec World (Unit {0})
  enqueue_crm aggregate_id operation payload w =
      let (r, o) =
        enqueue_operation s.parse_aggregate_id w.next_id s.now aggregate_id operation payload
          w.outbox in
      ((elim r [ ok i ↦ ok tt | err e ↦ err e ]), record w { outbox = o; next_id = w.next_id + 1 })

  unfoldable pub save_lead : LeadProfile → Exec World LeadProfile
  save_lead profile w =
      let (saved, rows) = Store.upsert_by_phone profile w.leads in
      (ok saved, record w { leads = rows })

  unfoldable pub save_session : Session → Exec World Session
  save_session entity w =
      let (saved, rows) = Store.upsert entity w.sessions in (ok saved, record w { sessions = rows })

  -- `update_state` of the session repository, for the actions of the machine.
  unfoldable pub move_session : ℕ → String → Fields → Exec World (Unit {0})
  move_session session_id new_state context w =
      elim (Store.update_state session_id new_state context s.now w.sessions) [
        | ok rows ↦ (ok tt, record w { sessions = rows })
        | err e ↦ (err e, w)
      ]
