-- ===== src/Inbound/Orchestrator.antt =====
-- The classification of inbound messages: core/services/orchestrator.py.
use super_agent_platform.Base.{
  strip, get, String, Bool, true, false, not, ◌&&◌, ◌||◌, Option, none, some, List, ◌==◌,
  if◌then◌else◌, get_or, find_first, str, end, field, ℕ_eq, String_eq,
}
use super_agent_platform.Inbound.Types.{
  InboundEvent, Session, MessageClassification, MessageKind, unsupported,
}

-- The policies that the orchestrator reads, the keywords by `keyword.lower().strip()`; the reply
-- to a handoff is the formatted `handoff_response_text`.
pub record Policies : Type 0 where
  pub opt_out_keywords : List String
  pub handoff_keywords : List String
  pub handoff_response_text : String

abbrev pub is_unsupported : MessageKind → Bool
is_unsupported unsupported = true
is_unsupported _ = false

-- `lower` is `str.lower`; `word_search` is the search of a text for a keyword between no word
-- characters, without regard to case.
module _ (lower : String → String) (word_search : String → String → Bool) where
  -- `_match_keyword`
  unfoldable pub match_keyword : String → List String → Option String
  match_keyword text_in keywords =
      if text_in == ""
      then none
      else find_first (λ keyword. not (keyword == "") && word_search keyword text_in) keywords

  -- The campaign that a session was opened for, where the session still waits for the reply.
  unfoldable pub campaign_of : Session → Option String
  campaign_of session =
      if session.current_state == "outbound_sent" || session.current_state == "idle"
      then (elim (get "campaign_id" session.context) [
        | some (str c) ↦ if strip c == "" then none else some c
        | _ ↦ none
      ])
      else none

  -- `classify`
  unfoldable pub classify : Policies → InboundEvent → Session → MessageClassification
  unfolding match_keyword campaign_of
  classify policies event session =
      let normalized_text = strip (lower (get_or event.body "")) in
      if is_unsupported event.kind
      then record {
        intent = "unsupported";
        confidence = 1000;
        fsm_event = "user_message";
        metadata = field "reason" (str "unsupported_message_kind") end;
      }
      else elim (match_keyword normalized_text policies.opt_out_keywords) [
        | some keyword ↦ record {
          intent = "opt_out";
          confidence = 1000;
          fsm_event = "opt_out_detected";
          metadata = field "matched_keyword" (str keyword) end;
        }
        | none ↦ elim (match_keyword normalized_text policies.handoff_keywords) [
          | some keyword ↦ record {
            intent = "handoff_request";
            confidence = 1000;
            fsm_event = "handoff_requested";
            metadata =
                field "matched_keyword" (str keyword)
                  (field "handoff_response_text" (str policies.handoff_response_text) end);
          }
          | none ↦ elim (campaign_of session) [
            | some campaign ↦ record {
              intent = "campaign_reply";
              confidence = 800;
              fsm_event = "campaign_reply_received";
              metadata = field "campaign_id" (str campaign) end;
            }
            | none ↦ record {
              intent = "conversation";
              confidence = 800;
              fsm_event = "user_message";
              metadata = end;
            }
          ]
        ]
      ]
