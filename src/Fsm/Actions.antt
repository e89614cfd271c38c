-- ===== src/Fsm/Actions.antt =====
-- The actions of the state machine: core/fsm/actions.py. The ports act on a world `W`; log lines
-- are not kept.
pub mod Context
use super_agent_platform.Base.{
  get, ℕ, String, ◌+++◌, Option, none, some, List, [], ◌∷◌, or_else, get_or, str_or, Value, Fields,
  null, str, end, field, Exec, catch, ◌>>◌, skip,
}
use super_agent_platform.Messaging.{MessagingProvider, Correlation, trace}
use super_agent_platform.Fsm.Actions.Context.{
  BranchProvider, ActionBrand, resolve_crm_stage, coerce_str, coerce_uuid, as_mapping,
  extract_nested_string, resolve_branch_phones, resolve_document_target,
}
use super_agent_platform.Fsm.Engine.{ActionRegistry}

-- `FSMActionDependencies`: `update_state` of the session repository and `enqueue_operation` of the
-- outbox.
pub record FsmActionDependencies (W : Type 0) : Type 0 where
  pub update_state : Option (ℕ → String → Fields → Exec W (Unit {0}))
  pub enqueue_operation : Option (String → String → Fields → Exec W (Unit {0}))
  pub messaging_provider : Option (MessagingProvider W)
  pub branch_provider : Option BranchProvider
  pub brand : Option ActionBrand

-- An optional text as a value.
abbrev pub text_or_null : Option String → Value
text_or_null none = null
text_or_null (some s) = str s

module _ {W : Type 0} (casefold : String → String) (deps : FsmActionDependencies W) where
  -- `log_transition_with_outbox_action`
  unfoldable pub log_transition : Fields → Exec W (Unit {0})
  log_transition context = elim deps.enqueue_operation [
    | none ↦ skip
    | some enqueue ↦ elim (coerce_str (get "lead_id" context)) [
      | none ↦ skip
      | some lead_id ↦ elim (coerce_str (get "new_state" context)) [
        | none ↦ skip
        | some new_state ↦ enqueue lead_id "change_stage" (
            field "lead_id" (str lead_id) (
              field "phone" (text_or_null (extract_nested_string context ("phone" ∷ [])))
                (field "new_stage" (str new_state) end)))
      ]
    ]
  ]

  -- `update_session_action`
  unfoldable pub update_session : (String → Option ℕ) → Fields → Exec W (Unit {0})
  update_session parse_uuid context = elim deps.update_state [
    | none ↦ skip
    | some update_state ↦ elim (coerce_uuid parse_uuid (get "session_id" context)) [
      | none ↦ skip
      | some session_id ↦
          elim (or_else (coerce_str (get "new_state" context))
            (coerce_str (get "current_state" context))) [
              | none ↦ skip
              | some state ↦
                  update_state session_id state (as_mapping (get "session_context" context))
            ]
    ]
  ]

  -- `update_crm_stage_action`
  unfoldable pub update_crm_stage : Fields → Exec W (Unit {0})
  update_crm_stage context = elim deps.enqueue_operation [
    | none ↦ skip
    | some enqueue ↦ elim (resolve_crm_stage context deps.brand) [
      | none ↦ skip
      | some stage ↦
          elim (or_else (coerce_str (get "lead_external_crm_id" context))
            (coerce_str (get "lead_id" context))) [
              | none ↦ skip
              | some lead_id ↦
                  let aggregate_id = get_or (coerce_str (get "lead_id" context)) lead_id in
                  let old_state = get_or (coerce_str (get "old_state" context)) "unknown" in
                  let new_state = get_or (coerce_str (get "new_state" context)) "unknown" in
                  enqueue aggregate_id "change_stage" (
                    field "lead_id" (str lead_id) (
                      field "phone" (text_or_null (extract_nested_string context ("phone" ∷ []))) (
                        field "new_stage" (str stage) (
                          field "reason" (str ("fsm:" +++ old_state +++ "->" +++ new_state)) end))))
            ]
    ]
  ]

  -- The loop of `notify_agent_action`.
  unfoldable pub send_to_all :
      MessagingProvider W → List String → String → Correlation → Exec W (Unit {0})
  send_to_all provider [] text correlation = skip
  send_to_all provider (phone ∷ phones) text correlation =
      provider.send_text phone text correlation >> send_to_all provider phones text correlation

  -- `notify_agent_action`
  unfoldable pub notify_agent : Fields → Exec W (Unit {0})
  unfolding send_to_all
  notify_agent context = elim deps.messaging_provider [
    | none ↦ skip
    | some provider ↦
        let (branch_key, phones) = resolve_branch_phones context deps.branch_provider in
        let customer_phone = get_or (coerce_str (get "phone" context)) "desconocido" in
        let customer_name = get_or (coerce_str (get "name" context)) "Cliente sin nombre" in
        let correlation = get_or (coerce_str (get "correlation_id" context)) "fsm-notify-agent" in
        let text = get_or (coerce_str (get "handoff_message" context)) (
          "[FSM Handoff]\nSucursal: "
          +++ str_or branch_key "sin_sucursal"
          +++ "\nCliente: "
          +++ customer_name
          +++ "\nTelefono: "
          +++ customer_phone
          +++ "\nEstado: "
          +++ get_or (coerce_str (get "new_state" context)) "sin_estado") in
        elim phones [
          | [] ↦ skip
          | phone ∷ rest ↦ send_to_all provider (phone ∷ rest) text (trace correlation)
        ]
  ]

  -- `send_document_action`: where the provider raises, a text is sent in place of the document.
  unfoldable pub send_document : (String → String) → Fields → Exec W (Unit {0})
  send_document file_name_of context = elim deps.messaging_provider [
    | none ↦ skip
    | some provider ↦ elim (coerce_str (get "phone" context)) [
      | none ↦ skip
      | some to_phone ↦
          let correlation =
            trace (get_or (coerce_str (get "correlation_id" context)) "fsm-send-document") in
          elim (resolve_document_target casefold file_name_of context deps.brand) [
            | none ↦ skip
            | some (url, filename) ↦
                catch (provider.send_document to_phone url filename correlation) λ e.
                  provider.send_text to_phone
                    "Te comparto que tenemos fichas tecnicas disponibles. Quieres que un asesor te las envie directamente?"
                    correlation
          ]
    ]
  ]

  -- `build_default_action_registry`
  unfoldable pub build_default_action_registry :
      (String → String) → (String → Option ℕ) → ActionRegistry W
  unfolding log_transition update_session update_crm_stage notify_agent send_document
  build_default_action_registry file_name_of parse_uuid =
      ("log_transition", log_transition)
      ∷ ("update_session", update_session parse_uuid)
      ∷ ("update_crm_stage", update_crm_stage)
      ∷ ("notify_agent", notify_agent)
      ∷ ("send_document", send_document file_name_of)
      ∷ []
