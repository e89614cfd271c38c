-- ===== src/Inbound/Branches.antt =====
-- The branch of a handoff in core/services/inbound_handler.py.
use super_agent_platform.Inbound.Store.{list_by_conversation}
use super_agent_platform.Base.{
  contains, strip, get, ℕ, String, ◌+++◌, ◌||◌, Option, none, some, List, [], ◌∷◌, ◌==◌,
  if◌then◌else◌, or_else, get_or, get_elem?, take_last, find_first, str_or, Exec, ◌>>◌, skip, ok,
  ℕ_eq, String_eq,
}
use super_agent_platform.Inbound.Types.{InboundEvent, LeadProfile, Session, ConversationEvent}
use super_agent_platform.Inbound.World.{Services, World, send_or_log}
use super_agent_platform.Inbound.Store
use super_agent_platform.Inbound.Profile.{extract_push_name}
use super_agent_platform.Fsm.Actions.Context.{coerce_str, first_text, as_mapping, Branch}
use super_agent_platform.Messaging.{Correlation, trace}

-- `_extract_handoff_field`: the attributes of the lead, then those of the session and of its last
-- message, where a session is given.
unfoldable pub extract_handoff_field : LeadProfile → Option Session → List String → Option String
unfolding first_text as_mapping
extract_handoff_field lead none keys = first_text lead.attributes keys
extract_handoff_field lead (some session) keys = or_else (first_text lead.attributes keys) (
    or_else (first_text session.context keys)
      (first_text (as_mapping (get "last_inbound_message" session.context)) keys))

-- The joined texts.
abbrev pub join : String → List String → String
join sep [] = ""
join sep (x ∷ []) = x
join sep (x ∷ (y ∷ ys)) = x +++ sep +++ join sep (y ∷ ys)

module _ (s : Services) where
  open s use {branch_provider, python}

  -- `_find_branch_by_city`
  unfoldable pub find_branch_by_city : String → Option Branch
  find_branch_by_city city =
      let wanted = python.casefold (strip city) in
      if wanted == ""
      then none
      else find_first
          (λ (b : Branch).
            wanted == python.casefold (strip b.centro_sheet)
            || contains wanted (python.casefold (strip b.display_name)))
          branch_provider.list_branches

  -- `_resolve_handoff_branch`: by key, by centre, by city, the branch named `fallback`, the first.
  unfoldable pub resolve_handoff_branch : LeadProfile → Session → Option Branch
  unfolding extract_handoff_field find_branch_by_city
  resolve_handoff_branch lead session =
      let wanted : List String → Option String = extract_handoff_field lead (some session) in
      let by_key : Option Branch = elim (wanted ("sucursal_key" ∷ "branch_key" ∷ [])) [
        | none ↦ none
        | some key ↦ branch_provider.get_branch_by_key key
      ] in
      let by_centro : Option Branch =
        elim (wanted ("centro_sheet" ∷ "centro" ∷ "centro_inventario" ∷ [])) [
          | none ↦ none
          | some centro ↦ branch_provider.get_branch_by_centro centro
        ] in
      let by_city : Option Branch = elim (wanted ("city" ∷ "ciudad" ∷ [])) [
        | none ↦ none
        | some city ↦ find_branch_by_city city
      ] in
      let fallback : Option Branch =
        find_first (λ (b : Branch). python.casefold (strip b.sucursal_key) == "fallback")
          branch_provider.list_branches in
      or_else by_key (
        or_else by_centro
          (or_else by_city (or_else fallback (get_elem? branch_provider.list_branches 0))))

  -- The texts of events that are not blank, their words joined by single spaces.
  unfoldable pub fragments : List ConversationEvent → List String
  unfolding coerce_str
  fragments [] = []
  fragments (e ∷ events) =
      let rest = fragments events in
      elim (coerce_str (get "text" e.payload)) [
        | none ↦ rest
        | some t ↦ join " " (s.words t) ∷ rest
      ]

  -- `_build_conversation_summary`: the last three texts of the last six events.
  unfoldable pub build_conversation_summary : ℕ → World → String
  unfolding fragments
  build_conversation_summary conversation_id w =
      elim (fragments (Store.list_by_conversation conversation_id 6 w.events)) [
        | [] ↦ "Sin contexto adicional."
        | t ∷ ts ↦ join " | " (take_last 3 (t ∷ ts))
      ]

  -- `_build_handoff_notification`
  unfoldable pub build_handoff_notification :
      InboundEvent → LeadProfile → ℕ → Branch → World → String
  unfolding extract_handoff_field build_conversation_summary extract_push_name
  build_handoff_notification e lead conversation_id branch w =
      let vehicle_interest =
        extract_handoff_field lead none
          ("vehiculo_interes" ∷ "vehiculo_previo" ∷ "vehicle_interest" ∷ "interes_modelo" ∷ []) in
      let lead_name = str_or lead.name (get_or (extract_push_name e) "Cliente sin nombre") in
      "[Handoff solicitado]\nSucursal: "
      +++ branch.display_name
      +++ " ("
      +++ branch.sucursal_key
      +++ ")\nNombre cliente: "
      +++ lead_name
      +++ "\nTelefono cliente: "
      +++ e.from_phone
      +++ "\nVehiculo de interes: "
      +++ get_or vehicle_interest "No especificado"
      +++ "\nResumen: "
      +++ build_conversation_summary conversation_id w

  -- The loop over the phones of the branch: a failure is only logged.
  unfoldable pub notify_phones : List String → String → Correlation → Exec World (Unit {0})
  unfolding send_or_log
  notify_phones [] content correlation = skip
  notify_phones (phone ∷ phones) content correlation =
      send_or_log s phone content correlation >> notify_phones phones content correlation

  -- `_route_handoff_to_branch`
  unfoldable pub route_handoff_to_branch :
      InboundEvent → LeadProfile → Session → ℕ → Exec World (Unit {0})
  unfolding resolve_handoff_branch build_handoff_notification notify_phones
  route_handoff_to_branch e lead session conversation_id w =
      elim (resolve_handoff_branch lead session) [
        | none ↦ (ok tt, w)
        | some branch ↦
            notify_phones branch.phones (build_handoff_notification e lead conversation_id branch w)
              (trace e.message_id) w
      ]
