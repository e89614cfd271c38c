-- ===== src/Fsm/Actions/Context.antt =====
-- How core/fsm/actions.py reads its context.
use super_agent_platform.Base.{
  contains, strip, lookup, get, ℕ, String, ◌+++◌, Option, none, some, List, [], ◌∷◌, ◌==◌,
  if◌then◌else◌, or_else, get_or, get_elem?, any, find_first, Value, Fields, str, uuid, dict, end,
  ℕ_eq, String_eq,
}

-- core/domain/branch.py
pub record Branch : Type 0 where
  pub sucursal_key : String
  pub centro_sheet : String
  pub display_name : String
  pub phones : List String

-- core/ports/branch_provider.py; the adapter reads a sheet.
pub record BranchProvider : Type 0 where
  pub get_branch_by_key : String → Option Branch
  pub get_branch_by_centro : String → Option Branch
  pub list_branches : List Branch

pub record ProductConfig : Type 0 where
  pub sku : String
  pub name : String
  pub metadata : Fields

-- The parts of the brand that the actions read.
pub record ActionBrand : Type 0 where
  pub stage_map : List (String × String)
  pub products : List ProductConfig

-- `_coerce_str`
unfoldable pub coerce_str : Option Value → Option String
coerce_str (some (str s)) = if strip s == "" then none else some (strip s)
coerce_str _ = none

-- `_coerce_uuid`; `parse_uuid` is `UUID(text)`, with `none` where it raises.
unfoldable pub coerce_uuid : (String → Option ℕ) → Option Value → Option ℕ
coerce_uuid parse_uuid (some (uuid u)) = some u
coerce_uuid parse_uuid (some (str s)) = if strip s == "" then none else parse_uuid (strip s)
coerce_uuid parse_uuid _ = none

-- `_as_mapping`
unfoldable pub as_mapping : Option Value → Fields
as_mapping (some (dict d)) = d
as_mapping _ = end

-- The first key with a text that is not blank.
unfoldable pub first_text : Fields → List String → Option String
unfolding coerce_str
first_text d [] = none
first_text d (key ∷ keys) = or_else (coerce_str (get key d)) (first_text d keys)

-- `_extract_nested_string`
unfoldable pub extract_nested_string : Fields → List String → Option String
unfolding first_text as_mapping
extract_nested_string context keys = or_else (first_text context keys) (
    or_else (first_text (as_mapping (get "session_context" context)) keys) (
      or_else (first_text (as_mapping (get "lead_attributes" context)) keys)
        (first_text (as_mapping (get "last_inbound_message" context)) keys)))

abbrev pub stage_key_by_state : List (String × String)
stage_key_by_state =
    ("idle", "new_lead")
    ∷ ("greeting", "contacted")
    ∷ ("discovery", "contacted")
    ∷ ("qualification", "qualified")
    ∷ ("catalog_navigation", "quoted")
    ∷ ("document_delivery", "quoted")
    ∷ ("objection_handling", "nurture")
    ∷ ("appointment_flow", "quoted")
    ∷ ("handoff_pending", "handoff")
    ∷ ("handoff_active", "handoff")
    ∷ ("cooldown", "nurture")
    ∷ ("closed", "lost")
    ∷ []

-- The stage of a state by the brand's map.
unfoldable pub stage_of_state : Option ActionBrand → String → String
unfolding lookup
stage_of_state none state = state
stage_of_state (some brand) state = elim (lookup state stage_key_by_state) [
  | none ↦ state
  | some stage_key ↦ get_or (lookup stage_key brand.stage_map) stage_key
]

-- `_resolve_crm_stage`
unfoldable pub resolve_crm_stage : Fields → Option ActionBrand → Option String
unfolding coerce_str stage_of_state
resolve_crm_stage context brand =
    elim (or_else (coerce_str (get "stage" context)) (coerce_str (get "crm_stage" context))) [
      | some explicit_stage ↦ some explicit_stage
      | none ↦
          elim (or_else (coerce_str (get "new_state" context))
            (coerce_str (get "current_state" context))) [
              | none ↦ none
              | some state ↦ some (stage_of_state brand state)
            ]
    ]

-- `list(dict.fromkeys(phones))`: the first occurrence of each.
unfoldable pub dedupe : List String → List String → List String
dedupe seen [] = []
dedupe seen (p ∷ ps) =
    let first = p ∷ dedupe (p ∷ seen) ps in
    let again = dedupe seen ps in if any (λ q. q == p) seen then again else first

abbrev pub branch_phones : Branch → Option String × List String
branch_phones b = (some b.sucursal_key, dedupe [] b.phones)

-- `_resolve_branch_phones`: by key, by centre, else the first branch.
unfoldable pub resolve_branch_phones : Fields → Option BranchProvider → Option String × List String
unfolding extract_nested_string dedupe
resolve_branch_phones context none = (none, [])
resolve_branch_phones context (some provider) =
    let by_key : Option Branch =
      elim (extract_nested_string context ("branch_key" ∷ "sucursal_key" ∷ [])) [
        | none ↦ none
        | some key ↦ provider.get_branch_by_key key
      ] in
    let by_centro : Option Branch =
      elim (extract_nested_string context ("centro_sheet" ∷ "centro" ∷ "centro_inventario" ∷ [])) [
        | none ↦ none
        | some centro ↦ provider.get_branch_by_centro centro
      ] in
    let first_branch : Option Branch = get_elem? provider.list_branches 0 in
    elim (or_else by_key (or_else by_centro first_branch)) [
      | none ↦ (none, [])
      | some b ↦ branch_phones b
    ]

module _ (casefold : String → String) where
  -- `_resolve_product`: by its code, by its name, else the first product.
  unfoldable pub resolve_product : Fields → Option ActionBrand → Option ProductConfig
  unfolding extract_nested_string
  resolve_product context none = none
  resolve_product context (some brand) =
      let by_sku : Option ProductConfig =
        elim (extract_nested_string context ("product_sku" ∷ "sku" ∷ [])) [
          | none ↦ none
          | some sku_hint ↦
              find_first (λ (p : ProductConfig). casefold p.sku == casefold sku_hint) brand.products
        ] in
      let by_name : Option ProductConfig =
        elim (extract_nested_string context
          ("product_name" ∷ "vehiculo_interes" ∷ "vehicle_interest" ∷ [])) [
            | none ↦ none
            | some name_hint ↦
                find_first (λ (p : ProductConfig). contains (casefold name_hint) (casefold p.name))
                  brand.products
          ] in
      or_else by_sku (or_else by_name (get_elem? brand.products 0))

  -- `_resolve_document_target`: the address and the file name. `file_name_of` is `Path(url).name`.
  unfoldable pub resolve_document_target :
      (String → String) → Fields → Option ActionBrand → Option (String × String)
  unfolding extract_nested_string resolve_product first_text coerce_str
  resolve_document_target file_name_of context brand =
      elim (extract_nested_string context ("document_url" ∷ "ficha_url" ∷ "brochure_url" ∷ [])) [
        | some url ↦
            let filename =
              get_or (coerce_str (get "document_filename" context)) (file_name_of url) in
            some (url, if filename == "" then "ficha.pdf" else filename)
        | none ↦ elim (resolve_product context brand) [
          | none ↦ none
          | some product ↦
              elim (first_text product.metadata
                ("document_url" ∷ "ficha_url" ∷ "brochure_url" ∷ "pdf_url" ∷ "url" ∷ [])) [
                  | none ↦ none
                  | some url ↦ some (url, product.sku +++ ".pdf")
                ]
        ]
      ]
