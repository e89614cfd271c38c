-- ===== src/Crm/Monday/Columns.antt =====
-- The columns of an item of the board: the constants and the helpers of
-- adapters/crm/monday_adapter.py that build, compare and reduce them. What Python and the brand
-- configuration give is a `Host`.
use super_agent_platform.Base.{
  contains, strip, lookup, get, put, merge, ℕ, String, ◌+++◌, Bool, true, false, not, ◌&&◌, ◌||◌,
  Option, none, some, List, [], ◌∷◌, ◌++◌, leb, ◌==◌, if◌then◌else◌, is_none, get_or, any, str_or,
  chars, keep_chars, all_chars, last_chars, Value, Fields, null, str, dict, end, field, Error,
  message, ℕ_eq, String_eq,
}
use super_agent_platform.Crm.Worker.{Lead}
use super_agent_platform.Crm.Monday.Stages.{resolve_stage_label}

-- The date of the call, `json.dumps` with sorted keys, `str` of an object that is not a text, the
-- characters of `\d` and those of `str.isdigit`, `str.casefold`, and the two maps of the brand.
pub record Host : Type 0 where
  pub today : String
  pub dumps : Fields → String
  pub to_text : Value → String
  pub is_decimal : ℕ → Bool
  pub is_digit : ℕ → Bool
  pub casefold : String → String
  pub stage_map : List (String × String)
  pub field_map : List (String × String)

abbrev pub col_telefono : String
col_telefono = "text_mm2k3epp"

abbrev pub col_vehiculo : String
col_vehiculo = "text_mm2ktbs7"

abbrev pub col_etapa_bot : String
col_etapa_bot = "color_mm2kvwdj"

abbrev pub col_resumen : String
col_resumen = "long_text_mm2kpk90"

abbrev pub col_ultimo_contacto : String
col_ultimo_contacto = "date_mm2kmhna"

abbrev pub col_sincronizado : String
col_sincronizado = "color_mm2kv8c2"

abbrev pub col_canal : String
col_canal = "color_mm2kwvp3"

abbrev pub col_origen : String
col_origen = "text_mm2k5g0c"

abbrev pub col_nombre_completo : String
col_nombre_completo = "text_mm2kz8c6"

abbrev pub col_phone_dedupe : String
col_phone_dedupe = "text_mm2kjsap"

abbrev pub columns_exclude_from_sync : List String
columns_exclude_from_sync =
    "multiple_person_mm2kdy8q"
    ∷ ("long_text_mm2k8vtc" ∷ ("pulse_log_mm2kwmcn" ∷ ("pulse_updated_mm2kcr4g" ∷ [])))

-- The items of a dictionary that pass a test on the key and the value.
unfoldable pub filter_fields : (String → Value → Bool) → Fields → Fields
filter_fields p end = end
filter_fields p (field k v d) =
    let rest = filter_fields p d in if p k v then field k v rest else rest

abbrev pub is_end : Fields → Bool
is_end end = true
is_end (field _ _ _) = false

abbrev pub is_null : Value → Bool
is_null null = true
is_null _ = false

-- `key and value is not None`
abbrev pub is_kept : String → Value → Bool
is_kept k v = not (k == "") && not (is_null v)

-- `key not in COLUMNS_EXCLUDE_FROM_SYNC`
abbrev pub is_synced : String → Value → Bool
is_synced k v = not (any (λ c. c == k) columns_exclude_from_sync)

-- The columns that may be written of those wanted.
unfoldable pub synced : Fields → Fields
unfolding filter_fields
synced columns = filter_fields is_synced columns

-- A snapshot, where the value is one.
abbrev pub as_snapshot : Option Value → Fields
as_snapshot (some (dict d)) = d
as_snapshot _ = end

-- `previous_snapshot` of `upsert_lead`
abbrev pub previous_snapshot : Lead → Fields
previous_snapshot lead = as_snapshot (get "monday_col_snapshot" lead.attributes)

-- `sep.join(parts)`
abbrev pub join : String → List String → String
join sep [] = ""
join sep (s ∷ []) = s
join sep (s ∷ (t ∷ rest)) = s +++ (sep +++ join sep (t ∷ rest))

-- `[prefix + s] if s else []`
abbrev pub labelled : String → String → List String
labelled prefix s = if s == "" then [] else (prefix +++ s) ∷ []

-- `_build_summary_text`
unfoldable pub build_summary_text : String → String → String → String → String → String
build_summary_text city budget vehicle_interest fsm_state last_message = join " | " (
    labelled "Ciudad: " city
    ++ (labelled "Presupuesto: " budget
        ++ (labelled "Interes: " vehicle_interest
            ++ (labelled "FSM: " fsm_state ++ labelled "Ultimo mensaje: " last_message))))

-- `{"label": s}`
abbrev pub label_value : String → Value
label_value s = dict (field "label" (str s) end)

module _ (host : Host) where
  -- `_serialize_column_value`; a missing value is `None`.
  unfoldable pub serialize_column_value : Option Value → String
  serialize_column_value none = ""
  serialize_column_value (some null) = ""
  serialize_column_value (some (str s)) = s
  serialize_column_value (some (dict d)) = host.dumps d
  serialize_column_value (some v) = host.to_text v

  -- `_snapshot_lead_columns`
  unfoldable pub snapshot_lead_columns : Fields → Fields
  unfolding serialize_column_value
  snapshot_lead_columns end = end
  snapshot_lead_columns (field k v d) =
      field k (str (serialize_column_value (some v))) (snapshot_lead_columns d)

  -- The comparison in the loop of `_diff_columns`.
  abbrev pub is_changed : Fields → String → Value → Bool
  is_changed current_snapshot k v =
      not (serialize_column_value (get k current_snapshot) == serialize_column_value (some v))

  -- `_diff_columns`
  unfoldable pub diff_columns : Fields → Fields → Fields
  unfolding filter_fields
  diff_columns current_snapshot new_columns =
      if is_end current_snapshot
      then new_columns
      else filter_fields (is_changed current_snapshot) new_columns

  -- `str(value)`
  abbrev pub py_str : Value → String
  py_str (str s) = s
  py_str v = host.to_text v

  -- What `_attr_as_text` makes of a value.
  abbrev pub value_text : Option Value → String
  value_text none = ""
  value_text (some null) = ""
  value_text (some (str s)) = strip s
  value_text (some v) = host.to_text v

  -- `_attr_as_text`
  unfoldable pub attr_as_text : Lead → String → String
  attr_as_text lead key = value_text (get key lead.attributes)

  -- `_normalize_phone`
  unfoldable pub normalize_phone : String → String
  normalize_phone phone = keep_chars host.is_decimal phone

  -- `s.isdigit()`
  abbrev pub isdigit : String → Bool
  isdigit s = not (s == "") && all_chars host.is_digit s

  -- `_resolve_lead_name`
  unfoldable pub resolve_lead_name : Lead → String
  unfolding attr_as_text
  resolve_lead_name lead =
      let raw_name = strip lead.name in
      let first_message = attr_as_text lead "last_message_text" in
      if not (raw_name == "")
        && leb 3 (chars raw_name)
        && not (host.casefold raw_name == host.casefold first_message)
      then raw_name
      else "Lead " +++ (if lead.phone == "" then "0000" else last_chars 4 lead.phone)

  -- `_build_optional_field_columns`: the dictionary of the sources is the argument `sources`, whose
  -- values are all texts, and `columns` what the loop has collected.
  unfoldable pub build_optional_field_columns :
      List (String × String) → Fields → List (String × String) → Fields → Fields
  build_optional_field_columns sources base_columns [] columns = columns
  build_optional_field_columns sources base_columns ((canonical_key, monday_column_id) ∷ rest)
        columns =
      let column_id = strip monday_column_id in
      let value = strip (get_or (lookup canonical_key sources) "") in
      build_optional_field_columns sources base_columns rest (
        if column_id == "" || not (is_none (get column_id base_columns)) || value == ""
        then columns
        else put column_id (str value) columns)

  -- `_is_optional_column_error`
  unfoldable pub is_optional_column_error : Error → Bool
  is_optional_column_error e =
      any (λ keyword. contains keyword (host.casefold (message e)))
        ("column"
          ∷ ("label"
              ∷ ("status"
                  ∷ ("doesn't exist" ∷ ("does not exist" ∷ ("not found" ∷ ("invalid" ∷ [])))))))

  -- `column_values` of `upsert_lead` as it is first built.
  unfoldable pub fixed_columns : Lead → String → Fields
  unfolding attr_as_text build_summary_text normalize_phone
  fixed_columns lead resolved_name =
      let fsm_state = attr_as_text lead "fsm_state" in
      let vehicle_interest = attr_as_text lead "vehicle_interest" in
      let summary_text =
        build_summary_text (attr_as_text lead "city") (attr_as_text lead "budget") vehicle_interest
          fsm_state (attr_as_text lead "last_message_text") in
      field col_telefono (str lead.phone) (
        field col_phone_dedupe (str (normalize_phone lead.phone)) (
          field col_nombre_completo (str resolved_name) (
            field col_origen (str (str_or (some lead.source) "WhatsApp Bot")) (
              field col_vehiculo (str vehicle_interest) (
                field col_resumen (dict (field "text" (str summary_text) end)) (
                  field col_canal (label_value "WhatsApp Orgánico") (
                    field col_sincronizado (label_value "Sincronizado") (
                      field col_ultimo_contacto (dict (field "date" (str host.today) end))
                        end))))))))

  -- `column_values` of `upsert_lead`
  unfoldable pub base_columns : Lead → String → Fields
  unfolding attr_as_text fixed_columns
  base_columns lead resolved_name =
      let columns = fixed_columns lead resolved_name in
      let fsm_state = attr_as_text lead "fsm_state" in
      if fsm_state == ""
      then columns
      else put col_etapa_bot (label_value (resolve_stage_label host.stage_map fsm_state)) columns

  -- `source_by_key` of `_build_optional_field_columns`
  unfoldable pub source_by_key : Lead → String → List (String × String)
  unfolding attr_as_text
  source_by_key lead resolved_name =
      ("lead_name", resolved_name)
      ∷ (("phone", lead.phone)
          ∷ (("source", str_or (some lead.source) "WhatsApp Bot")
              ∷ (("vehicle_interest", attr_as_text lead "vehicle_interest")
                  ∷ (("city", attr_as_text lead "city")
                      ∷ (("fsm_state", attr_as_text lead "fsm_state") ∷ [])))))

  -- `optional_column_values` of `upsert_lead`
  unfoldable pub optional_columns : Lead → String → Fields
  unfolding build_optional_field_columns base_columns source_by_key
  optional_columns lead resolved_name =
      build_optional_field_columns (source_by_key lead resolved_name)
        (base_columns lead resolved_name) host.field_map end

  -- `request_column_values` of `upsert_lead`, after the filter.
  unfoldable pub request_columns : Lead → Fields
  unfolding resolve_lead_name base_columns optional_columns filter_fields merge
  request_columns lead =
      let resolved_name = resolve_lead_name lead in
      filter_fields is_kept
        (merge (base_columns lead resolved_name) (optional_columns lead resolved_name))
