-- ===== src/Crm/Monday/Payload.antt =====
-- The columns that `upsert_lead` of adapters/crm/monday_adapter.py asks for.
use super_agent_platform.Crm.Monday.Stages.{resolve_stage_label}
use super_agent_platform.Base.{
  get, put, merge, String, ◌≡◌, refl, ap, ◌∙◌, true, false, some, ◌==◌, if◌then◌else◌, Value,
  get-put, ℕ_eq, String_eq,
}
use super_agent_platform.Crm.Worker.{Lead}
use super_agent_platform.Crm.Monday.Columns.{
  Host, col_etapa_bot, is_kept, is_synced, synced, label_value, value_text, attr_as_text,
  resolve_lead_name, fixed_columns, base_columns, source_by_key, optional_columns, request_columns,
}
use super_agent_platform.Crm.Monday.Sync.{
  Distinct, Distinct-filter_fields, Distinct-put, Distinct-merge,
}

-- The lead with one of its attributes set.
abbrev pub with_attribute : String → Value → Lead → Lead
with_attribute k v lead = record lead { attributes = put k v lead.attributes }

module _ (host : Host) where
  attr-with_attribute :
      (k key : String) (v : Value) (lead : Lead)
      → (k == key) ≡ false
      → attr_as_text host (with_attribute k v lead) key ≡ attr_as_text host lead key
  unfolding attr_as_text
  attr-with_attribute k key v lead h =
      ap (value_text host) (
        get-put k key v lead.attributes ∙ ap (λ b. if b then some v else get key lead.attributes) h)

  fixed_columns-Distinct : (lead : Lead) (name : String) → Distinct (fixed_columns host lead name)
  unfolding fixed_columns Distinct get
  fixed_columns-Distinct lead name =
      (refl, (refl, (refl, (refl, (refl, (refl, (refl, (refl, (refl, tt)))))))))

  base_columns-Distinct : (lead : Lead) (name : String) → Distinct (base_columns host lead name)
  unfolding base_columns
  base_columns-Distinct lead name =
      let columns = fixed_columns host lead name in
      let fsm_state = attr_as_text host lead "fsm_state" in
      let label = label_value (resolve_stage_label host.stage_map fsm_state) in
      elim (fsm_state == "")
        as (λ b. Distinct (if b then columns else put col_etapa_bot label columns)) [
          | true ↦ fixed_columns-Distinct lead name
          | false ↦ Distinct-put col_etapa_bot label columns (fixed_columns-Distinct lead name)
        ]

  -- The dictionaries of a request are dictionaries.
  pub merged-Distinct :
      (lead : Lead) (name : String)
      → Distinct (merge (base_columns host lead name) (optional_columns host lead name))
  merged-Distinct lead name =
      Distinct-merge (base_columns host lead name) (optional_columns host lead name)
        (base_columns-Distinct lead name)

  pub request_columns-Distinct : (lead : Lead) → Distinct (request_columns host lead)
  unfolding request_columns
  request_columns-Distinct lead =
      let name = resolve_lead_name host lead in
      Distinct-filter_fields is_kept
        (merge (base_columns host lead name) (optional_columns host lead name))
        (merged-Distinct lead name)

  pub payload-Distinct : (lead : Lead) → Distinct (synced (request_columns host lead))
  unfolding synced
  payload-Distinct lead =
      Distinct-filter_fields is_synced (request_columns host lead) (request_columns-Distinct lead)

  -- The keys that a request reads.
  abbrev pub IsUnread : String → Type 0
  IsUnread k =
      ((k == "vehicle_interest") ≡ false)
      × ((k == "city") ≡ false)
      × ((k == "budget") ≡ false)
      × ((k == "fsm_state") ≡ false)
      × ((k == "last_message_text") ≡ false)

  -- The two attributes that `upsert_lead` sets are not read for the columns.
  pub request_columns-with_attribute :
      (k : String) (v : Value) (lead : Lead)
      → IsUnread k
      → request_columns host (with_attribute k v lead) ≡ request_columns host lead
  unfolding request_columns optional_columns source_by_key base_columns fixed_columns
      resolve_lead_name
  request_columns-with_attribute k v lead (vi, city, budget, fsm, last) =
      rw
        (
          attr-with_attribute k "vehicle_interest" v lead vi,
          attr-with_attribute k "city" v lead city,
          attr-with_attribute k "budget" v lead budget,
          attr-with_attribute k "fsm_state" v lead fsm,
          attr-with_attribute k "last_message_text" v lead last,
        )
        refl
