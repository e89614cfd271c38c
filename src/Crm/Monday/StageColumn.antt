-- ===== src/Crm/Monday/StageColumn.antt =====
-- The column of the stage in the requests of `upsert_lead` of adapters/crm/monday_adapter.py.
use super_agent_platform.Crm.Monday.Api.{
  at, Client, accept_members, accept, gql, object, change_columns, Members,
}
use super_agent_platform.Crm.Monday.Payload.{merged-Distinct, request_columns-Distinct}
use super_agent_platform.Crm.Monday.Resync.{upsert_lead-known}
use super_agent_platform.Crm.Monday.Upsert.{
  known_id, with_fallback, send_columns, update_item, upsert_lead,
}
use super_agent_platform.Base.{
  strip, lookup, get, put, merge, String, ◌≡◌, refl, sym, ap, ◌∙◌, subst, ◌⊎◌, inl, inr, Bool, true,
  false, not, ◌||◌, none, some, List, [], ◌∷◌, arith, ◌==◌, if◌then◌else◌, is_none, or_else, get_or,
  Bool-cases, str_eq→eq, Value, Fields, get-put, str, end, field, Result, Exec, pure, ok, ℕ_eq,
  String_eq,
}
use super_agent_platform.Crm.Worker.{Lead}
use super_agent_platform.Crm.Monday.Stages.{resolve_stage_label}
use super_agent_platform.Crm.Monday.Columns.{
  Host, col_etapa_bot, is_end, is_kept, is_synced, synced, as_snapshot, label_value, diff_columns,
  attr_as_text, resolve_lead_name, build_optional_field_columns, fixed_columns, base_columns,
  source_by_key, optional_columns, request_columns,
}
use super_agent_platform.Crm.Monday.Sync.{
  Distinct, checked, get-filter_fields, get-merge, Distinct-put,
}

module _ (host : Host) where
  -- An optional column never replaces a column that is there.
  optional-get :
      (sources : List (String × String)) (base : Fields) (k : String)
      (fields : List (String × String)) (columns : Fields)
      → is_none (get k base) ≡ false
      → Distinct columns
      → get k columns ≡ none
      → (get k (build_optional_field_columns host sources base fields columns) ≡ none)
        × Distinct (build_optional_field_columns host sources base fields columns)
  unfolding build_optional_field_columns
  optional-get sources base k [] columns present once missing = (missing, once)
  optional-get sources base k ((canonical_key, monday_column_id) ∷ rest) columns present once
        missing =
      let column_id = strip monday_column_id in
      let value = strip (get_or (lookup canonical_key sources) "") in
      let skipped = column_id == "" || not (is_none (get column_id base)) || value == "" in
      let (passed, single) = go skipped column_id value refl in
      optional-get sources base k rest
        (if skipped then columns else put column_id (str value) columns) present single passed
    where
      go :
          (b : Bool) (c v : String)
          → (c == "" || not (is_none (get c base)) || v == "") ≡ b
          → (get k (if b then columns else put c (str v) columns) ≡ none)
            × Distinct (if b then columns else put c (str v) columns)
      go true c v h = (missing, once)
      go false c v h = (go_missing (Bool-cases (c == k)), Distinct-put c (str v) columns once)
        where
          go_missing : ((c == k) ≡ true) ⊎ ((c == k) ≡ false) → get k (put c (str v) columns) ≡ none
          go_missing (inl same) =
              let also : is_none (get c base) ≡ false =
                subst (λ i. is_none (get i base) ≡ false) (sym (str_eq→eq c k same)) present in
              absurd (ground (arith, also, h))
          go_missing (inr differ) =
              get-put c k (str v) columns
              ∙ ap (λ b. if b then some (str v) else get k columns) differ
              ∙ missing

  base-stage :
      (lead : Lead) (name : String)
      → (attr_as_text host lead "fsm_state" == "") ≡ false
      → get col_etapa_bot (base_columns host lead name)
        ≡ some
            (label_value (resolve_stage_label host.stage_map (attr_as_text host lead "fsm_state")))
  unfolding base_columns
  base-stage lead name h =
      let columns = fixed_columns host lead name in
      let label =
        label_value (resolve_stage_label host.stage_map (attr_as_text host lead "fsm_state")) in
      ap (λ b. get col_etapa_bot (if b then columns else put col_etapa_bot label columns)) h
      ∙ get-put col_etapa_bot col_etapa_bot label columns

  optional-stage :
      (lead : Lead) (name : String)
      → (attr_as_text host lead "fsm_state" == "") ≡ false
      → (get col_etapa_bot (optional_columns host lead name) ≡ none)
        × Distinct (optional_columns host lead name)
  unfolding optional_columns Distinct get
  optional-stage lead name h =
      optional-get (source_by_key host lead name) (base_columns host lead name) col_etapa_bot
        host.field_map end (rw (base-stage lead name h) refl) tt refl

  -- Where the lead has a state, the request sets the stage to the label of the state.
  pub request-stage :
      (lead : Lead)
      → (attr_as_text host lead "fsm_state" == "") ≡ false
      → get col_etapa_bot (synced (request_columns host lead))
        ≡ some
            (label_value (resolve_stage_label host.stage_map (attr_as_text host lead "fsm_state")))
  unfolding synced request_columns
  request-stage lead h =
      let name = resolve_lead_name host lead in
      let base = base_columns host lead name in
      let optional = optional_columns host lead name in
      let (missing, single) = optional-stage lead name h in
      get-filter_fields is_synced col_etapa_bot (request_columns host lead)
        (request_columns-Distinct host lead)
      ∙ ap (checked (is_synced col_etapa_bot)) (
          get-filter_fields is_kept col_etapa_bot (merge base optional)
            (merged-Distinct host lead name))
      ∙ ap (λ o. checked (is_synced col_etapa_bot) (checked (is_kept col_etapa_bot) o))
          (get-merge col_etapa_bot base optional single
            ∙ ap (λ o. or_else o (get col_etapa_bot base)) missing
            ∙ base-stage lead name h)

module _ {S : Type 0} (client : Client S) where
  sent-state :
      (lead : Lead) (id : String) (full payload : Fields) (pairs : Members) (w w' : S)
      → client.post (change_columns id payload) w ≡ (ok (object pairs), w')
      → at "errors" (some (object pairs)) ≡ none
      → (send_columns client lead id full payload w).1 ≡ w'
  unfolding send_columns with_fallback gql accept accept_members
  sent-state lead id full payload pairs w w' answered accepted = rw (answered, accepted) refl

  not_end : (k : String) (d : Fields) {v : Value} → get k d ≡ some v → is_end d ≡ false
  unfolding get
  not_end k end h = absurd (ground arith)
  not_end k (field j v d) h = refl

  update-state :
      (lead : Lead) (id : String) (pairs : Members) (w w' : S)
      → get "monday_col_snapshot" lead.attributes ≡ none
      → is_end (synced (request_columns client.host lead)) ≡ false
      → client.post (change_columns id (synced (request_columns client.host lead))) w
        ≡ (ok (object pairs), w')
      → at "errors" (some (object pairs)) ≡ none
      → (update_item client lead id w).1 ≡ w'
  unfolding update_item diff_columns
  update-state lead id pairs w w' fresh some_columns answered accepted =
      let full = synced (request_columns client.host lead) in
      let same : Exec S (String × Fields) = pure (id, put "monday_id" (str id) lead.attributes) in
      subst
        (λ o.
          let payload = diff_columns client.host (as_snapshot o) full in
          ((if is_end payload then same else send_columns client lead id full payload) w).1 ≡ w')
        (sym fresh)
        (subst (λ b. ((if b then same else send_columns client lead id full full) w).1 ≡ w')
          (sym some_columns) (sent-state lead id full full pairs w w' answered accepted))

  -- For a lead whose item is known, that has a state and no snapshot, a write by `upsert_lead` that
  -- is answered by any object without errors, on a board where such a write gives the item the
  -- label that it sets, gives the item the label of the state, whatever label it had: the hierarchy
  -- of the stages is not consulted.
  pub upsert_lead-overwrites :
      (label : S → String → String) (lead : Lead) (id : String) (pairs : Members) (w w' : S)
      → known_id client lead ≡ some id
      → get "monday_col_snapshot" lead.attributes ≡ none
      → (attr_as_text client.host lead "fsm_state" == "") ≡ false
      → client.post (change_columns id (synced (request_columns client.host lead))) w
        ≡ (ok (object pairs), w')
      → at "errors" (some (object pairs)) ≡ none
      → ((l : String)
          → get col_etapa_bot (synced (request_columns client.host lead)) ≡ some (label_value l)
          → label w' id ≡ l)
      → label (upsert_lead client lead w).1 id
        ≡ resolve_stage_label client.host.stage_map (attr_as_text client.host lead "fsm_state")
  upsert_lead-overwrites label lead id pairs w w' known fresh state answered accepted written =
      let full = synced (request_columns client.host lead) in
      let at_stage = request-stage client.host lead state in
      ap (λ v. label v id)
        (ap (λ (r : Result (String × Fields) × S). r.1) (upsert_lead-known client lead id w known)
          ∙ update-state lead id pairs w w' fresh (not_end col_etapa_bot full at_stage) answered
              accepted)
      ∙ written
          (resolve_stage_label client.host.stage_map (attr_as_text client.host lead "fsm_state"))
          at_stage
