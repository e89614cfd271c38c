-- ===== src/Crm/Monday/Upsert.antt =====
-- `upsert_lead` of adapters/crm/monday_adapter.py.
use super_agent_platform.Base.{
  strip, get, put, String, not, ◌&&◌, Option, none, some, ◌==◌, if◌then◌else◌, or_else, get_or,
  Value, Fields, null, str, dict, Result, Exec, pure, raise, catch, ◌>>=◌, ◌>>◌, value_error, ok,
  err, ℕ_eq, String_eq,
}
use super_agent_platform.Crm.Worker.{Lead, given}
use super_agent_platform.Crm.Monday.Columns.{
  is_end, synced, previous_snapshot, snapshot_lead_columns, diff_columns, py_str, normalize_phone,
  resolve_lead_name, is_optional_column_error, base_columns, optional_columns, request_columns,
}
use super_agent_platform.Crm.Monday.Api.{
  Json, Request, at, as_text, is_object, non_empty, Client, gql, find_item_by_phone, change_columns,
  create_item,
}

module _ {S : Type 0} (client : Client S) where
  -- `s.strip() or None` of an `external_id`.
  abbrev pub stripped_id : Option String → Option String
  stripped_id none = none
  stripped_id (some s) = non_empty (strip s)

  -- `str(raw_monday_id).strip() or None`
  abbrev pub attribute_id : Option Value → Option String
  attribute_id none = none
  attribute_id (some null) = none
  attribute_id (some v) = non_empty (strip (py_str client.host v))

  -- `existing_id` of `upsert_lead` before the search by phone.
  unfoldable pub known_id : Lead → Option String
  known_id lead =
      or_else (stripped_id lead.external_id) (attribute_id (get "monday_id" lead.attributes))

  -- The search by phone of `upsert_lead`, where no identifier is known.
  unfoldable pub find_unless_known : Lead → Option String → Exec S (Option String)
  unfolding find_item_by_phone normalize_phone
  find_unless_known lead (some id) = pure (some id)
  find_unless_known lead none =
      let normalized_phone = normalize_phone client.host lead.phone in
      if normalized_phone == ""
      then pure none
      else (find_item_by_phone client normalized_phone >>= λ found.
          pure (non_empty (get_or found "")))

  -- A write, and again with fewer columns where the answer blames an optional one.
  unfoldable pub with_fallback : Fields → Request → Request → Exec S Json
  unfolding gql is_optional_column_error
  with_fallback optional request fallback = catch (gql client request) (λ e.
      if not (is_end optional) && is_optional_column_error client.host e
      then gql client fallback
      else raise e)

  -- `upsert_lead` where the item is known and something changed, from the write on.
  unfoldable pub send_columns : Lead → String → Fields → Fields → Exec S (String × Fields)
  unfolding with_fallback snapshot_lead_columns base_columns optional_columns synced put
      resolve_lead_name
  send_columns lead existing_id full_payload payload_to_send =
      let resolved_name = resolve_lead_name client.host lead in
      with_fallback (optional_columns client.host lead resolved_name)
        (change_columns existing_id payload_to_send)
        (change_columns existing_id (synced (base_columns client.host lead resolved_name)))
      >> pure (
        existing_id,
        put "monday_col_snapshot" (dict (snapshot_lead_columns client.host full_payload))
            (put "monday_id" (str existing_id) lead.attributes),
      )

  -- `upsert_lead` where the item is known. The result has the identifier, and the attributes that
  -- the method leaves in the lead.
  unfoldable pub update_item : Lead → String → Exec S (String × Fields)
  unfolding synced diff_columns request_columns put send_columns
  update_item lead existing_id =
      let full_payload = synced (request_columns client.host lead) in
      let payload_to_send = diff_columns client.host (previous_snapshot lead) full_payload in
      if is_end payload_to_send
      then pure (existing_id, put "monday_id" (str existing_id) lead.attributes)
      else send_columns lead existing_id full_payload payload_to_send

  -- The identifier in the answer to `create_item`.
  unfoldable pub created_id : Json → Result String
  unfolding at
  created_id answer =
      let data_block = at "data" (some answer) in
      let created_item = at "create_item" data_block in
      if not (is_object data_block)
      then err (value_error "Monday create_item response missing data block")
      else if not (is_object created_item)
      then err (value_error "Monday create_item response missing create_item block")
      else elim (as_text (at "id" created_item)) [
        | none ↦ err (value_error "Monday create_item response id is invalid")
        | some id ↦ ok id
      ]

  -- `upsert_lead` where no item is known.
  unfoldable pub create_new_item : Lead → Exec S (String × Fields)
  unfolding with_fallback request_columns base_columns optional_columns resolve_lead_name put
      created_id
  create_new_item lead =
      let resolved_name = resolve_lead_name client.host lead in
      with_fallback (optional_columns client.host lead resolved_name)
        (create_item resolved_name (request_columns client.host lead))
        (create_item resolved_name (base_columns client.host lead resolved_name))
      >>= λ answer. given (created_id answer) >>= λ item_id.
          pure (item_id, put "monday_id" (str item_id) lead.attributes)

  -- `upsert_lead` after the search.
  unfoldable pub write_lead : Lead → Option String → Exec S (String × Fields)
  unfolding update_item create_new_item
  write_lead lead (some existing_id) = update_item lead existing_id
  write_lead lead none = create_new_item lead

  -- `upsert_lead`
  unfoldable pub upsert_lead : Lead → Exec S (String × Fields)
  unfolding known_id find_unless_known write_lead
  upsert_lead lead = find_unless_known lead (known_id lead) >>= write_lead lead
