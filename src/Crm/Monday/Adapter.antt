-- ===== src/Crm/Monday/Adapter.antt =====
-- `change_stage` and `add_note` of adapters/crm/monday_adapter.py, and the adapter as a whole.
use super_agent_platform.Base.{
  String, ◌+++◌, Bool, false, not, Option, none, some, ◌==◌, if◌then◌else◌, get_or, Fields, str,
  dict, end, field, Exec, pure, raise, catch, ◌>>=◌, ◌>>◌, skip, value_error, ℕ_eq, String_eq,
}
use super_agent_platform.Crm.Worker.{CrmProvider}
use super_agent_platform.Crm.Monday.Stages.{
  default_stage_hierarchy, default_terminal_stages, default_special_stages, can_advance_stage,
  resolve_stage_label,
}
use super_agent_platform.Crm.Monday.Columns.{
  col_etapa_bot, col_ultimo_contacto, label_value, isdigit,
}
use super_agent_platform.Crm.Monday.Api.{
  non_empty, Client, gql, find_item_by_phone, get_item_stage_label, change_columns, create_update,
}
use super_agent_platform.Crm.Monday.Upsert.{upsert_lead}

module _ {S : Type 0} (client : Client S) where
  -- The item that has a phone, for a phone that is given.
  unfoldable pub target_by_phone : Option String → Exec S (Option String)
  unfolding find_item_by_phone
  target_by_phone none = pure none
  target_by_phone (some phone) =
      if phone == ""
      then pure none
      else (find_item_by_phone client phone >>= λ found. pure (non_empty (get_or found "")))

  -- The item that `change_stage` is about.
  unfoldable pub stage_target : String → Option String → Exec S (Option String)
  unfolding target_by_phone
  stage_target lead_id phone =
      if isdigit client.host lead_id then pure (some lead_id) else target_by_phone phone

  -- The columns that `change_stage` writes.
  abbrev pub stage_columns : String → Fields
  stage_columns label =
      field col_etapa_bot (label_value label)
        (field col_ultimo_contacto (dict (field "date" (str client.host.today) end)) end)

  -- Whether `change_stage` stops at the label that was read.
  unfoldable pub is_blocked : Option String → String → Bool
  unfolding can_advance_stage
  is_blocked none label = false
  is_blocked (some current) label = not (
      can_advance_stage current label default_stage_hierarchy default_terminal_stages
        default_special_stages)

  -- `change_stage` after the label is read.
  unfoldable pub move_item : String → String → Option String → Exec S (Unit {0})
  unfolding gql is_blocked
  move_item monday_id label current_stage =
      if is_blocked current_stage label
      then skip
      else (gql client (change_columns monday_id (stage_columns label)) >> skip)

  -- `change_stage` after the item is found.
  unfoldable pub move_target : String → Option String → Exec S (Unit {0})
  unfolding get_item_stage_label move_item
  move_target label none = raise (value_error "monday item not found for stage change")
  move_target label (some monday_id) =
      get_item_stage_label client monday_id >>= move_item monday_id label

  -- `change_stage`
  unfoldable pub change_stage : String → String → Option String → Option String → Exec S (Unit {0})
  unfolding resolve_stage_label stage_target move_target
  change_stage lead_id new_stage reason phone =
      stage_target lead_id phone
      >>= move_target (resolve_stage_label client.host.stage_map new_stage)

  -- `add_note`: an error is logged and not raised.
  unfoldable pub add_note : String → String → String → Exec S (Unit {0})
  unfolding gql
  add_note lead_id note author =
      let note_body = if author == "" then note else "[" +++ (author +++ ("]: " +++ note)) in
      catch (gql client (create_update lead_id note_body) >> skip) (λ e. skip)

  -- The adapter as the port that the worker calls.
  unfoldable pub as_provider : CrmProvider S
  unfolding upsert_lead change_stage add_note
  as_provider = record {
    upsert_lead = λ lead. upsert_lead client lead >> skip;
    change_stage = change_stage;
    add_note = add_note;
  }
