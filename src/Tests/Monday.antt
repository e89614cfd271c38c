-- ===== src/Tests/Monday.antt =====
-- The adapter of adapters/crm/monday_adapter.py at concrete boards.
use super_agent_platform.Crm.Monday.Resync.{upsert_lead-again}
use super_agent_platform.Crm.Monday.Stages.{can_advance_stage, resolve_stage_label, Forward}
use super_agent_platform.Crm.Monday.StageColumn.{upsert_lead-overwrites}
use super_agent_platform.Crm.Monday.Adapter.{
  stage_target, is_blocked, move_item, move_target, change_stage,
}
use super_agent_platform.Crm.Monday.Upsert.{
  known_id, find_unless_known, with_fallback, send_columns, update_item, write_lead, upsert_lead,
}
use super_agent_platform.Crm.Worker.{Lead, given}
use super_agent_platform.Base.{
  strip, lstrip, is_space, lookup, get, put, merge, ℕ, ◌+◌, String, ◌≡◌, refl, sym, ap, ◌∙◌, ◌⊎◌,
  inl, inr, ◌&&◌, Option, none, some, [], ◌∷◌, arith, leb, ◌==◌, if◌then◌else◌, Bool-cases,
  str_eq→eq, some_injective, Value, Fields, str, dict, end, field, Exec, value_error, ok, err, ℕ_eq,
  String_eq,
}
use super_agent_platform.Crm.Monday.Columns.{
  Host, col_etapa_bot, filter_fields, synced, label_value, snapshot_lead_columns, attr_as_text,
  fixed_columns, base_columns, optional_columns, request_columns,
}
use super_agent_platform.Crm.Monday.Api.{
  Json, Members, Request, find_member, at, first, Client, accept_members, accept, gql, ask,
  read_label, get_item_stage_label, text, array, object, no_items, item, no_members, member,
  stage_of, change_columns,
}
use super_agent_platform.Crm.Monday.Advance.{change_stage-Forward, Board}

abbrev host : Host
host = record {
  today = "2026-04-15";
  dumps = λ d. "{}";
  to_text = λ v. "";
  is_decimal = λ c. leb 48 c && leb c 57;
  is_digit = λ c. leb 48 c && leb c 57;
  casefold = λ s. s;
  stage_map = ("new_lead", "Nuevo") ∷ (("contacted", "Conversando") ∷ []);
  field_map = ("city", "text_mm2k4nfy") ∷ [];
}

-- The label that a value of the column gives, where the item has one.
abbrev relabelled : String → Option Value → String
relabelled old (some (dict (field k (str s) end))) = if k == "label" then s else old
relabelled old _ = old

-- The answer to the query for the label of an item.
abbrev stage_answer : String → Json
stage_answer label = object (
    member "data"
      (object (
        member "items"
          (array (
            item
              (object (
                member "column_values"
                  (array (item (object (member "text" (text label) no_members)) no_items))
                  no_members))
              no_items))
          no_members))
      no_members)

-- The answer to a write of columns.
abbrev changed_members : Members
changed_members =
    member "data"
      (object (
        member "change_multiple_column_values" (object (member "id" (text "42") no_members))
          no_members))
      no_members

abbrev changed_answer : Json
changed_answer = object changed_members

-- A board as the labels of its items, on which the label of the item "13" cannot be read.
abbrev answer : Request → Exec (String → String) Json
answer (stage_of id) w =
    if id == "13" then (err (value_error "timeout"), w) else (ok (stage_answer (w id)), w)
answer (change_columns id columns) w =
    (ok changed_answer, λ i. if id == i then relabelled (w i) (get col_etapa_bot columns) else w i)
answer _ w = (ok (object no_members), w)

abbrev client : Client (String → String)
client = record { host = host; repr = λ j. ""; post = answer }

relabelled_lem :
    (old : String) (o : Option Value)
    → (relabelled old o ≡ old) ⊎ (o ≡ some (label_value (relabelled old o)))
relabelled_lem old none = inl refl
relabelled_lem old (some (dict (field k (str s) end))) = elim (Bool-cases (k == "label")) [
  | inl same ↦
      inr (rw same (ap (λ j. some (dict (field j (str s) end))) (str_eq→eq k "label" same)))
  | inr differ ↦ inl (rw differ refl)
]
relabelled_lem old (some v) = inl refl

label_read :
    (id l : String) (w : String → String)
    → (get_item_stage_label client id w).0 ≡ ok (some l)
    → l ≡ strip (w id)
unfolding get_item_stage_label ask gql accept accept_members read_label at first find_member
label_read id l w h = elim (Bool-cases (id == "13")) [
  | inl down ↦ absurd (ground (arith, h))
  | inr up ↦ elim (Bool-cases (strip (w id) == "")) [
    | inl empty ↦ absurd (ground (arith, h))
    | inr full ↦ some_injective (ground (arith, h))
  ]
]

abbrev board : Board client
board = record {
  label = λ w id. w id;
  find_law = λ phone id w. refl;
  query_law = λ asked id w. elim (Bool-cases (asked == "13")) [
    | inl down ↦ rw down refl
    | inr up ↦ rw up refl
  ];
  read_law = label_read;
  write_law = λ written id columns w. elim (Bool-cases (written == id)) [
    | inr differ ↦ inl (rw differ refl)
    | inl same ↦ elim (relabelled_lem (w id) (get col_etapa_bot columns)) [
      | inl kept ↦ inl (rw same kept)
      | inr given ↦ inr (str_eq→eq written id same, rw same given)
    ]
  ];
}

-- Every item is at the first stage.
abbrev new_items : String → String
new_items id = "Nuevo"

moved : (change_stage client "42" "greeting" none none new_items).1 "42" ≡ "Conversando"
unfolding change_stage resolve_stage_label strip lstrip is_space lookup stage_target move_target
    get_item_stage_label ask gql accept accept_members read_label at first find_member move_item
    is_blocked can_advance_stage get
moved = refl

-- An item at the last stage goes back where its label cannot be read, and only there.
abbrev done_items : String → String
done_items id = "Handoff Hecho"

unread_moves_back : (change_stage client "13" "new_lead" none none done_items).1 "13" ≡ "Nuevo"
unfolding change_stage resolve_stage_label strip lstrip is_space lookup stage_target move_target
    get_item_stage_label ask gql accept accept_members read_label at first find_member move_item
    is_blocked can_advance_stage get
unread_moves_back = refl

read_stays : (change_stage client "42" "new_lead" none none done_items).1 "42" ≡ "Handoff Hecho"
unfolding change_stage resolve_stage_label strip lstrip is_space lookup stage_target move_target
    get_item_stage_label ask gql accept accept_members read_label at first find_member move_item
    is_blocked can_advance_stage get
read_stays = refl

change_stage-Forward_example :
    let found = stage_target client "42" none new_items in
    let w' = (change_stage client "42" "greeting" none none new_items).1 in
    (w' "42" ≡ "Nuevo")
    ⊎ (Forward (strip "Nuevo") (strip (w' "42"))
        ⊎ ((found.0 ≡ ok (some "42"))
            × ((get_item_stage_label client "42" found.1).0 ≡ ok none)
            × (w' "42" ≡ resolve_stage_label host.stage_map "greeting")))
change_stage-Forward_example =
    change_stage-Forward client board "42" "42" "greeting" none none new_items

abbrev sent_before : Fields
sent_before = field "text_mm2k3epp" (str "55") (field "color_mm2kvwdj" (str "{}") end)

abbrev wanted : Fields
wanted = field "text_mm2k3epp" (str "56") (field "text_mm2ktbs7" (str "camion") end)

-- A board that counts the requests and accepts them all.
abbrev counting : Client ℕ
counting = record { host = host; repr = λ j. ""; post = λ request n. (ok changed_answer, n + 1) }

abbrev lead : Lead
lead = record {
  external_id = some "42";
  phone = "55";
  name = "Ana";
  stage = "";
  source = "";
  attributes = field "fsm_state" (str "idle") end;
}

lead_known : known_id counting lead ≡ some "42"
unfolding known_id strip lstrip is_space
lead_known = refl

abbrev left_attributes : Fields
left_attributes =
    put "monday_col_snapshot"
      (dict (snapshot_lead_columns host (synced (request_columns host lead))))
      (put "monday_id" (str "42") lead.attributes)

lead_sent : upsert_lead counting lead 0 ≡ (ok ("42", left_attributes), 1)
unfolding upsert_lead known_id strip lstrip is_space find_unless_known write_lead update_item
    send_columns with_fallback gql accept accept_members at find_member get lookup
lead_sent = refl

-- The same board when it is out of service: nothing is asked of it.
abbrev silent : Client ℕ
silent = record counting { post = λ request n. (err (value_error "timeout"), n + 1) }

upsert_lead-again_example :
    upsert_lead silent (record lead { attributes = left_attributes }) 5
    ≡ (ok ("42", put "monday_id" (str "42") left_attributes), 5)
upsert_lead-again_example =
    upsert_lead-again counting silent lead "42" "42" left_attributes 0 1 5 refl lead_known lead_sent

stage_column : get col_etapa_bot (synced (request_columns host lead)) ≡ some (label_value "Nuevo")
unfolding synced request_columns filter_fields merge get base_columns fixed_columns attr_as_text
    optional_columns resolve_stage_label strip lstrip is_space lookup
stage_column = refl

upsert_lead-overwrites_example :
    (if (upsert_lead counting lead 0).1 == 0 then "Handoff Hecho" else "Nuevo")
    ≡ resolve_stage_label host.stage_map (attr_as_text host lead "fsm_state")
unfolding get attr_as_text strip lstrip is_space at find_member
upsert_lead-overwrites_example =
    upsert_lead-overwrites counting (λ n id. if n == 0 then "Handoff Hecho" else "Nuevo") lead "42"
      changed_members 0 1 lead_known refl refl refl refl
      (λ l h. ap (relabelled "") (sym stage_column ∙ h))
