-- ===== src/Crm/Monday/Api.antt =====
-- The queries of adapters/crm/monday_adapter.py and what it reads in the answers, over the HTTP call.
use super_agent_platform.Base.{
  strip, ℕ, String, ◌+++◌, Bool, true, false, Option, none, some, ◌==◌, if◌then◌else◌, Fields, Exec,
  pure, raise, catch, ◌>>=◌, value_error, ℕ_eq, String_eq,
}
use super_agent_platform.Crm.Monday.Columns.{Host, normalize_phone}

-- The JSON of an answer; `scalar` is null, a Boolean or a number, by a number that stands for it.
mutual
  pub data Json : Type 0 where
    text : String → Json
    scalar : ℕ → Json
    array : Items → Json
    object : Members → Json

  pub data Items : Type 0 where
    no_items : Items
    item : Json → Items → Items

  pub data Members : Type 0 where
    no_members : Members
    member : String → Json → Members → Members

-- The queries and mutations of the adapter, with their variables.
pub data Request : Type 0 where
  find_by_phone : String → Request
  stage_of : String → Request
  change_columns : String → Fields → Request
  create_item : String → Fields → Request
  create_update : String → String → Request

unfoldable pub find_member : String → Members → Option Json
find_member k no_members = none
find_member k (member j v rest) = if j == k then some v else find_member k rest

-- `v.get(k)` where `v` is a `dict`.
unfoldable pub at : String → Option Json → Option Json
unfolding find_member
at k (some (object pairs)) = find_member k pairs
at k _ = none

-- `v[0]` where `v` is a `list` that has an item.
unfoldable pub first : Option Json → Option Json
first (some (array (item v _))) = some v
first _ = none

-- `v` where it is a `str`.
abbrev pub as_text : Option Json → Option String
as_text (some (text s)) = some s
as_text _ = none

abbrev pub is_object : Option Json → Bool
is_object (some (object _)) = true
is_object _ = false

-- `s or None`
abbrev pub non_empty : String → Option String
non_empty s = if s == "" then none else some s

-- The host, `str` of the parsed JSON, and the HTTP call with its `raise_for_status` and `json`.
pub record Client (S : Type 0) : Type 0 where
  pub host : Host
  pub repr : Json → String
  pub post : Request → Exec S Json

module _ {S : Type 0} (client : Client S) where
  -- The message of the errors that an answer lists.
  unfoldable pub error_message : Option Json → String
  unfolding at
  error_message (some (array (item (text s) _))) = s
  error_message (some (array (item (object pairs) _))) = elim (at "message" (some (object pairs))) [
    | some (text s) ↦ s
    | some v ↦ client.repr v
    | none ↦ client.repr (object pairs)
  ]
  error_message (some (array (item v _))) = client.repr v
  error_message _ = "unknown error"

  -- The errors of an answer are raised.
  unfoldable pub accept_members : Members → Option Json → Exec S Json
  unfolding error_message
  accept_members pairs none = pure (object pairs)
  accept_members pairs (some errors) =
      raise (value_error ("Monday GraphQL error: " +++ error_message (some errors)))

  -- What `_gql` makes of an answer.
  unfoldable pub accept : Json → Exec S Json
  unfolding at accept_members
  accept (object pairs) = accept_members pairs (at "errors" (some (object pairs)))
  accept _ = raise (value_error "Monday GraphQL error: invalid JSON payload")

  -- `_gql`
  unfoldable pub gql : Request → Exec S Json
  unfolding accept
  gql request = client.post request >>= accept

  -- A query of which an error is logged and answered by `None`.
  unfoldable pub ask : Request → (Json → Option String) → Exec S (Option String)
  unfolding gql
  ask request read = catch (gql request >>= λ answer. pure (read answer)) (λ e. pure none)

  -- What `_find_item_by_phone` reads in an answer.
  unfoldable pub found_id : Json → Option String
  unfolding at first
  found_id answer =
      as_text
        (at "id" (first (at "items" (at "items_page_by_column_values" (at "data" (some answer))))))

  -- `_find_item_by_phone`
  unfoldable pub find_item_by_phone : String → Exec S (Option String)
  unfolding normalize_phone ask found_id
  find_item_by_phone phone =
      let normalized_phone = normalize_phone client.host phone in
      if normalized_phone == "" then pure none else ask (find_by_phone normalized_phone) found_id

  -- `text.strip() or None` of a text that is there.
  abbrev pub label_text : Option String → Option String
  label_text none = none
  label_text (some s) = non_empty (strip s)

  -- What `_get_item_stage_label` reads in an answer.
  unfoldable pub read_label : Json → Option String
  unfolding at first
  read_label answer = label_text (
      as_text
        (at "text" (first (at "column_values" (first (at "items" (at "data" (some answer))))))))

  -- `_get_item_stage_label`; the time limit is one of the ways in which `post` may raise.
  unfoldable pub get_item_stage_label : String → Exec S (Option String)
  unfolding ask read_label
  get_item_stage_label item_id = ask (stage_of item_id) read_label
