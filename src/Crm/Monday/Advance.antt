-- ===== src/Crm/Monday/Advance.antt =====
-- `change_stage` of adapters/crm/monday_adapter.py on a board.
use super_agent_platform.Crm.Monday.Api.{
  Json, non_empty, Client, accept_members, found_id, find_item_by_phone, read_label,
  get_item_stage_label, find_by_phone, stage_of, change_columns, Request, at, accept, gql, ask,
  text, scalar, array, object,
}
use super_agent_platform.Base.{
  strip, get, String, ◌≡◌, refl, sym, ap, ◌∙◌, subst, ◌⊎◌, inl, inr, Bool, true, false, Option,
  none, some, arith, ◌==◌, if◌then◌else◌, get_or, strip_idem, Value, Fields, str, dict, field,
  Result, pure, bind_result, ◌>>=◌, ◌>>◌, skip, >>=-state, catch-state, ok, err, ℕ_eq, String_eq,
}
use super_agent_platform.Crm.Monday.Stages.{resolve_stage_label, Forward, can_advance-Forward}
use super_agent_platform.Crm.Monday.Columns.{col_etapa_bot, label_value, normalize_phone, isdigit}
use super_agent_platform.Crm.Monday.Adapter.{
  target_by_phone, stage_target, stage_columns, is_blocked, move_item, move_target, change_stage,
}

-- The label that a column value sets.
abbrev label_in : Option Value → String
label_in (some (dict (field _ (str s) _))) = s
label_in _ = ""

-- A board, by the label of each item: a query keeps the labels, a label that is read in an answer is
-- that of the item, and a write of columns keeps the labels but for its own item, which it may give
-- its own label. A query may fail or give no label.
pub record Board {S : Type 0} (client : Client S) : Type 0 where
  pub label : S → String → String
  pub find_law :
      (phone id : String) (w : S) → label (client.post (find_by_phone phone) w).1 id ≡ label w id
  pub query_law :
      (asked id : String) (w : S) → label (client.post (stage_of asked) w).1 id ≡ label w id
  pub read_law :
      (id l : String) (w : S)
      → (get_item_stage_label client id w).0 ≡ ok (some l)
      → l ≡ strip (label w id)
  pub write_law :
      (written id : String) (columns : Fields) (w : S)
      → (label (client.post (change_columns written columns) w).1 id ≡ label w id)
        ⊎ ((written ≡ id)
            × (get col_etapa_bot columns
                ≡ some (label_value (label (client.post (change_columns written columns) w).1 id))))

module _ {S : Type 0} (client : Client S) where
  -- What is made of an answer keeps the state.
  accept-state : (answer : Json) (w : S) → (accept client answer w).1 ≡ w
  unfolding accept accept_members
  accept-state (object pairs) w = go (at "errors" (some (object pairs)))
    where
      go : (errors : Option Json) → (accept_members client pairs errors w).1 ≡ w
      go none = refl
      go (some errors) = refl
  accept-state (text s) w = refl
  accept-state (scalar n) w = refl
  accept-state (array items) w = refl

  -- A request acts on the state as the HTTP call does.
  pub gql-state : (request : Request) (w : S) → (gql client request w).1 ≡ (client.post request w).1
  unfolding gql
  gql-state request w = >>=-state (client.post request) (accept client) w accept-state

  ask-state :
      (request : Request) (read : Json → Option String) (w : S)
      → (ask client request read w).1 ≡ (client.post request w).1
  unfolding ask
  ask-state request read w =
      catch-state (gql client request >>= λ answer. pure (read answer)) (λ e. pure none) w
        (λ e v. refl)
      ∙ >>=-state (gql client request) (λ answer. pure (read answer)) w (λ a v. refl)
      ∙ gql-state request w

  -- Where the labels of the items are kept.
  module _ (board : Board client) (id : String) where
    find-label :
        (phone : String) (w : S)
        → board.label (find_item_by_phone client phone w).1 id ≡ board.label w id
    unfolding find_item_by_phone
    find-label phone w =
        let n = normalize_phone client.host phone in
        elim (n == "")
          as (λ b.
            board.label
              ((if b then pure none else ask client (find_by_phone n) (found_id client)) w).1 id
            ≡ board.label w id) [
              | true ↦ refl
              | false ↦
                  ap (λ v. board.label v id) (ask-state (find_by_phone n) (found_id client) w)
                  ∙ board.find_law n id w
            ]

    by_phone-label :
        (phone : Option String) (w : S)
        → board.label (target_by_phone client phone w).1 id ≡ board.label w id
    unfolding target_by_phone
    by_phone-label none w = refl
    by_phone-label (some phone) w =
        elim (phone == "")
          as (λ b.
            board.label
              ((if b
                  then pure none
                  else (find_item_by_phone client phone >>= λ found.
                      pure (non_empty (get_or found ""))))
                w).1
              id
            ≡ board.label w id) [
              | true ↦ refl
              | false ↦
                  ap (λ v. board.label v id)
                    (>>=-state (find_item_by_phone client phone)
                      (λ found. pure (non_empty (get_or found ""))) w (λ a v. refl))
                  ∙ find-label phone w
            ]

    target-label :
        (lead_id : String) (phone : Option String) (w : S)
        → board.label (stage_target client lead_id phone w).1 id ≡ board.label w id
    unfolding stage_target
    target-label lead_id phone w =
        elim (isdigit client.host lead_id)
          as (λ b.
            board.label ((if b then pure (some lead_id) else target_by_phone client phone) w).1 id
            ≡ board.label w id) [ true ↦ refl | false ↦ by_phone-label phone w ]

    write-cases :
        (written label : String) (w : S)
        → let w' = (client.post (change_columns written (stage_columns client label)) w).1 in
          (board.label w' id ≡ board.label w id) ⊎ ((written ≡ id) × (board.label w' id ≡ label))
    unfolding get
    write-cases written label w = elim (board.write_law written id (stage_columns client label) w) [
      | inl same ↦ inl same
      | inr (own, wrote) ↦ inr (own, sym (ap label_in wrote))
    ]

    -- The label of the item is kept, or the stage was not blocked and the item has its label.
    move-cases :
        (written label : String) (current : Option String) (w : S)
        → let w' = (move_item client written label current w).1 in
          (board.label w' id ≡ board.label w id)
          ⊎ ((is_blocked client current label ≡ false)
              × (written ≡ id)
              × (board.label w' id ≡ label))
    unfolding move_item
    move-cases written label current w = go (is_blocked client current label) refl
      where
        go :
            (b : Bool)
            → is_blocked client current label ≡ b
            → let w' =
                ((if b
                    then skip
                    else (gql client (change_columns written (stage_columns client label)) >> skip))
                  w).1 in
              (board.label w' id ≡ board.label w id)
              ⊎ ((is_blocked client current label ≡ false)
                  × (written ≡ id)
                  × (board.label w' id ≡ label))
        go true blocked = inl refl
        go false free =
            let same =
              >>=-state (gql client (change_columns written (stage_columns client label)))
                (λ x. skip) w (λ a v. refl)
              ∙ gql-state (change_columns written (stage_columns client label)) w in
            let kept = ap (λ v. board.label v id) same in
            elim (write-cases written label w) [
              | inl stays ↦ inl (kept ∙ stays)
              | inr (own, wrote) ↦ inr (free, own, kept ∙ wrote)
            ]

    read-label :
        (asked : String) (w : S)
        → board.label (get_item_stage_label client asked w).1 id ≡ board.label w id
    unfolding get_item_stage_label
    read-label asked w =
        ap (λ v. board.label v id) (ask-state (stage_of asked) (read_label client) w)
        ∙ board.query_law asked id w

    free-Forward :
        (before label : String)
        → is_blocked client (some (strip before)) label ≡ false
        → Forward (strip before) (strip label)
    unfolding is_blocked
    free-Forward before label h =
        subst (λ s. Forward s (strip label)) (strip_idem before)
          (can_advance-Forward (strip before) label (ground (arith, h)))

    -- The label of the item before and after a call that was to move an item.
    abbrev Moved : String → Option String → S → S → Type 0
    Moved label target w w' =
        (board.label w' id ≡ board.label w id)
        ⊎ (Forward (strip (board.label w id)) (strip (board.label w' id))
            ⊎ ((target ≡ some id)
                × ((get_item_stage_label client id w).0 ≡ ok none)
                × (board.label w' id ≡ label)))

    target-Moved :
        (label : String) (target : Option String) (w : S)
        → Moved label target w (move_target client label target w).1
    unfolding move_target
    target-Moved label none w = inl refl
    target-Moved label (some written) w =
        go (get_item_stage_label client written w) (λ l. board.read_law written l w)
          (read-label written w) refl
      where
        go :
            (r : Result (Option String) × S)
            → ((l : String) → r.0 ≡ ok (some l) → l ≡ strip (board.label w written))
            → board.label r.1 id ≡ board.label w id
            → (get_item_stage_label client written w).0 ≡ r.0
            → Moved label (some written) w (bind_result r (move_item client written label)).1
        go (err e, v) right kept same = inl kept
        go (ok none, v) right kept same = elim (move-cases written label none v) [
          | inl stays ↦ inl (stays ∙ kept)
          | inr (free, own, wrote) ↦ inr (
              inr (
                ap some own,
                subst (λ i. (get_item_stage_label client i w).0 ≡ ok none) own same,
                wrote,
              ))
        ]
        go (ok (some l), v) right kept same = elim (move-cases written label (some l) v) [
          | inl stays ↦ inl (stays ∙ kept)
          | inr (free, own, wrote) ↦ inr (
              inl (
                subst (λ s. Forward (strip (board.label w id)) (strip s)) (sym wrote)
                  (subst (λ i. Forward (strip (board.label w i)) (strip label)) own
                    (free-Forward (board.label w written) label (
                      subst (λ c. is_blocked client (some c) label ≡ false) (right l refl) free)))))
        ]

    -- A call of `change_stage` leaves the label of an item as it is, or moves it as the hierarchy
    -- allows: to a later stage, from or to a label outside the hierarchy, or from "Handoff Hecho"
    -- to "Conversando"; or the item is the one that the call is about, the query for its label gave
    -- none, because it failed or found none, and the item has the label of the stage asked for.
    -- This holds also where the call raises, on a board where a label that is read is the item's.
    pub change_stage-Forward :
        (lead_id new_stage : String) (reason phone : Option String) (w : S)
        → let found = stage_target client lead_id phone w in
          let w' = (change_stage client lead_id new_stage reason phone w).1 in
          (board.label w' id ≡ board.label w id)
          ⊎ (Forward (strip (board.label w id)) (strip (board.label w' id))
              ⊎ ((found.0 ≡ ok (some id))
                  × ((get_item_stage_label client id found.1).0 ≡ ok none)
                  × (board.label w' id ≡ resolve_stage_label client.host.stage_map new_stage)))
    unfolding change_stage
    change_stage-Forward lead_id new_stage reason phone w =
        go (stage_target client lead_id phone w) (target-label lead_id phone w)
      where
        go :
            (r : Result (Option String) × S)
            → board.label r.1 id ≡ board.label w id
            → let label = resolve_stage_label client.host.stage_map new_stage in
              let w' = (bind_result r (move_target client label)).1 in
              (board.label w' id ≡ board.label w id)
              ⊎ (Forward (strip (board.label w id)) (strip (board.label w' id))
                  ⊎ ((r.0 ≡ ok (some id))
                      × ((get_item_stage_label client id r.1).0 ≡ ok none)
                      × (board.label w' id ≡ label)))
        go (err e, v) same = inl same
        go (ok target, v) same =
            let label = resolve_stage_label client.host.stage_map new_stage in
            let w' = (move_target client label target v).1 in
            elim (target-Moved label target v) [
              | inl stays ↦ inl (stays ∙ same)
              | inr (inl forward) ↦
                  inr
                    (inl (subst (λ l. Forward (strip l) (strip (board.label w' id))) same forward))
              | inr (inr (about, unread, wrote)) ↦ inr (inr (ap ok about, unread, wrote))
            ]
