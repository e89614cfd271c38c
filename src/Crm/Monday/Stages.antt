-- ===== src/Crm/Monday/Stages.antt =====
-- The stages of a lead on the board: adapters/crm/monday_adapter.py.
use super_agent_platform.Base.{
  strip, lookup, ℕ, suc, ◌<◌, String, ◌≡◌, sym, inl, inr, Bool, true, false, not, ◌&&◌, List, [],
  ◌∷◌, arith, ltb, ◌==◌, if◌then◌else◌, get_or, Bool-cases, str_eq→eq, any, str_or, ℕ_eq, String_eq,
}

abbrev pub reopen_stage_label : String
reopen_stage_label = "Conversando"

abbrev pub default_stage_hierarchy : List String
default_stage_hierarchy =
    "Nuevo" ∷ ("Conversando" ∷ ("Calificando" ∷ ("Listo para Handoff" ∷ ("Handoff Hecho" ∷ []))))

abbrev pub default_terminal_stages : List String
default_terminal_stages = "Handoff Hecho" ∷ []

abbrev pub default_special_stages : List String
default_special_stages = []

-- `x in xs` of a list of texts.
abbrev pub is_in : String → List String → Bool
is_in x xs = any (λ y. y == x) xs

-- `xs.index(x)`, where `x` is in the list.
abbrev pub index_of : String → List String → ℕ
index_of x [] = 0
index_of x (y ∷ ys) = let rest = index_of x ys in if y == x then 0 else suc rest

-- `_can_advance_stage`
unfoldable pub can_advance_stage : String → String → List String → List String → List String → Bool
can_advance_stage current_label new_label hierarchy terminal_stages special_stages =
    let current = strip current_label in
    let new = strip new_label in
    if is_in new special_stages
    then true
    else if is_in current terminal_stages && new == reopen_stage_label
    then true
    else if not (is_in new hierarchy)
    then true
    else if not (is_in current hierarchy)
    then true
    else ltb (index_of current hierarchy) (index_of new hierarchy)

abbrev pub fsm_stage_to_stage_key : List (String × String)
fsm_stage_to_stage_key =
    ("idle", "new_lead")
    ∷ (("greeting", "contacted")
        ∷ (("discovery", "contacted")
            ∷ (("qualification", "qualified")
                ∷ (("catalog_navigation", "quoted")
                    ∷ (("document_delivery", "quoted")
                        ∷ (("objection_handling", "nurture")
                            ∷ (("appointment_flow", "quoted")
                                ∷ (("handoff_pending", "handoff")
                                    ∷ (("handoff_active", "handoff")
                                        ∷ (("cooldown", "nurture")
                                            ∷ (("closed", "lost") ∷ [])))))))))))

-- `_resolve_stage_label`
unfoldable pub resolve_stage_label : List (String × String) → String → String
resolve_stage_label stage_map stage =
    let normalized = strip stage in
    let stage_key = get_or (lookup normalized fsm_stage_to_stage_key) normalized in
    let label = str_or (lookup stage_key stage_map) "" in
    if not (label == "")
    then label
    else if any (λ (e : String × String). e.1 == normalized) stage_map
    then normalized
    else "Nuevo"

-- A move that the hierarchy of the stages allows.
pub data Forward (before after : String) : Type 0 where
  from_outside : is_in before default_stage_hierarchy ≡ false → Forward before after
  to_outside : is_in after default_stage_hierarchy ≡ false → Forward before after
  reopened : before ≡ "Handoff Hecho" → after ≡ "Conversando" → Forward before after
  later :
      index_of before default_stage_hierarchy < index_of after default_stage_hierarchy
      → Forward before after

-- Between two stages of a hierarchy, where the rule for reopening does not apply.
can_advance_later :
    (before after : String) (hierarchy terminal_stages : List String)
    → can_advance_stage before after hierarchy terminal_stages [] ≡ true
    → is_in (strip after) hierarchy ≡ true
    → is_in (strip before) hierarchy ≡ true
    → (is_in (strip before) terminal_stages && strip after == reopen_stage_label) ≡ false
    → index_of (strip before) hierarchy < index_of (strip after) hierarchy
unfolding can_advance_stage
can_advance_later before after hierarchy terminal_stages h known_after known_before new =
    ground arith

-- The check lets through only moves that the hierarchy allows.
pub can_advance-Forward :
    (before after : String)
    → can_advance_stage before after default_stage_hierarchy default_terminal_stages
        default_special_stages
      ≡ true
    → Forward (strip before) (strip after)
can_advance-Forward before after h =
    elim (Bool-cases (is_in (strip after) default_stage_hierarchy)) [
      | inr outside ↦ to_outside outside
      | inl known_after ↦ elim (Bool-cases (is_in (strip before) default_stage_hierarchy)) [
        | inr outside ↦ from_outside outside
        | inl known_before ↦
            elim (Bool-cases
              (is_in (strip before) default_terminal_stages && strip after == reopen_stage_label)) [
                | inl again ↦
                    reopened (sym (str_eq→eq "Handoff Hecho" (strip before) (ground arith)))
                      (str_eq→eq (strip after) "Conversando" (ground arith))
                | inr new ↦ later (
                    can_advance_later before after default_stage_hierarchy default_terminal_stages h
                      known_after known_before new)
              ]
      ]
    ]
