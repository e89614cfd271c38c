-- ===== src/Crm/Monday/Sync.antt =====
-- What an incremental write does: `_diff_columns` of adapters/crm/monday_adapter.py.
use super_agent_platform.Base.{
  get, put, merge, String, ◌≡◌, refl, sym, ap, ◌∙◌, subst, inl, inr, Bool, true, false, not, Option,
  none, some, arith, eq_iff, eq_refl, ◌==◌, if◌then◌else◌, or_else, Bool-cases, str_eq→eq, all,
  Value, Fields, get-put, end, field, ℕ_eq, String_eq,
}
use super_agent_platform.Crm.Monday.Columns.{
  filter_fields, Host, serialize_column_value, snapshot_lead_columns, is_changed, diff_columns,
}

-- Each key of the dictionary occurs once, as in every `dict`.
unfoldable pub Distinct : Fields → Type 0
unfolding get
Distinct end = Unit
Distinct (field k v d) = (get k d ≡ none) × Distinct d

-- A value that passes.
abbrev pub checked : (Value → Bool) → Option Value → Option Value
checked p none = none
checked p (some v) = if p v then some v else none

get-filter_fields-none :
    (p : String → Value → Bool) (k : String) (d : Fields)
    → get k d ≡ none
    → get k (filter_fields p d) ≡ none
unfolding filter_fields get
get-filter_fields-none p k end h = refl
get-filter_fields-none p k (field j v d) h =
    ground (arith, eq_iff j k, get-filter_fields-none p k d)

pub get-filter_fields :
    (p : String → Value → Bool) (k : String) (d : Fields)
    → Distinct d
    → get k (filter_fields p d) ≡ checked (p k) (get k d)
unfolding filter_fields get Distinct
get-filter_fields p k end h = refl
get-filter_fields p k (field j v d) (once, h) = elim (Bool-cases (j == k)) [
  | inl same ↦
      let e = str_eq→eq j k same in
      let rest : get k (filter_fields p d) ≡ none =
        get-filter_fields-none p k d (subst (λ i. get i d ≡ none) e once) in
      subst
        (λ i.
          get k (if p i v then field i v (filter_fields p d) else filter_fields p d)
          ≡ checked (p k) (if i == k then some v else get k d))
        (sym e) (ground (arith, eq_refl k, rest))
  | inr differ ↦ ground (arith, eq_iff j k, get-filter_fields p k d h)
]

pub get-merge :
    (k : String) (d e : Fields) → Distinct e → get k (merge d e) ≡ or_else (get k e) (get k d)
unfolding merge get Distinct
get-merge k d end h = refl
get-merge k d (field j v e) (once, h) = elim (Bool-cases (j == k)) [
  | inl same ↦
      let i = str_eq→eq j k same in
      let missing : get k e ≡ none = subst (λ i. get i e ≡ none) i once in
      rw (get-merge k (put j v d) e h, get-put j k v d, same, missing) refl
  | inr differ ↦ rw (get-merge k (put j v d) e h, get-put j k v d, differ) refl
]

pub Distinct-filter_fields :
    (p : String → Value → Bool) (d : Fields) → Distinct d → Distinct (filter_fields p d)
unfolding filter_fields Distinct
Distinct-filter_fields p end h = tt
Distinct-filter_fields p (field k v d) (once, h) =
    elim (p k v)
      as (λ b. Distinct (if b then field k v (filter_fields p d) else filter_fields p d)) [
        | true ↦ (get-filter_fields-none p k d once, Distinct-filter_fields p d h)
        | false ↦ Distinct-filter_fields p d h
      ]

pub Distinct-put : (k : String) (v : Value) (d : Fields) → Distinct d → Distinct (put k v d)
unfolding put get Distinct
Distinct-put k v end h = (refl, tt)
Distinct-put k v (field j w d) (once, h) = elim (Bool-cases (j == k)) [
  | inl same ↦ rw (same, put) (once, h)
  | inr differ ↦
      rw (differ, put)
        (ground (arith, get-put k j v d, eq_iff k j, eq_iff j k, once), Distinct-put k v d h)
]

pub Distinct-merge : (d e : Fields) → Distinct d → Distinct (merge d e)
unfolding merge
Distinct-merge d end h = h
Distinct-merge d (field k v e) h = Distinct-merge (put k v d) e (Distinct-put k v d h)

-- Every entry is in the other dictionary.
Covers : Fields → Fields → Type 0
Covers all end = Unit
Covers all (field k v d) = (get k all ≡ some v) × Covers all d

Covers-field :
    (k : String) (v : Value) (all d : Fields)
    → get k d ≡ none
    → Covers all d
    → Covers (field k v all) d
unfolding Covers get
Covers-field k v all end h c = tt
Covers-field k v all (field j w d) h (at_j, c) =
    (ground (arith, eq_iff k j, eq_iff j k), Covers-field k v all d (ground arith) c)

Distinct-Covers : (d : Fields) → Distinct d → Covers d d
unfolding Covers Distinct get
Distinct-Covers end h = tt
Distinct-Covers (field k v d) (once, h) =
    (ground (arith, eq_refl k), Covers-field k v d d once (Distinct-Covers d h))

module _ (host : Host) where
  get-snapshot_lead_columns :
      (k : String) (d : Fields)
      → serialize_column_value host (get k (snapshot_lead_columns host d))
        ≡ serialize_column_value host (get k d)
  unfolding snapshot_lead_columns get serialize_column_value
  get-snapshot_lead_columns k end = refl
  get-snapshot_lead_columns k (field j v d) = elim (Bool-cases (j == k)) [
    | inl same ↦ rw (same, get) refl
    | inr differ ↦ rw (differ, get) (get-snapshot_lead_columns k d)
  ]

  none_changed :
      (all d : Fields)
      → Covers all d
      → filter_fields (is_changed host (snapshot_lead_columns host all)) d ≡ end
  unfolding filter_fields Covers
  none_changed all end c = refl
  none_changed all (field k v d) (at_k, c) =
      let sent = serialize_column_value host (some v) in
      let same : is_changed host (snapshot_lead_columns host all) k v ≡ false =
        ap (λ s. not (s == sent))
          (get-snapshot_lead_columns k all ∙ ap (serialize_column_value host) at_k)
        ∙ ap not (eq_refl sent) in
      rw same (none_changed all d c)

  -- Nothing differs from the snapshot of what is sent.
  pub diff_columns-snapshot :
      (d : Fields) → Distinct d → diff_columns host (snapshot_lead_columns host d) d ≡ end
  unfolding diff_columns snapshot_lead_columns
  diff_columns-snapshot end h = refl
  diff_columns-snapshot (field k v d) h =
      none_changed (field k v d) (field k v d) (Distinct-Covers (field k v d) h)
