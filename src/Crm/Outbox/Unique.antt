-- ===== src/Crm/Outbox/Unique.antt =====
-- The keys of the outbox table of adapters/storage/repositories/crm_outbox_repo.py.
use super_agent_platform.Base.{
  ℕ, ◌+◌, ◌≤◌, String, ◌≡◌, refl, subst, inl, inr, Bool, true, false, not, ◌&&◌, List, [], ◌∷◌,
  ◌++◌, map, arith, eq_iff, ◌==◌, Bool-cases, nat_eq→eq, nat_eq_refl, any, count_if, count_if_mono,
  count_if-map, count_if-append, any-false, count_if-le-length, ℕ_eq, String_eq,
}
use super_agent_platform.Crm.Outbox.{OutboxItem, is_pending, pending_at, has_id, replace, clashes}

abbrev pub UniqueIds : List OutboxItem → Type 0
UniqueIds rows = (i : ℕ) → count_if (has_id i) rows ≤ 1

abbrev pub UniqueKeys : List OutboxItem → Type 0
UniqueKeys rows =
    (aggregate : ℕ) (operation : String) → count_if (pending_at aggregate operation) rows ≤ 1

-- No identifier is there twice, and no two pending rows have one aggregate and operation.
pub record IsValid (rows : List OutboxItem) : Type 0 where
  pub ids : UniqueIds rows
  pub keys : UniqueKeys rows

-- A rewriting of rows that keeps identifiers and keys and makes no row pending.
pub map-IsValid :
    (f : OutboxItem → OutboxItem) (rows : List OutboxItem)
    → ((r : OutboxItem) → (f r).id ≡ r.id)
    → ((r : OutboxItem) (a : ℕ) (op : String)
        → pending_at a op (f r) ≡ true
        → pending_at a op r ≡ true)
    → IsValid rows
    → IsValid (map f rows)
map-IsValid f rows same_id keeps h = record {
  ids = λ i. omega (
    arith,
    h.ids i,
    count_if-map {0, 0} (has_id i) f rows,
    count_if_mono {0} (λ r. has_id i (f r)) (has_id i)
        (λ r p. subst (λ (j : ℕ). (j == i) ≡ true) (same_id r) p) rows,
  );
  keys = λ a op. omega (
    arith,
    h.keys a op,
    count_if-map {0, 0} (pending_at a op) f rows,
    count_if_mono {0} (λ r. pending_at a op (f r)) (pending_at a op) (λ r. keeps r a op) rows,
  );
}

replace-ids :
    (new : OutboxItem) (i : ℕ) (rows : List OutboxItem)
    → count_if (has_id i) (replace new rows) ≡ count_if (has_id i) rows
unfolding replace
replace-ids new i [] = refl
replace-ids new i (r ∷ rows) = ground (arith, replace-ids new i rows)

-- Where the written row fails a test, the rows that pass are among those that passed.
replace-fails :
    (p : OutboxItem → Bool) (new : OutboxItem) (rows : List OutboxItem)
    → p new ≡ false
    → count_if p (replace new rows) ≤ count_if p rows
unfolding replace
replace-fails p new [] h = omega arith
replace-fails p new (r ∷ rows) h = ground (arith, replace-fails p new rows h)

-- Else they are the others that pass, and the written row where its identifier stands.
replace-passes :
    (p : OutboxItem → Bool) (new : OutboxItem) (rows : List OutboxItem)
    → count_if p (replace new rows)
      ≤ count_if (λ r. not (r.id == new.id) && p r) rows + count_if (has_id new.id) rows
unfolding replace
replace-passes p new [] = omega arith
replace-passes p new (r ∷ rows) = ground (arith, replace-passes p new rows)

-- A write that makes a row pending keeps the keys unique where no other row clashes.
replace-keys :
    (new : OutboxItem) (rows : List OutboxItem)
    → IsValid rows
    → (is_pending new.status ≡ true → any (clashes new) rows ≡ false)
    → UniqueKeys (replace new rows)
replace-keys new rows h free a op = elim (Bool-cases (pending_at a op new)) [
  | inr fails ↦ omega (arith, h.keys a op, replace-fails (pending_at a op) new rows fails)
  | inl passes ↦
      let same_a : new.aggregate_id ≡ a = ground arith in
      let same_op : new.operation ≡ op = ground (arith, eq_iff new.operation op) in
      let none_else : count_if (clashes new) rows ≡ 0 =
        any-false (clashes new) rows (free (ground arith)) in
      subst (λ b. count_if (pending_at b op) (replace new rows) ≤ 1) same_a
        (subst (λ o. count_if (pending_at new.aggregate_id o) (replace new rows) ≤ 1) same_op
          (omega (
            arith,
            none_else,
            h.ids new.id,
            replace-passes (pending_at new.aggregate_id new.operation) new rows,
          )))
]

pub replace-IsValid :
    (new : OutboxItem) (rows : List OutboxItem)
    → IsValid rows
    → (is_pending new.status ≡ true → any (clashes new) rows ≡ false)
    → IsValid (replace new rows)
replace-IsValid new rows h free = record {
  ids = λ i. omega (arith, h.ids i, replace-ids new i rows);
  keys = replace-keys new rows h free;
}

-- A new pending row with a fresh identifier, at a key that has none.
pub append-IsValid :
    (new : OutboxItem) (rows : List OutboxItem)
    → IsValid rows
    → count_if (has_id new.id) rows ≡ 0
    → count_if (pending_at new.aggregate_id new.operation) rows ≡ 0
    → IsValid (rows ++ new ∷ [])
append-IsValid new rows h fresh free = record {
  ids = λ i. elim (Bool-cases (new.id == i)) [
    | inl same ↦
        subst (λ (j : ℕ). count_if (has_id j) (rows ++ new ∷ []) ≤ 1) (nat_eq→eq new.id i same)
          (ground
            (arith, fresh, count_if-append (has_id new.id) rows (new ∷ []), nat_eq_refl new.id))
    | inr differs ↦ ground (arith, h.ids i, count_if-append (has_id i) rows (new ∷ []))
  ];
  keys = λ a op. elim (Bool-cases (pending_at a op new)) [
    | inl passes ↦
        let same_a : new.aggregate_id ≡ a = ground arith in
        let same_op : new.operation ≡ op = ground (arith, eq_iff new.operation op) in
        subst (λ b. count_if (pending_at b op) (rows ++ new ∷ []) ≤ 1) same_a
          (subst (λ o. count_if (pending_at new.aggregate_id o) (rows ++ new ∷ []) ≤ 1) same_op
            (omega (
              arith,
              free,
              count_if-append {0} (pending_at new.aggregate_id new.operation) rows (new ∷ []),
              count_if-le-length (pending_at new.aggregate_id new.operation) (new ∷ []),
            )))
    | inr fails ↦ ground (arith, h.keys a op, count_if-append (pending_at a op) rows (new ∷ []))
  ];
}
