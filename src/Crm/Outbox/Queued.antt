-- ===== src/Crm/Outbox/Queued.antt =====
-- What `enqueue_operation` of adapters/storage/repositories/crm_outbox_repo.py leaves in the table.
use super_agent_platform.Crm.Outbox.Unique.{UniqueIds, IsValid}
use super_agent_platform.Crm.Outbox.{
  OutboxItem, Outbox, pending_at, new_item, upsert_pending, on_conflict_statement,
  enqueue_operation, refresh, execute, is_due, has_id,
}
use super_agent_platform.Base.{
  ℕ, String, ◌≡◌, refl, ap, ◌∙◌, ◌⊎◌, inl, inr, Bool, true, false, not, none, some, List, [], ◌∷◌,
  ◌++◌, map, arith, eq_refl, if◌then◌else◌, Bool-cases, nat_eq_refl, Option-cases, count_if,
  keep_if, find_first, Occurs, count_if-append, find_first-none, find_first-some, find_first-map,
  Occurs-count, Occurs-unique, Fields, ok,
}

-- The operation of a key waits, in the row of an identifier: one row of the key is pending, it has
-- the payload, no attempts, and is due at any time; it is the row that was pending before, where
-- there was one; and the rows that are not pending at the key are as they were.
pub record Queued (item_id aggregate : ℕ) (operation : String) (payload : Fields)
    (rows rows' : List OutboxItem) (i : ℕ) : Type 0 where
  pub item : OutboxItem
  pub row : find_first (has_id i) rows' ≡ some item
  pub at_key : pending_at aggregate operation item ≡ true
  pub latest : item.payload ≡ payload
  pub attempts : item.attempts ≡ 0
  pub due : (t : ℕ) → is_due t item ≡ true
  pub once : count_if (pending_at aggregate operation) rows' ≡ 1
  pub source :
      ((find_first (pending_at aggregate operation) rows ≡ none) × (i ≡ item_id))
      ⊎ ((p : OutboxItem) × (find_first (pending_at aggregate operation) rows ≡ some p)
          × (i ≡ p.id))
  pub others :
      keep_if (λ r. not (pending_at aggregate operation r)) rows'
      ≡ keep_if (λ r. not (pending_at aggregate operation r)) rows

find_first-append :
    (p : OutboxItem → Bool) (rows : List OutboxItem) (r : OutboxItem)
    → count_if p rows ≡ 0
    → p r ≡ true
    → find_first p (rows ++ r ∷ []) ≡ some r
find_first-append p [] r h passes = ground (arith, passes)
find_first-append p (x ∷ rows) r h passes = ground (arith, find_first-append p rows r)

keep_if-append :
    (p : OutboxItem → Bool) (rows : List OutboxItem) (r : OutboxItem)
    → p r ≡ false
    → keep_if p (rows ++ r ∷ []) ≡ keep_if p rows
keep_if-append p [] r fails = ground (arith, fails)
keep_if-append p (x ∷ rows) r fails = ground (arith, keep_if-append p rows r fails)

-- A row is found by its identifier, where no identifier is there twice.
find_first-has_id :
    (r : OutboxItem) (rows : List OutboxItem)
    → UniqueIds rows
    → Occurs r rows
    → find_first (has_id r.id) rows ≡ some r
find_first-has_id r rows unique inside = elim (Option-cases (find_first (has_id r.id) rows)) [
  | inl missing ↦ absurd (
      omega (
        arith,
        find_first-none (has_id r.id) rows missing,
        Occurs-count (has_id r.id) inside (nat_eq_refl r.id),
      ))
  | inr (x, found) ↦
      let (same, at) = find_first-some (has_id r.id) rows {a = x} found in
      found ∙ ap some (Occurs-unique (has_id r.id) (unique r.id) same (nat_eq_refl r.id) at inside)
]

module _ (item_id aggregate : ℕ) (operation : String) (payload : Fields) (now : ℕ) where
  abbrev refreshed : OutboxItem → OutboxItem
  refreshed s = if pending_at aggregate operation s then refresh payload now s else s

  refreshed-pending_at :
      (s : OutboxItem)
      → pending_at aggregate operation (refreshed s) ≡ pending_at aggregate operation s
  refreshed-pending_at s = ground arith

  keep_if-refreshed :
      (rows : List OutboxItem)
      → keep_if (λ r. not (pending_at aggregate operation r)) (map refreshed rows)
        ≡ keep_if (λ r. not (pending_at aggregate operation r)) rows
  keep_if-refreshed [] = refl
  keep_if-refreshed (r ∷ rows) = elim (Bool-cases (pending_at aggregate operation r)) [
    | inl waits ↦ ground (arith, waits, refreshed-pending_at r, keep_if-refreshed rows)
    | inr settled ↦ ground (arith, settled, keep_if-refreshed rows)
  ]

  count_if-refreshed :
      (rows : List OutboxItem)
      → count_if (pending_at aggregate operation) (map refreshed rows)
        ≡ count_if (pending_at aggregate operation) rows
  count_if-refreshed [] = refl
  count_if-refreshed (r ∷ rows) = rw (refreshed-pending_at r) (rw (count_if-refreshed rows) refl)

  upsert_pending-Queued :
      (rows : List OutboxItem)
      → count_if (has_id item_id) rows ≡ 0
      → IsValid rows
      → let (i, rows') = upsert_pending item_id aggregate operation payload now rows in
        Queued item_id aggregate operation payload rows rows' i
  unfolding upsert_pending
  upsert_pending-Queued rows fresh valid =
      let new = new_item item_id aggregate operation payload now in
      let waits : pending_at aggregate operation new ≡ true =
        ground (arith, nat_eq_refl aggregate, eq_refl operation) in
      elim (Option-cases (find_first (pending_at aggregate operation) rows)) [
        | inl missing ↦
            rw (missing, upsert_pending)
              (record {
                item = new;
                row = find_first-append (has_id item_id) rows new fresh (nat_eq_refl item_id);
                at_key = waits;
                latest = refl;
                attempts = refl;
                due = λ t. refl;
                once = ground (
                  arith,
                  waits,
                  find_first-none (pending_at aggregate operation) rows missing,
                  count_if-append (pending_at aggregate operation) rows (new ∷ []),
                );
                source = inl (missing, refl);
                others =
                    keep_if-append (λ r. not (pending_at aggregate operation r)) rows new
                      (ap not waits);
              })
        | inr (r, found) ↦
            let (at_key, inside) =
              find_first-some (pending_at aggregate operation) rows {a = r} found in
            rw (found, upsert_pending)
              (record {
                item = refresh payload now r;
                row =
                    find_first-map {0} (has_id r.id) refreshed rows r (λ s. ground arith)
                      (find_first-has_id r rows valid.ids inside)
                    ∙ ap some (rw at_key refl);
                at_key = at_key;
                latest = refl;
                attempts = refl;
                due = λ t. ground (arith, at_key);
                once = omega (
                  arith,
                  count_if-refreshed rows,
                  valid.keys aggregate operation,
                  Occurs-count (pending_at aggregate operation) inside at_key,
                );
                source = inr (r, found, refl);
                others = keep_if-refreshed rows;
              })
      ]

-- In a table with the index, without duplicate identifiers or keys, and for a fresh identifier,
-- `enqueue_operation` succeeds, and the operation waits: exactly one row of the key is pending, the
-- one of the identifier that is returned; it has the payload given, no attempts, and is due at any
-- time; it is the row that was pending before, where there was one, else a row of the identifier
-- that was drawn; and the rows that are not pending at the key are as they were.
pub enqueue_operation-Queued :
    (parse_aggregate_id : String → ℕ) (item_id now : ℕ) (aggregate_id operation : String)
    (payload : Fields) (o : Outbox)
    → o.indexed ≡ true
    → count_if (has_id item_id) o.rows ≡ 0
    → IsValid o.rows
    → let (r, o') =
        enqueue_operation parse_aggregate_id item_id now aggregate_id operation payload o in
      (i : ℕ) × (r ≡ ok i)
      × Queued item_id (parse_aggregate_id aggregate_id) operation payload o.rows o'.rows i
unfolding enqueue_operation execute on_conflict_statement
enqueue_operation-Queued parse_aggregate_id item_id now aggregate_id operation payload o index fresh
      valid =
    let aggregate = parse_aggregate_id aggregate_id in
    rw (index, enqueue_operation)
      (
        (upsert_pending item_id aggregate operation payload now o.rows).0,
        refl,
        upsert_pending-Queued item_id aggregate operation payload now o.rows fresh valid,
      )
