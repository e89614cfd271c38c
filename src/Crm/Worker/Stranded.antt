-- ===== src/Crm/Worker/Stranded.antt =====
-- The claims of a batch of core/services/crm_worker.py.
use super_agent_platform.Crm.Worker.{
  CrmProvider, World, Settings, dispatch_operation, handle_failure, process_item, process_items,
  backoff, settle, process_batch, check_dlq_alerts,
}
use super_agent_platform.Base.{
  ℕ, ◌+◌, String, ◌≡◌, refl, sym, ap, subst, ◌⊎◌, inl, inr, Bool, true, false, ◌&&◌, none, List, [],
  ◌∷◌, map, arith, ltb, ◌==◌, if◌then◌else◌, Bool-cases, nat_eq→eq, Option-cases, any, find_first,
  Occurs, find_first-none, find_first-some, Occurs-count, here, there, Error, message, Result, Exec,
  bind_result, modify, ok, err, ℕ_eq, String_eq,
}
use super_agent_platform.Crm.Outbox.{
  OutboxItem, Status, Outbox, has_id, replace, mark_as_done, clashes, mark_as_failed_with_retry,
  move_to_dlq, processing, due_rows, claim, get_pending_batch,
}

abbrev pub is_processing : Status → Bool
is_processing processing = true
is_processing _ = false

Occurs-map :
    (f : OutboxItem → OutboxItem) (rows : List OutboxItem) (r : OutboxItem)
    → Occurs r (map f rows)
    → (s : OutboxItem) × Occurs s rows × (r ≡ f s)
Occurs-map f [] r o = elim o [ ]
Occurs-map f (s ∷ rows) r here = (s, here, refl)
Occurs-map f (s ∷ rows) r (there o) =
    let (t, inside, e) = Occurs-map f rows r o in (t, there inside, e)

-- The rows in `processing` were there at the start, or are claimed for one of these items.
module _ (start : List OutboxItem) where
  abbrev Accounted : List OutboxItem → List OutboxItem → Type 0
  Accounted items rows =
      (r : OutboxItem)
      → Occurs r rows
      → is_processing r.status ≡ true
      → Occurs r start ⊎ (any (has_id r.id) items ≡ true)

  -- A write that takes the first item out of `processing`.
  replace-Accounted :
      (item new : OutboxItem) (items rows : List OutboxItem)
      → (new.id == item.id) ≡ true
      → is_processing new.status ≡ false
      → Accounted (item ∷ items) rows
      → Accounted items (replace new rows)
  unfolding replace
  replace-Accounted item new items rows same off h r o p =
      let (s, inside, e) = Occurs-map (λ x. if x.id == new.id then new else x) rows r o in
      elim (Bool-cases (s.id == new.id)) [
        | inl written ↦ absurd (ground (arith, ap (λ (x : OutboxItem). is_processing x.status) e))
        | inr kept ↦
            let r_is_s : r ≡ s = ground arith in
            elim (h s inside (subst (λ x. is_processing x.status ≡ true) r_is_s p)) [
              | inl old ↦ inl (subst (λ x. Occurs x start) (sym r_is_s) old)
              | inr claimed ↦ inr (
                  subst (λ x. any (has_id x.id) items ≡ true) (sym r_is_s)
                    (ground (arith, nat_eq→eq new.id item.id same)))
            ]
      ]

  -- No row has the identifier of the first item.
  missing-Accounted :
      (item : OutboxItem) (items rows : List OutboxItem)
      → find_first (has_id item.id) rows ≡ none
      → Accounted (item ∷ items) rows
      → Accounted items rows
  missing-Accounted item items rows missing h r o p = elim (h r o p) [
    | inl old ↦ inl old
    | inr claimed ↦ elim (Bool-cases (item.id == r.id)) [
      | inl same ↦ absurd (
          omega (
            arith,
            find_first-none (has_id item.id) rows missing,
            Occurs-count (has_id item.id) o (ground (arith, nat_eq→eq item.id r.id same)),
          ))
      | inr differs ↦ inr (ground arith)
    ]
  ]

  mark_as_done-Accounted :
      (item : OutboxItem) (now : ℕ) (items : List OutboxItem) (o : Outbox)
      → Accounted (item ∷ items) o.rows
      → Accounted items (mark_as_done item.id now o).rows
  mark_as_done-Accounted item now items o h =
      elim (Option-cases (find_first (has_id item.id) o.rows)) [
        | inl missing ↦
            unfold mark_as_done in
            rw (missing, mark_as_done) (missing-Accounted item items o.rows missing h)
        | inr (model, found) ↦
            unfold mark_as_done in
            rw (found, mark_as_done)
              (replace-Accounted item _ items o.rows
                (find_first-some (has_id item.id) o.rows found).0 refl h)
      ]

  move_to_dlq-Accounted :
      (item : OutboxItem) (e : String) (dlq_id now : ℕ) (items : List OutboxItem) (o : Outbox)
      → Accounted (item ∷ items) o.rows
      → Accounted items (move_to_dlq item.id e dlq_id now o).rows
  move_to_dlq-Accounted item e dlq_id now items o h =
      elim (Option-cases (find_first (has_id item.id) o.rows)) [
        | inl missing ↦
            unfold move_to_dlq in
            rw (missing, move_to_dlq) (missing-Accounted item items o.rows missing h)
        | inr (model, found) ↦
            unfold move_to_dlq in
            rw (found, move_to_dlq)
              (replace-Accounted item _ items o.rows
                (find_first-some (has_id item.id) o.rows found).0 refl h)
      ]

  mark_as_failed_with_retry-Accounted :
      (item : OutboxItem) (e : String) (at attempt now : ℕ) (items : List OutboxItem) (o : Outbox)
      → (mark_as_failed_with_retry item.id e at attempt now o).0 ≡ ok tt
      → Accounted (item ∷ items) o.rows
      → Accounted items (mark_as_failed_with_retry item.id e at attempt now o).1.rows
  mark_as_failed_with_retry-Accounted item e at attempt now items o =
      elim (Option-cases (find_first (has_id item.id) o.rows)) [
        | inl missing ↦
            unfold mark_as_failed_with_retry in
            rw (missing, mark_as_failed_with_retry)
              (λ _ h. missing-Accounted item items o.rows missing h)
        | inr (model, found) ↦
            unfold mark_as_failed_with_retry in
            rw (found, mark_as_failed_with_retry)
              (elim (Bool-cases (o.indexed && any (clashes model) o.rows)) [
                | inl clash ↦ rw clash (λ raised h. absurd (cc))
                | inr free ↦ rw free (λ _ h.
                    replace-Accounted item _ items o.rows
                      (find_first-some (has_id item.id) o.rows found).0 refl h)
              ])
      ]

  module _ {P : Type 0} (provider : CrmProvider P) (settings : Settings) where
    handle_failure-Accounted :
        (item : OutboxItem) (e : Error) (items : List OutboxItem) (w : World P)
        → (handle_failure provider settings item e w).0 ≡ ok tt
        → Accounted (item ∷ items) w.outbox.rows
        → Accounted items (handle_failure provider settings item e w).1.outbox.rows
    handle_failure-Accounted item e items w = elim (Bool-cases (ltb (item.attempts + 1) 3)) [
      | inl again ↦
          unfold handle_failure in
          rw (again, handle_failure)
            (mark_as_failed_with_retry-Accounted item (message e)
              (settings.now + backoff provider (item.attempts + 1)) (item.attempts + 1) settings.now
              items w.outbox)
      | inr last ↦
          unfold handle_failure in
          rw (last, handle_failure)
            (λ _ h.
              move_to_dlq-Accounted item (message e) (settings.dlq_id item.id) settings.now items
                w.outbox h)
    ]

    settle-Accounted :
        (item : OutboxItem) (items : List OutboxItem) (w : World P) (x : Result (Unit {0}) × P)
        → (settle provider settings item w x).0 ≡ ok tt
        → Accounted (item ∷ items) w.outbox.rows
        → Accounted items (settle provider settings item w x).1.outbox.rows
    unfolding settle
    settle-Accounted item items w (ok u, crm') _ h =
        mark_as_done-Accounted item settings.now items w.outbox h
    settle-Accounted item items w (err e, crm') fine h =
        handle_failure-Accounted item e items (record w { crm = crm' }) fine h

    process_item-Accounted :
        (item : OutboxItem) (items : List OutboxItem) (w : World P)
        → (process_item provider settings item w).0 ≡ ok tt
        → Accounted (item ∷ items) w.outbox.rows
        → Accounted items (process_item provider settings item w).1.outbox.rows
    unfolding process_item
    process_item-Accounted item items w fine h =
        settle-Accounted item items w
          (dispatch_operation provider item.operation item.payload w.crm) fine h

    bind-Accounted :
        (k : Exec (World P) (Unit {0})) (item : OutboxItem) (items : List OutboxItem)
        (x : Result (Unit {0}) × World P)
        → ((w : World P)
            → (k w).0 ≡ ok tt
            → Accounted items w.outbox.rows
            → Accounted [] (k w).1.outbox.rows)
        → (x.0 ≡ ok tt → Accounted items x.1.outbox.rows)
        → (bind_result x (λ (u : Unit {0}). k)).0 ≡ ok tt
        → Accounted [] (bind_result x (λ (u : Unit {0}). k)).1.outbox.rows
    bind-Accounted k item items (err e, w) rest kept raised = absurd (cc)
    bind-Accounted k item items (ok u, w) rest kept fine = rest w fine (kept refl)

    process_items-Accounted :
        (items : List OutboxItem) (w : World P)
        → (process_items provider settings items w).0 ≡ ok tt
        → Accounted items w.outbox.rows
        → Accounted [] (process_items provider settings items w).1.outbox.rows
    unfolding process_items
    process_items-Accounted [] w fine h = h
    process_items-Accounted (item ∷ items) w fine h =
        bind-Accounted (process_items provider settings items) item items
          (process_item provider settings item w) (process_items-Accounted items)
          (λ first. process_item-Accounted item items w first h) fine

any-claim :
    (i now : ℕ) (xs : List OutboxItem)
    → any (has_id i) xs ≡ true
    → any (has_id i) (map (claim now) xs) ≡ true
any-claim i now [] h = h
any-claim i now (x ∷ xs) h = ground (arith, any-claim i now xs)

-- The claim puts only rows of the batch into `processing`.
get_pending_batch-Accounted :
    (limit now : ℕ) (o : Outbox)
    → Accounted o.rows (get_pending_batch limit now o).0 (get_pending_batch limit now o).1.rows
unfolding get_pending_batch
get_pending_batch-Accounted limit now o r inside p =
    let models = due_rows limit now o.rows in
    let (s, at, e) =
      Occurs-map (λ x. if any (has_id x.id) models then claim now x else x) o.rows r inside in
    elim (Bool-cases (any (has_id s.id) models)) [
      | inl claimed ↦
          let r_is : r ≡ claim now s = ground arith in
          inr (
            subst (λ x. any (has_id x.id) (map (claim now) models) ≡ true) (sym r_is)
              (any-claim s.id now models claimed))
      | inr left_alone ↦
          let r_is : r ≡ s = ground arith in inl (subst (λ x. Occurs x o.rows) (sym r_is) at)
    ]

module _ {P : Type 0} where
  modify_after :
      (f : World P → World P) (x : Result (Unit {0}) × World P)
      → ((w : World P) → (f w).outbox ≡ w.outbox)
      → (bind_result x (λ (u : Unit {0}). modify f)).0 ≡ ok tt
      → (x.0 ≡ ok tt) × ((bind_result x (λ (u : Unit {0}). modify f)).1.outbox ≡ x.1.outbox)
  modify_after f (err e, w) same raised = absurd (cc)
  modify_after f (ok u, w) same fine = (refl, same w)

-- A batch that does not raise strands no row: whatever the CRM answers, a row that is in
-- `processing` afterwards was in the table, in `processing`, before the batch.
pub process_batch_strands_none :
    {P : Type 0} (provider : CrmProvider P) (settings : Settings) (batch_size : ℕ) (w : World P)
    (r : OutboxItem)
    → (process_batch provider settings batch_size w).0 ≡ ok tt
    → Occurs r (process_batch provider settings batch_size w).1.outbox.rows
    → is_processing r.status ≡ true
    → Occurs r w.outbox.rows
unfolding process_batch
process_batch_strands_none provider settings batch_size w r fine inside p =
    let (items, o) = get_pending_batch batch_size settings.now w.outbox in
    let w₁ = record w { outbox = o } in
    let (processed, same) =
      modify_after (check_dlq_alerts provider settings) (process_items provider settings items w₁)
        (λ v. unfold check_dlq_alerts in refl) fine in
    elim (process_items-Accounted w.outbox.rows provider settings items w₁ processed
      (get_pending_batch-Accounted batch_size settings.now w.outbox) r
      (subst (λ (b : Outbox). Occurs r b.rows) same inside) p) [
        | inl old ↦ old
        | inr none_left ↦ absurd (cc)
      ]
