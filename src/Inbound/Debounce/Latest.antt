-- ===== src/Inbound/Debounce/Latest.antt =====
-- Bursts of messages in `_handle_with_debounce` of core/services/inbound_handler.py: the last one.
use super_agent_platform.Base.{
  ℕ, String, ◌≡◌, refl, ◌∙◌, subst, inl, inr, Bool, true, false, not, some, List, [], ◌∷◌, ◌++◌,
  arith, eq_refl, ◌==◌, if◌then◌else◌, Bool-cases, nat_eq_refl, length, all, count_if, find_first,
  find_first-map, ℕ_eq, String_eq,
}
use super_agent_platform.Inbound.Debounce.{
  Task, TaskState, Debounce, Step, set_state, on_arrival, has_number, arrive, wake, throw,
  cancelled, on_wake, step, run, returned, is_latest, idle,
}
use super_agent_platform.Inbound.Debounce.Tidy.{
  IsTidy, stray, cancel_current, newest, on_arrival_tasks, on_arrival_current, on_arrival-IsTidy,
  late, count_none_mono, set_state-none, cancel_current-late, throw_stray, none_passes, step_wake,
  outcome, run-IsTidy, idle-IsTidy, run-append,
}

-- The steps that are no arrival and no wake-up of the task of a number.
abbrev pub quiet : ℕ → Step → Bool
quiet k (arrive m) = false
quiet k (wake n) = not (n == k)
quiet k (throw n) = true

-- The task of the last message waits for its wake-up, and no other task waits.
record IsPending (k : ℕ) (m : String) (d : Debounce) : Type 0 where
  last : d.latest ≡ some m
  found : find_first (has_number k) d.tasks ≡ some (newest m k)
  alone : count_if (stray (some k)) d.tasks ≡ 0

find_first-last :
    (p : Task → Bool) (ts : List Task) (t : Task)
    → count_if p ts ≡ 0
    → p t ≡ true
    → find_first p (ts ++ t ∷ []) ≡ some t
find_first-last p [] t h passes = rw passes refl
find_first-last p (x ∷ ts) t h passes = elim (Bool-cases (p x)) [
  | inl a ↦ absurd (ground arith)
  | inr b ↦ rw b (find_first-last p ts t (ground arith) passes)
]

has_number-update :
    (k n : ℕ) (f : TaskState → TaskState) (t : Task)
    → has_number k (if t.number == n then record t { state = f t.state } else t) ≡ has_number k t
has_number-update k n f t = elim (Bool-cases (t.number == n)) [
  | inl a ↦ rw a refl
  | inr b ↦ rw b refl
]

find_first-set_state :
    (k n : ℕ) (f : TaskState → TaskState) (t : Task) (ts : List Task)
    → find_first (has_number k) ts ≡ some t
    → find_first (has_number k) (set_state n f ts)
      ≡ some (if t.number == n then record t { state = f t.state } else t)
find_first-set_state k n f t ts h =
    find_first-map {0} (has_number k)
      (λ (x : Task). if x.number == n then record x { state = f x.state } else x) ts t
      (has_number-update k n f) h

on_arrival-IsPending :
    (m : String) (d : Debounce) → IsTidy d → IsPending (length d.tasks) m (on_arrival m d)
on_arrival-IsPending m d h = record {
  last = unfold on_arrival in refl;
  found = rw (on_arrival_tasks m d) (
      find_first-last (has_number (length d.tasks)) (cancel_current d.current d.tasks)
        (newest m (length d.tasks))
        (count_none_mono (has_number (length d.tasks)) (late (length d.tasks))
          (λ t same. ground arith) (cancel_current d.current d.tasks)
          (cancel_current-late d.current (length d.tasks) d.tasks h.numbers))
        (nat_eq_refl (length d.tasks)));
  alone =
      subst (λ c. count_if (stray c) (on_arrival m d).tasks ≡ 0) (on_arrival_current m d)
        (on_arrival-IsTidy m d h).strays;
}

throw_newest : (b : Bool) (t : Task) → some (if b then t else t) ≡ some t
throw_newest true t = refl
throw_newest false t = refl

quiet-IsPending :
    (k : ℕ) (m : String) (x : Step) (d : Debounce)
    → quiet k x ≡ true
    → IsPending k m d
    → IsPending k m (step x d)
quiet-IsPending k m (arrive m') d q h = absurd (ground arith)
quiet-IsPending k m (wake n) d q h = elim (step_wake n d) [
  | inl same ↦ rw same h
  | inr (t, number, w, o, same) ↦ absurd (ground (arith, none_passes (stray (some k)) o h.alone))
]
quiet-IsPending k m (throw n) d q h =
    unfold step in
    record {
      last = h.last;
      found =
          find_first-set_state k n cancelled (newest m k) d.tasks h.found
          ∙ throw_newest (k == n) (newest m k);
      alone =
          set_state-none n cancelled (stray (some k)) (stray (some k)) (throw_stray (some k) n)
            d.tasks h.alone;
    }

quiet-run-IsPending :
    (k : ℕ) (m : String) (xs : List Step) (d : Debounce)
    → all (quiet k) xs ≡ true
    → IsPending k m d
    → IsPending k m (run xs d)
unfolding run
quiet-run-IsPending k m [] d q h = h
quiet-run-IsPending k m (x ∷ xs) d q h =
    quiet-run-IsPending k m xs (step x d) (ground arith) (quiet-IsPending k m x d (ground arith) h)

last-is_latest : (k : ℕ) (m : String) (d : Debounce) → IsPending k m d → is_latest d m ≡ true
last-is_latest k m d h = rw h.last (eq_refl m)

wake_newest :
    (k : ℕ) (m : String) (d : Debounce)
    → IsPending k m d
    → outcome k (on_wake (newest m k) d) ≡ some (returned true)
unfolding on_wake
wake_newest k m d h =
    rw
      (
        find_first-set_state k k (λ old. returned (is_latest d m)) (newest m k) d.tasks h.found,
        outcome,
      )
      (rw (nat_eq_refl k) (rw (last-is_latest k m d h) refl))

-- The wake-up of the waiting task answers.
IsPending-wake :
    (k : ℕ) (m : String) (d : Debounce)
    → IsPending k m d
    → outcome k (step (wake k) d) ≡ some (returned true)
unfolding step on_wake
IsPending-wake k m d h = rw (h.found, step) (wake_newest k m d h)

last_wake :
    (k : ℕ) (m : String) (ys : List Step) (d : Debounce)
    → IsPending k m (run ys d)
    → outcome k (run (ys ++ wake k ∷ []) d) ≡ some (returned true)
last_wake k m ys d h =
    rw (run-append ys (wake k ∷ []) d) (unfold run in IsPending-wake k m (run ys d) h)

-- The last message of a burst is answered: whatever happened before it arrived, if after it no
-- message of the phone arrives, then, whatever other tasks wake up or are cancelled in between, its
-- task returns `True` when it wakes up.
pub run_latest :
    (xs ys : List Step) (m : String)
    → let k = length (run xs idle).tasks in
      all (quiet k) ys ≡ true
      → outcome k (run (xs ++ arrive m ∷ (ys ++ wake k ∷ [])) idle) ≡ some (returned true)
run_latest xs ys m q =
    let d = run xs idle in
    let k = length d.tasks in
    let pending : IsPending k m (run ys (on_arrival m d)) =
      quiet-run-IsPending k m ys (on_arrival m d) q
        (on_arrival-IsPending m d (run-IsTidy xs idle idle-IsTidy)) in
    rw (run-append xs (arrive m ∷ (ys ++ wake k ∷ [])) idle)
      (unfold run step in last_wake k m ys (on_arrival m d) pending)
