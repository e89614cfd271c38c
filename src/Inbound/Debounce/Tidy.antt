-- ===== src/Inbound/Debounce/Tidy.antt =====
-- The tasks of `_debounce_tasks` in core/services/inbound_handler.py: which of them can wait.
use super_agent_platform.Base.{
  ℕ, suc, ◌+◌, String, ◌≡◌, refl, ◌∙◌, ◌⊎◌, inl, inr, Bool, true, false, not, ◌&&◌, Option, none,
  some, List, [], ◌∷◌, ◌++◌, arith, leb, ◌==◌, if◌then◌else◌, Bool-cases, nat_eq→eq, Option-cases,
  length, count_if, find_first, Occurs, length-append, count_if_mono, count_if-map, count_if-append,
  find_first-some, Occurs-count, length-map, ℕ_eq, String_eq,
}
use super_agent_platform.Inbound.Debounce.{
  Task, TaskState, Debounce, Step, set_state, cancel, cancelled, on_arrival, is_latest, is_current,
  on_wake, is_waiting, has_number, step, run, idle, waiting, returned, arrive, wake, throw,
}

-- A task that waits and is not the current one.
abbrev pub stray : Option ℕ → Task → Bool
stray none t = is_waiting t.state
stray (some n) t = is_waiting t.state && not (t.number == n)

abbrev pub late : ℕ → Task → Bool
late n t = leb n t.number

-- No number is ahead, and no task but the current one waits.
pub record IsTidy (d : Debounce) : Type 0 where
  pub numbers : count_if (late (length d.tasks)) d.tasks ≡ 0
  pub strays : count_if (stray d.current) d.tasks ≡ 0

pub count_none_mono :
    (p q : Task → Bool)
    → ((t : Task) → p t ≡ true → q t ≡ true)
    → (ts : List Task) → count_if q ts ≡ 0
    → count_if p ts ≡ 0
count_none_mono p q h ts none_q = omega (arith, count_if_mono {0} p q h ts)

-- A change of states that makes no task pass a test.
pub set_state-none :
    (n : ℕ) (f : TaskState → TaskState) (p q : Task → Bool)
    → ((t : Task)
        → p (if t.number == n then record t { state = f t.state } else t) ≡ true
        → q t ≡ true)
    → (ts : List Task) → count_if q ts ≡ 0
    → count_if p (set_state n f ts) ≡ 0
set_state-none n f p q h ts none_q =
    count_if-map {0, 0} p
      (λ (t : Task). if t.number == n then record t { state = f t.state } else t) ts
    ∙ count_none_mono (λ t. p (if t.number == n then record t { state = f t.state } else t)) q h ts
        none_q

pub length-set_state :
    (n : ℕ) (f : TaskState → TaskState) (ts : List Task) → length (set_state n f ts) ≡ length ts
length-set_state n f ts =
    length-map {0, 0} (λ (t : Task). if t.number == n then record t { state = f t.state } else t) ts

pub late_kept :
    (n k : ℕ) (f : TaskState → TaskState) (ts : List Task)
    → count_if (late k) ts ≡ 0
    → count_if (late k) (set_state n f ts) ≡ 0
late_kept n k f ts h = set_state-none n f (late k) (late k) (λ t p. ground arith) ts h

-- The tasks after the cancellation of the current one: none of them waits.
abbrev pub cancel_current : Option ℕ → List Task → List Task
cancel_current none ts = ts
cancel_current (some n) ts = set_state n cancel ts

abbrev pub waits : Task → Bool
waits t = is_waiting t.state

pub cancel-stray :
    (n : ℕ) (t : Task)
    → waits (if t.number == n then record t { state = cancel t.state } else t) ≡ true
    → stray (some n) t ≡ true
cancel-stray n t p = ground arith

pub cancel_current-waits :
    (c : Option ℕ) (ts : List Task)
    → count_if (stray c) ts ≡ 0
    → count_if waits (cancel_current c ts) ≡ 0
cancel_current-waits none ts h = h
cancel_current-waits (some n) ts h =
    set_state-none n cancel waits (stray (some n)) (cancel-stray n) ts h

pub length-cancel_current :
    (c : Option ℕ) (ts : List Task) → length (cancel_current c ts) ≡ length ts
length-cancel_current none ts = refl
length-cancel_current (some n) ts = length-set_state n cancel ts

pub cancel_current-late :
    (c : Option ℕ) (k : ℕ) (ts : List Task)
    → count_if (late k) ts ≡ 0
    → count_if (late k) (cancel_current c ts) ≡ 0
cancel_current-late none k ts h = h
cancel_current-late (some n) k ts h = late_kept n k cancel ts h

pub wake_stray :
    (c : Option ℕ) (t t' : Task) (b : Bool)
    → stray c t ≡ false
    → waits t ≡ true
    → stray
        (if (elim c [ none ↦ false | some m ↦ m == t.number ]) then none else c)
        (if t'.number == t.number then record t' { state = returned b } else t')
      ≡ true
    → stray c t' ≡ true
wake_stray none t t' b kept w p = ground arith
wake_stray (some n) t t' b kept w p = ground arith

pub throw_stray :
    (c : Option ℕ) (n : ℕ) (t : Task)
    → stray c (if t.number == n then record t { state = cancelled t.state } else t) ≡ true
    → stray c t ≡ true
throw_stray none n t p = ground arith
throw_stray (some m) n t p = ground arith

pub none_passes :
    (p : Task → Bool) {t : Task} {ts : List Task} → Occurs t ts → count_if p ts ≡ 0 → p t ≡ false
none_passes p {t} o h = ground (arith, Occurs-count {0} p o)

abbrev pub newest : String → ℕ → Task
newest m n = record { number = n; message_id = m; state = waiting }

pub on_arrival_tasks :
    (m : String) (d : Debounce)
    → (on_arrival m d).tasks ≡ cancel_current d.current d.tasks ++ newest m (length d.tasks) ∷ []
unfolding on_arrival
on_arrival_tasks m d = others d.current
  where
    others :
        (c : Option ℕ)
        → (elim c as (λ x. List Task) [ none ↦ d.tasks | some n ↦ set_state n cancel d.tasks ])
            ++ newest m (length d.tasks) ∷ []
          ≡ cancel_current c d.tasks ++ newest m (length d.tasks) ∷ []
    others none = refl
    others (some n) = refl

pub on_arrival_count :
    (p : Task → Bool) (m : String) (d : Debounce)
    → count_if p (on_arrival m d).tasks
      ≡ count_if p (cancel_current d.current d.tasks) + count_if p (newest m (length d.tasks) ∷ [])
on_arrival_count p m d =
    rw (on_arrival_tasks m d)
      (count_if-append {0} p (cancel_current d.current d.tasks) (newest m (length d.tasks) ∷ []))

pub length-on_arrival :
    (m : String) (d : Debounce) → length (on_arrival m d).tasks ≡ suc (length d.tasks)
length-on_arrival m d = rw (on_arrival_tasks m d) (
    omega (
      arith,
      length-append {0} (cancel_current d.current d.tasks) (newest m (length d.tasks) ∷ []),
      length-cancel_current d.current d.tasks,
    ))

pub late-suc : (k : ℕ) (t : Task) → late (suc k) t ≡ true → late k t ≡ true
late-suc k t h = ground arith

pub stray-waits : (k : ℕ) (t : Task) → stray (some k) t ≡ true → waits t ≡ true
stray-waits k t h = ground arith

pub on_arrival_current :
    (m : String) (d : Debounce) → (on_arrival m d).current ≡ some (length d.tasks)
unfolding on_arrival
on_arrival_current m d = refl

pub on_arrival-IsTidy : (m : String) (d : Debounce) → IsTidy d → IsTidy (on_arrival m d)
on_arrival-IsTidy m d h =
    let k = length d.tasks in
    let before = cancel_current d.current d.tasks in
    record {
      numbers = rw (length-on_arrival m d) (
          rw (on_arrival_count (late (suc k)) m d) (
            ground (
              arith,
              count_none_mono (late (suc k)) (late k) (late-suc k) before
                  (cancel_current-late d.current k d.tasks h.numbers),
            )));
      strays = rw (on_arrival_current m d) (
          rw (on_arrival_count (stray (some k)) m d) (
            ground (
              arith,
              count_none_mono (stray (some k)) waits (stray-waits k) before
                  (cancel_current-waits d.current d.tasks h.strays),
            )));
    }

pub on_wake-IsTidy :
    (t : Task) (d : Debounce) → waits t ≡ true → Occurs t d.tasks → IsTidy d → IsTidy (on_wake t d)
unfolding on_wake
on_wake-IsTidy t d w o h = record {
  numbers = rw (length-set_state t.number (λ old. returned (is_latest d t.message_id)) d.tasks) (
      late_kept t.number (length d.tasks) (λ old. returned (is_latest d t.message_id)) d.tasks
        h.numbers);
  strays =
      set_state-none t.number (λ old. returned (is_latest d t.message_id))
        (stray (if is_current d t.number then none else d.current)) (stray d.current)
        (λ t'.
          wake_stray d.current t t' (is_latest d t.message_id)
            (none_passes (stray d.current) o h.strays) w)
        d.tasks h.strays;
}

pub throw-IsTidy :
    (n : ℕ) (d : Debounce) → IsTidy d → IsTidy (record d { tasks = set_state n cancelled d.tasks })
throw-IsTidy n d h = record {
  numbers =
      rw (length-set_state n cancelled d.tasks)
        (late_kept n (length d.tasks) cancelled d.tasks h.numbers);
  strays =
      set_state-none n cancelled (stray d.current) (stray d.current) (throw_stray d.current n)
        d.tasks h.strays;
}

-- A wake-up of a task that does not wait changes nothing.
pub step_wake :
    (n : ℕ) (d : Debounce)
    → (step (wake n) d ≡ d)
      ⊎ ((t : Task) × (t.number ≡ n)
          × (waits t ≡ true)
          × Occurs t d.tasks
          × (step (wake n) d ≡ on_wake t d))
unfolding step
step_wake n d = elim (Option-cases (find_first (has_number n) d.tasks)) [
  | inl missing ↦ inl (rw (missing, step) refl)
  | inr (t, found) ↦ elim (Bool-cases (waits t)) [
    | inl w ↦
        (let (same, o) = find_first-some {0} (has_number n) d.tasks found in
          inr (t, nat_eq→eq t.number n same, w, o, rw (found, step) (rw w refl)))
    | inr w ↦ inl (rw (found, step) (rw w refl))
  ]
]

pub step-IsTidy : (x : Step) (d : Debounce) → IsTidy d → IsTidy (step x d)
step-IsTidy (arrive m) d h = unfold step in on_arrival-IsTidy m d h
step-IsTidy (wake n) d h = elim (step_wake n d) [
  | inl same ↦ rw same h
  | inr (t, number, w, o, same) ↦ rw same (on_wake-IsTidy t d w o h)
]
step-IsTidy (throw n) d h = unfold step in throw-IsTidy n d h

pub run-IsTidy : (xs : List Step) (d : Debounce) → IsTidy d → IsTidy (run xs d)
unfolding run
run-IsTidy [] d h = h
run-IsTidy (x ∷ xs) d h = run-IsTidy xs (step x d) (step-IsTidy x d h)

pub idle-IsTidy : IsTidy idle
idle-IsTidy = record { numbers = refl; strays = refl }

-- The value that the task of a number returned or the state that it is in.
abbrev pub outcome : ℕ → Debounce → Option TaskState
outcome k d = elim (find_first (has_number k) d.tasks) [ none ↦ none | some t ↦ some t.state ]

pub run-append : (xs ys : List Step) (d : Debounce) → run (xs ++ ys) d ≡ run ys (run xs d)
unfolding run
run-append [] ys d = refl
run-append (x ∷ xs) ys d = run-append xs ys (step x d)
