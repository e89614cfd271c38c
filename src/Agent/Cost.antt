-- ===== src/Agent/Cost.antt =====
-- A bound on how often an action does what is counted in its state.
use super_agent_platform.Base.{
  ℕ, ◌+◌, ◌≤◌, ◌≡◌, refl, Bool, true, false, arith, if◌then◌else◌, Error, Result, Exec, pure,
  handle, catch, bind_result, ◌>>=◌, when, ok, err,
}

-- An action raises the count by at most a number.
pub record Costs {S A : Type 0} (asked : S → ℕ) (k : ℕ) (m : Exec S A) : Type 0 where
  pub bound : (w : S) → asked (m w).1 ≤ asked w + k

module _ {S : Type 0} {asked : S → ℕ} where
  pub Costs-bind :
      {A B : Type 0} (j k n : ℕ) {m : Exec S A} {f : A → Exec S B}
      → j + k ≤ n
      → Costs asked j m
      → ((a : A) → Costs asked k (f a))
      → Costs asked n (m >>= f)
  Costs-bind {A} {B} j k n {m} {f} within first next = record {
    bound = λ w. go w (m w) (first.bound w);
  }
    where
      go :
          (w : S) (r : Result A × S)
          → asked r.1 ≤ asked w + j
          → asked (bind_result r f).1 ≤ asked w + n
      go w (ok a, v) h = omega (arith, within, h, (next a).bound v)
      go w (err e, v) h = omega (arith, within, h)

  pub Costs-catch :
      {A : Type 0} (j k n : ℕ) {m : Exec S A} {h : Error → Exec S A}
      → j + k ≤ n
      → Costs asked j m
      → ((e : Error) → Costs asked k (h e))
      → Costs asked n (catch m h)
  Costs-catch {A} j k n {m} {h} within first next = record {
    bound = λ w. go w (m w) (first.bound w);
  }
    where
      go : (w : S) (r : Result A × S) → asked r.1 ≤ asked w + j → asked (handle r h).1 ≤ asked w + n
      go w (ok a, v) below = omega (arith, within, below)
      go w (err e, v) below = omega (arith, within, below, (next e).bound v)

  pub Costs-pure : {A : Type 0} (a : A) → Costs asked 0 (pure a)
  Costs-pure a = record { bound = λ w. omega arith }

  pub Costs-more : {A : Type 0} (j k : ℕ) {m : Exec S A} → j ≤ k → Costs asked j m → Costs asked k m
  Costs-more j k h first = record { bound = λ w. omega (arith, h, first.bound w) }

  pub Costs-if :
      {A : Type 0} (k : ℕ) (b : Bool) {m n : Exec S A}
      → Costs asked k m
      → Costs asked k n
      → Costs asked k (if b then m else n)
  Costs-if k true h h' = h
  Costs-if k false h h' = h'

  pub Costs-call :
      {A : Type 0} (m : Exec S A) → ((w : S) → asked (m w).1 ≡ asked w) → Costs asked 0 m
  Costs-call m h = record { bound = λ w. omega (arith, h w) }

  pub when-Costs :
      {k : ℕ} (b : Bool) {m : Exec S (Unit {0})} → Costs asked k m → Costs asked k (when b m)
  when-Costs true h = h
  when-Costs {k} false h = Costs-more 0 k (omega arith) (Costs-pure tt)

-- What a handler that never raises leaves.
pub handled :
    {S : Type 0} (h : Error → Exec S (Unit {0})) (r : Result (Unit {0}) × S)
    → ((e : Error) (v : S) → (h e v).0 ≡ ok tt)
    → (handle r h).0 ≡ ok tt
handled h (ok a, v) never = refl
handled h (err e, v) never = never e v
