-- ===== src/Login/Lockout.antt =====
-- The lockout of core/services/login_attempt_service.py.
use super_agent_platform.Base.{
  ℕ, ◌+◌, ◌-◌, ◌*◌, ◌≤◌, ◌<◌, String, ◌≡◌, refl, inl, inr, Bool, false, not, ◌&&◌, Option, some,
  List, [], ◌∷◌, arith, leb, ◌==◌, if◌then◌else◌, Option-cases, count_if, All, count_if-append,
  ℕ_eq, String_eq,
}
use super_agent_platform.Login.Attempts.{
  Attempt, check_lockout, minute, is_failure_since, count_failures_since, oldest_failure_since,
  insert_attempt, cutoff, get_remaining_lockout, lockout_minutes, minutes_left,
}

-- The attempts were made at a time or before it.
abbrev pub Until : ℕ → List Attempt → Type 0
Until t = All (λ (a : Attempt). a.attempted_at ≤ t)

none_since :
    (ip : String) (t since : ℕ) (rows : List Attempt)
    → t < since
    → Until t rows
    → count_if (is_failure_since ip since) rows ≡ 0
none_since ip t since [] past h = refl
none_since ip t since (a ∷ rows) past (early, h) = ground (arith, none_since ip t since rows past h)

-- A lockout ends: more than fifteen minutes after the last attempt no address is locked out.
pub check_lockout_ends :
    (now t : ℕ) (ip : String) (rows : List Attempt)
    → Until t rows
    → t + 15 * minute < now
    → check_lockout now ip rows ≡ false
unfolding check_lockout count_failures_since
check_lockout_ends now t ip rows h late =
    rw (none_since ip t (cutoff now) rows (omega arith) h) refl

-- A recorded attempt adds one to the count of an address exactly when it is a failure from this
-- address that is not older than the fifteen minutes before the count is made.
pub count_failures_since-insert_attempt :
    (now at : ℕ) (ip other_ip : String) (username : Option String) (success : Bool)
    (rows : List Attempt)
    → count_failures_since other_ip (cutoff now) (insert_attempt at ip username success rows)
      ≡ count_failures_since other_ip (cutoff now) rows
        + (if ip == other_ip && not success && leb now (at + 15 * minute) then 1 else 0)
unfolding count_failures_since insert_attempt
count_failures_since-insert_attempt now at ip other_ip username success rows = ground (
  arith,
  count_if-append {0} (is_failure_since other_ip (cutoff now)) rows
      (record { ip_address = ip; username = username; success = success; attempted_at = at } ∷ []),
)

oldest-Until :
    (ip : String) (since t : ℕ) (rows : List Attempt) (oldest : ℕ)
    → Until t rows
    → oldest_failure_since ip since rows ≡ some oldest
    → oldest ≤ t
unfolding oldest_failure_since
oldest-Until ip since t [] oldest h found = absurd (ground arith)
oldest-Until ip since t (a ∷ rows) oldest (early, h) found =
    elim (Option-cases (oldest_failure_since ip since rows)) [
      | inl missing ↦ ground arith
      | inr (u, rest) ↦ ground (arith, oldest-Until ip since t rows u h rest)
    ]

minutes_left_le : (r : ℕ) → r ≤ 15 * minute → minutes_left r ≤ 15
minutes_left_le r h = ground arith

-- Where no attempt lies in the future, the minutes of a lockout that are reported are at most 15.
get_remaining_lockout_le :
    (now : ℕ) (ip : String) (rows : List Attempt)
    → Until now rows
    → get_remaining_lockout now ip rows ≤ 15
unfolding get_remaining_lockout
get_remaining_lockout_le now ip rows h =
    elim (Option-cases (oldest_failure_since ip (cutoff now) rows)) [
      | inl missing ↦ rw (missing, get_remaining_lockout) (omega arith)
      | inr (oldest, found) ↦
          rw (found, get_remaining_lockout)
            (minutes_left_le ((oldest + lockout_minutes * minute) - now)
              (omega (arith, oldest-Until ip (cutoff now) now rows oldest h found)))
    ]
