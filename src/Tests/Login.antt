-- ===== src/Tests/Login.antt =====
-- The lockout after five failures.
use super_agent_platform.Base.{ℕ, ◌+◌, ◌≤◌, ◌≡◌, refl, true, false, none, List, [], ◌∷◌, arith, All}
use super_agent_platform.Login.Attempts.{
  Attempt, count_failures_since, insert_attempt, cutoff, check_lockout, get_remaining_lockout,
}
use super_agent_platform.Login.Lockout.{check_lockout_ends, count_failures_since-insert_attempt}

abbrev failure : ℕ → Attempt
failure t = record { ip_address = "10.0.0.1"; username = none; success = false; attempted_at = t }

abbrev five : List Attempt
five = failure 1 ∷ (failure 2 ∷ (failure 3 ∷ (failure 4 ∷ (failure 5 ∷ []))))

locked : check_lockout 6 "10.0.0.1" five ≡ true
unfolding check_lockout count_failures_since
locked = refl

five_until : All (λ (a : Attempt). a.attempted_at ≤ 5) five
five_until = (omega arith, (omega arith, (omega arith, (omega arith, (omega arith, tt)))))

check_lockout_ends_example : check_lockout 900000006 "10.0.0.1" five ≡ false
check_lockout_ends_example = check_lockout_ends 900000006 5 "10.0.0.1" five five_until (omega arith)

minutes_left : get_remaining_lockout 6 "10.0.0.1" five ≡ 15
unfolding get_remaining_lockout
minutes_left = refl

count_failures_since-insert_attempt_example :
    count_failures_since "10.0.0.1" (cutoff 7) (insert_attempt 6 "10.0.0.1" none false five)
    ≡ count_failures_since "10.0.0.1" (cutoff 7) five + 1
count_failures_since-insert_attempt_example =
    count_failures_since-insert_attempt 7 6 "10.0.0.1" "10.0.0.1" none false five
