-- ===== src/Login/Attempts.antt =====
-- Failed logins: core/services/login_attempt_service.py over
-- adapters/storage/repositories/login_attempt_repo.py. A time is a number of microseconds here.
use super_agent_platform.Base.{
  ℕ, ◌+◌, ◌-◌, ◌*◌, ◌/◌, min, max, String, Bool, not, ◌&&◌, Option, none, some, List, [], ◌∷◌, ◌++◌,
  leb, ◌==◌, if◌then◌else◌, count_if, ℕ_eq, String_eq,
}

pub record Attempt : Type 0 where
  pub ip_address : String
  pub username : Option String
  pub success : Bool
  pub attempted_at : ℕ

abbrev pub max_failures : ℕ
max_failures = 5

abbrev pub minute : ℕ
minute = 60000000

abbrev pub lockout_minutes : ℕ
lockout_minutes = 15

-- The `where` of both queries.
abbrev pub is_failure_since : String → ℕ → Attempt → Bool
is_failure_since ip since a = a.ip_address == ip && not a.success && leb since a.attempted_at

-- `count_failures_since`
unfoldable pub count_failures_since : String → ℕ → List Attempt → ℕ
count_failures_since ip since rows = count_if (is_failure_since ip since) rows

-- `oldest_failure_since`
unfoldable pub oldest_failure_since : String → ℕ → List Attempt → Option ℕ
oldest_failure_since ip since [] = none
oldest_failure_since ip since (a ∷ rows) =
    let rest = oldest_failure_since ip since rows in
    if is_failure_since ip since a
    then some (elim rest [ none ↦ a.attempted_at | some t ↦ min a.attempted_at t ])
    else rest

-- `insert`, at the time that the database gives.
unfoldable pub insert_attempt : ℕ → String → Option String → Bool → List Attempt → List Attempt
insert_attempt now ip username success rows =
    rows
    ++ record { ip_address = ip; username = username; success = success; attempted_at = now } ∷ []

-- `datetime.now(UTC) - timedelta(minutes=LOCKOUT_MINUTES)`
abbrev pub cutoff : ℕ → ℕ
cutoff now = now - lockout_minutes * minute

-- `check_lockout`
unfoldable pub check_lockout : ℕ → String → List Attempt → Bool
unfolding count_failures_since
check_lockout now ip rows = leb max_failures (count_failures_since ip (cutoff now) rows)

-- The minutes that remain, rounded up, at least 1 where any time remains.
abbrev pub minutes_left : ℕ → ℕ
minutes_left remaining = if leb remaining 0 then 0 else max 1 ((remaining + (minute - 1)) / minute)

-- `get_remaining_lockout`; a subtraction that stops at 0 stands for the test of `<= 0`.
unfoldable pub get_remaining_lockout : ℕ → String → List Attempt → ℕ
unfolding oldest_failure_since
get_remaining_lockout now ip rows = elim (oldest_failure_since ip (cutoff now) rows) [
  | none ↦ 0
  | some oldest_failure ↦ minutes_left ((oldest_failure + lockout_minutes * minute) - now)
]
