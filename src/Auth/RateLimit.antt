-- ===== src/Auth/RateLimit.antt =====
-- The sliding window of app/auth.py over failed device validations. Times are in microseconds; the
-- source has floating-point seconds.
pub mod Laws
use embediq_cloud.Prelude.{
  ℕ, ◌+◌, String, ◌==◌, Bool, Option, List, [], ◌∷◌, ◌++◌, length, filter, leb, if◌then◌else◌,
}

-- `_RATE_WINDOW_SECONDS`
abbrev pub rate_window : ℕ
rate_window = 60000000

-- `_RATE_MAX_FAILURES`
abbrev pub rate_max_failures : ℕ
rate_max_failures = 10

-- `_auth_failures`
abbrev pub Failures : Type 0
Failures = List (String × List ℕ)

-- `_auth_failures.get(source, [])`
abbrev pub failures_of : String → Failures → List ℕ
failures_of source [] = []
failures_of source ((s, ts) ∷ f) = if s == source then ts else failures_of source f

-- `_auth_failures[source] = ts`
abbrev pub set_failures : String → List ℕ → Failures → Failures
set_failures source ts [] = (source, ts) ∷ []
set_failures source ts ((s, us) ∷ f) =
    if s == source then (s, ts) ∷ f else (s, us) ∷ set_failures source ts f

-- `t >= now - _RATE_WINDOW_SECONDS`, which may be negative in the source
abbrev pub is_recent : ℕ → ℕ → Bool
is_recent now t = leb now (t + rate_window)

unfoldable pub is_throttled : ℕ → String → Failures → Bool × Failures
is_throttled now source f =
    let recent = filter (is_recent now) (failures_of source f) in
    (leb rate_max_failures (length recent), set_failures source recent f)

unfoldable pub record_auth_failure : ℕ → String → Failures → Failures
record_auth_failure now source f = set_failures source (failures_of source f ++ now ∷ []) f

-- used by the tests of the program
unfoldable pub reset_rate_limit : Failures → Failures
reset_rate_limit f = []
