-- ===== src/Auth/RateLimit/Laws.antt =====
-- What the two operations do to the failures of a source.
use embediq_cloud.Prelude.{
  false, ℕ, ◌≤◌, ◌≡◌, refl, String, ◌==◌, eq_iff, List, [], ◌∷◌, filter, count, arith,
  if◌then◌else◌,
}
use embediq_cloud.Auth.RateLimit.{
  Failures, failures_of, set_failures, is_recent, is_throttled, reset_rate_limit,
}

pub failures_of-set_failures :
    (s r : String) (ts : List ℕ) (f : Failures)
    → failures_of r (set_failures s ts f) ≡ (if s == r then ts else failures_of r f)
failures_of-set_failures s r ts [] = refl
failures_of-set_failures s r ts ((q, us) ∷ f) =
    ground (arith, failures_of-set_failures s r ts f, eq_iff q s, eq_iff q r, eq_iff s r)

-- Dropping what is no longer recent at `now` loses nothing that is recent later.
pub count-filter_recent :
    (now later : ℕ) (ts : List ℕ)
    → now ≤ later
    → count (is_recent later) (filter (is_recent now) ts) ≡ count (is_recent later) ts
count-filter_recent now later [] h = refl
count-filter_recent now later (t ∷ ts) h = ground (arith, count-filter_recent now later ts h)

-- after a reset no source is throttled
is_throttled-reset_rate_limit :
    (now : ℕ) (source : String) (f : Failures)
    → (is_throttled now source (reset_rate_limit f)).0 ≡ false
unfolding is_throttled reset_rate_limit
is_throttled-reset_rate_limit now source f = refl
