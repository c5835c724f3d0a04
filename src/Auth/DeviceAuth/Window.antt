-- ===== src/Auth/DeviceAuth/Window.antt =====
-- The limit on failed validations, over any sequence of requests. Each request runs whole before
-- the next one; between two requests the database may change.
use embediq_cloud.Prelude.{
  ℕ, ◌+◌, ◌≤◌, ◌<◌, ◌≡◌, refl, String, ◌==◌, eq_iff, eq_refl, Bool, true, false, ◌&&◌, List, [],
  ◌∷◌, ◌++◌, filter, count, count-append, length-filter, leb, nat_eq, arith, if◌then◌else◌,
}
use embediq_cloud.Outcome.{Outcome, raised, http_exception}
use embediq_cloud.Json.{Value}
use embediq_cloud.Db.{Db}
use embediq_cloud.Password.{Bcrypt}
use embediq_cloud.Auth.RateLimit.{
  Failures, failures_of, is_recent, rate_window, is_throttled, record_auth_failure, set_failures,
}
use embediq_cloud.Auth.RateLimit.Laws.{failures_of-set_failures, count-filter_recent}
use embediq_cloud.Auth.DeviceAuth.{InternalAuthRequest, BridgeCredential, internal_auth}

-- a request to /internal/auth, with the file and the clock that it meets
pub record Attempt (T : Type 0) : Type 0 where
  pub source : String
  pub now : ℕ
  pub later : ℕ
  pub body : InternalAuthRequest
  pub db : Db T

-- a request that is answered by 403: its credentials were tried and did not hold
abbrev pub is_denied : Outcome Value → Bool
is_denied (raised (http_exception status detail)) = nat_eq status 403
is_denied _ = false

-- how many of the times are recent at `m`
abbrev recent : ℕ → List ℕ → ℕ
recent m ts = count (is_recent m) ts

-- a time in the minute that begins at `lo`
abbrev pub in_window : ℕ → ℕ → Bool
in_window lo t = leb lo t && leb t (lo + rate_window)

-- what lies in a window that is not over is recent
count-in_window-le :
    (lo now : ℕ) (ts : List ℕ) → now ≤ lo + rate_window → count (in_window lo) ts ≤ recent now ts
count-in_window-le lo now [] h = omega arith
count-in_window-le lo now (t ∷ ts) h = ground (arith, count-in_window-le lo now ts h)

module _ (B : Bcrypt) (bridge : BridgeCredential) {T : Type 0} where
  abbrev pub answer : Attempt T → Failures → Outcome Value × Failures
  answer a f = internal_auth B bridge a.now a.later a.source a.body a.db f

  -- the failures that are stored after the attempts, the newest of which is first
  pub stored : List (Attempt T) → Failures
  stored [] = []
  stored (a ∷ earlier) = (answer a (stored earlier)).1

  -- the times of the failed validations of one source
  pub denials : String → List (Attempt T) → List ℕ
  unfolding stored
  denials source [] = []
  denials source (a ∷ earlier) =
      let rest = denials source earlier in
      if (a.source == source) && is_denied (answer a (stored earlier)).0
      then a.later ∷ rest
      else rest

  -- the clock does not run backwards
  abbrev pub IsOrdered : List (Attempt T) → Type 0
  IsOrdered [] = Unit
  IsOrdered (a ∷ []) = a.now ≤ a.later
  IsOrdered (a ∷ b ∷ earlier) = (a.now ≤ a.later) × (b.later ≤ a.now) × IsOrdered (b ∷ earlier)

  abbrev IsAfter : ℕ → List (Attempt T) → Type 0
  IsAfter m [] = Unit
  IsAfter m (a ∷ earlier) = a.later ≤ m

  -- what one request adds to the stored failures of a source
  answer-failures :
      (a : Attempt T) (f : Failures) (s : String) (m : ℕ)
      → a.now ≤ m
      → recent m (failures_of s (answer a f).1)
        ≡ recent m (failures_of s f)
          + (if (a.source == s) && is_denied (answer a f).0 then recent m (a.later ∷ []) else 0)
  unfolding internal_auth is_throttled record_auth_failure
  answer-failures a f s m h =
      let kept = filter (is_recent a.now) (failures_of a.source f) in
      let pruned = set_failures a.source kept f in
      ground (
        arith,
        failures_of-set_failures a.source s kept f,
        failures_of-set_failures a.source a.source kept f,
        failures_of-set_failures a.source s (kept ++ a.later ∷ []) pruned,
        count-filter_recent a.now m (failures_of a.source f) h,
        count-append (is_recent m) kept (a.later ∷ []),
        eq_iff a.source s,
        eq_refl a.source,
      )

  -- what is stored and recent is what was denied and is recent
  recent-stored :
      (s : String) (m : ℕ) (attempts : List (Attempt T))
      → IsOrdered attempts
      → IsAfter m attempts
      → recent m (failures_of s (stored attempts)) ≡ recent m (denials s attempts)
  unfolding stored denials
  recent-stored s m [] o h = refl
  recent-stored s m (a ∷ []) o h = ground (arith, answer-failures a [] s m)
  recent-stored s m (a ∷ b ∷ earlier) o h =
      let f = stored (b ∷ earlier) in
      ground (arith, recent-stored s m (b ∷ earlier) o.2, answer-failures a f s m)

  -- credentials are tried only while fewer than ten failures are recent
  denied-few :
      (a : Attempt T) (f : Failures)
      → is_denied (answer a f).0 ≡ true
      → recent a.now (failures_of a.source f) < 10
  unfolding internal_auth is_throttled
  denied-few a f e = ground (arith, length-filter (is_recent a.now) (failures_of a.source f))

  -- the failures before a denied request leave room for one more in every window that it lies in
  denied-window :
      (s : String) (lo : ℕ) (a : Attempt T) (earlier : List (Attempt T))
      → a.source ≡ s
      → a.now ≤ a.later
      → IsOrdered earlier
      → IsAfter a.now earlier
      → is_denied (answer a (stored earlier)).0 ≡ true
      → in_window lo a.later ≡ true
      → count (in_window lo) (denials s earlier) < 10
  denied-window s lo a earlier e h o k d w =
      let few = denied-few a (stored earlier) d in
      let same = recent-stored s a.now earlier o k in
      let room : a.now ≤ lo + rate_window = ground arith in
      ground (arith, count-in_window-le lo a.now (denials s earlier) room)

  -- For every sequence of requests, from any sources and with any credentials, at times that do not
  -- run backwards, at most ten requests of one source are denied in any window of a minute.
  pub denials_bounded :
      (source : String) (lo : ℕ) (attempts : List (Attempt T))
      → IsOrdered attempts
      → count (in_window lo) (denials source attempts) ≤ 10
  unfolding denials
  denials_bounded s lo [] o = omega arith
  denials_bounded s lo (a ∷ []) o = ground arith
  denials_bounded s lo (a ∷ b ∷ earlier) o = ground (
    arith,
    denials_bounded s lo (b ∷ earlier) o.2,
    denied-window s lo a (b ∷ earlier),
    eq_iff a.source s,
  )

-- While ten failures of a source are recent, every request of that source is answered by 429,
-- whatever its credentials, also the bridge's own.
pub throttled_refuses_all :
    (B : Bcrypt) (bridge : BridgeCredential) {T : Type 0} (now later : ℕ) (source : String)
    (body : InternalAuthRequest) (db : Db T) (f : Failures)
    → 10 ≤ count (is_recent now) (failures_of source f)
    → (internal_auth B bridge now later source body db f).0
      ≡ raised (http_exception 429 "too many authentication failures; slow down")
unfolding internal_auth is_throttled
throttled_refuses_all B bridge now later source body db f h =
    ground (arith, length-filter (is_recent now) (failures_of source f))
