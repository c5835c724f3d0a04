-- ===== src/Auth/DeviceAuth/Threads.antt =====
-- `internal_auth` as a thread: its one or two SELECTs. The failures that it meets are those of the
-- moment when it starts.
use embediq_cloud.Prelude.{ℕ, ◌≡◌, refl, String, ◌||◌, Option, none, some, [], arith, if◌then◌else◌}
use embediq_cloud.Outcome.{Outcome, raised, http_exception}
use embediq_cloud.Json.{Value, Codec}
use embediq_cloud.Db.{Db, find_device}
use embediq_cloud.Db.Threads.{Thread, returns, reads, run_alone}
use embediq_cloud.Db.Threads.Safe.{IsSafeThread, Safe-returns, Safe-reads, Safe-if}
use embediq_cloud.Password.{Bcrypt}
use embediq_cloud.Auth.RateLimit.{Failures, is_throttled}
use embediq_cloud.Auth.DeviceAuth.{
  InternalAuthRequest, BridgeCredential, nonempty, bridge_credential_ok, has_cert, row_ok, allow,
  internal_auth, cert_ok, password_ok, credentials_ok,
}

module _ (C : Codec) (B : Bcrypt) where
  abbrev throttled : Outcome Value
  throttled = raised (http_exception 429 "too many authentication failures; slow down")

  abbrev denied : Thread C.Text
  denied = returns (raised (http_exception 403 "device validation failed"))

  -- SELECT password_hash FROM devices WHERE id = username
  abbrev password_thread : Option String → Option String → Thread C.Text
  password_thread (some username) (some password) =
      reads (λ db. if row_ok B password (find_device username db) then returns allow else denied)
  password_thread _ _ = denied

  -- SELECT 1 FROM devices WHERE cert_cn = cn
  cert_thread : Option String → Thread C.Text → Thread C.Text
  cert_thread none rest = rest
  cert_thread (some cn) rest = reads (λ db. if has_cert cn db.devices then returns allow else rest)

  pub auth_thread : BridgeCredential → ℕ → String → InternalAuthRequest → Failures → Thread C.Text
  unfolding cert_thread
  auth_thread bridge now source body f =
      if (is_throttled now source f).0
      then returns throttled
      else if bridge_credential_ok bridge body
      then returns allow
      else cert_thread (nonempty body.cert_cn)
          (password_thread (nonempty body.username) (nonempty body.password))

  password_thread-IsSafe : (u p : Option String) → IsSafeThread C (password_thread u p)
  password_thread-IsSafe (some u) (some p) =
      Safe-reads C _ (λ db h. Safe-if C _ _ _ (Safe-returns C _ refl) (Safe-returns C _ refl))
  password_thread-IsSafe (some u) none = Safe-returns C _ refl
  password_thread-IsSafe none p = Safe-returns C _ refl

  cert_thread-IsSafe :
      (cn : Option String) (rest : Thread C.Text)
      → IsSafeThread C rest
      → IsSafeThread C (cert_thread cn rest)
  unfolding cert_thread
  cert_thread-IsSafe none rest h = h
  cert_thread-IsSafe (some cn) rest h =
      Safe-reads C _ (λ db k. Safe-if C _ _ _ (Safe-returns C _ refl) h)

  pub auth_thread-IsSafe :
      (bridge : BridgeCredential) (now : ℕ) (source : String) (body : InternalAuthRequest)
      (f : Failures)
      → IsSafeThread C (auth_thread bridge now source body f)
  unfolding auth_thread
  auth_thread-IsSafe bridge now source body f =
      Safe-if C (is_throttled now source f).0 _ _ (Safe-returns C throttled refl) (
        Safe-if C (bridge_credential_ok bridge body) _ _ (Safe-returns C allow refl) (
          cert_thread-IsSafe (nonempty body.cert_cn) _
            (password_thread-IsSafe (nonempty body.username) (nonempty body.password))))

  -- what the thread answers after the throttle and the credential of the bridge
  select_both :
      (cn u p : Option String) (db : Db C.Text)
      → run_alone (cert_thread cn (password_thread u p)) db ≡ (
        if cert_ok cn db || password_ok B u p db
            then allow
            else raised (http_exception 403 "device validation failed"),
        db,
        [],
      )
  unfolding cert_thread cert_ok password_ok
  select_both none none p db = refl
  select_both none (some u) none db = refl
  select_both none (some u) (some p) db = ground arith
  select_both (some cn) none p db = ground arith
  select_both (some cn) (some u) none db = ground arith
  select_both (some cn) (some u) (some p) db = ground arith

  -- with no other thread, the answer is that of `internal_auth`, and the file is left as it is
  run_alone-auth_thread :
      (bridge : BridgeCredential) (now later : ℕ) (source : String) (body : InternalAuthRequest)
      (db : Db C.Text) (f : Failures)
      → run_alone (auth_thread bridge now source body f) db
        ≡ ((internal_auth B bridge now later source body db f).0, db, [])
  unfolding auth_thread internal_auth credentials_ok
  run_alone-auth_thread bridge now later source body db f = ground (
    arith,
    select_both (nonempty body.cert_cn) (nonempty body.username) (nonempty body.password) db,
  )
