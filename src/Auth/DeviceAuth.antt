-- ===== src/Auth/DeviceAuth.antt =====
-- The two endpoints of app/auth.py that the broker calls.
pub mod Envelopes
pub mod Window
pub mod Verdict
pub mod Enrolment
pub mod Threads
use text.Mathlib.Text.{starts_with}
use embediq_cloud.Prelude.{
  ℕ, String, ◌==◌, Bool, true, false, not, ◌&&◌, ◌||◌, Option, none, some, List, [], ◌∷◌,
  if◌then◌else◌,
}
use embediq_cloud.Prelude.Int.{ℤ}
use embediq_cloud.Outcome.{Outcome, returned, raised, http_exception}
use embediq_cloud.Json.{Value, str, object}
use embediq_cloud.Db.{Db, Device, find_device}
use embediq_cloud.Envelope.{ok}
use embediq_cloud.Password.{Bcrypt, verify_password}
use embediq_cloud.Auth.RateLimit.{Failures, is_throttled, record_auth_failure}

pub record InternalAuthRequest : Type 0 where
  pub username : Option String
  pub password : Option String
  pub cert_cn : Option String

pub record InternalAclRequest : Type 0 where
  pub username : Option String
  pub topic : Option String
  pub acc : Option ℤ
  pub clientid : Option String

-- INTERNAL_BRIDGE_USER and INTERNAL_BRIDGE_PASS
pub record BridgeCredential : Type 0 where
  pub user : Option String
  pub pass : Option String

-- `bool(text)` of an optional text, with the text
abbrev pub nonempty : Option String → Option String
nonempty none = none
nonempty (some s) = if s == "" then none else some s

-- `given == expected`, where `given` may be None
abbrev is_given : Option String → String → Bool
is_given none expected = false
is_given (some s) expected = s == expected

abbrev both_given : Option String → Option String → InternalAuthRequest → Bool
both_given (some user) (some pass) body = is_given body.username user && is_given body.password pass
both_given _ _ body = false

unfoldable pub bridge_credential_ok : BridgeCredential → InternalAuthRequest → Bool
bridge_credential_ok bridge body = both_given (nonempty bridge.user) (nonempty bridge.pass) body

module _ {T : Type 0} where
  -- SELECT 1 FROM devices WHERE cert_cn = cn
  has_cert : String → List (Device T) → Bool
  has_cert cn [] = false
  has_cert cn (d ∷ ds) = is_given d.cert_cn cn || has_cert cn ds

  cert_ok : Option String → Db T → Bool
  unfolding has_cert
  cert_ok none db = false
  cert_ok (some cn) db = has_cert cn db.devices

abbrev pub allow : Outcome Value
allow = returned (ok (object (("result", str "allow") ∷ [])))

module _ (B : Bcrypt) where
  -- `row["password_hash"] and verify_password(password, row["password_hash"])`
  abbrev hash_ok : String → Option String → Bool
  hash_ok password none = false
  hash_ok password (some hash) = verify_password B password hash

module _ (B : Bcrypt) {T : Type 0} where
  abbrev row_ok : String → Option (Device T) → Bool
  row_ok password none = false
  row_ok password (some d) = hash_ok B password (nonempty d.password_hash)

  password_ok : Option String → Option String → Db T → Bool
  password_ok (some username) (some password) db = row_ok password (find_device username db)
  password_ok _ _ db = false

  -- what the credentials of a request are worth, whatever came before it
  pub credentials_ok : BridgeCredential → InternalAuthRequest → Db T → Bool
  unfolding cert_ok password_ok
  credentials_ok bridge body db =
      bridge_credential_ok bridge body
      || cert_ok (nonempty body.cert_cn) db
      || password_ok (nonempty body.username) (nonempty body.password) db

  -- `now` and `later` are the two readings of the clock.
  pub internal_auth :
      BridgeCredential
      → ℕ
      → ℕ
      → String
      → InternalAuthRequest
      → Db T
      → Failures
      → Outcome Value × Failures
  internal_auth bridge now later source body db f =
      let (throttled, f') = is_throttled now source f in
      if throttled
      then (raised (http_exception 429 "too many authentication failures; slow down"), f')
      else if credentials_ok bridge body db
      then (allow, f')
      else (
        raised (http_exception 403 "device validation failed"),
        record_auth_failure later source f',
      )

abbrev pub starts_with_namespace : String → Bool
starts_with_namespace topic = starts_with topic "embediq/"

unfoldable pub internal_acl : InternalAclRequest → Outcome Value
internal_acl body =
    let t : String = elim body.topic [ none ↦ "" | some s ↦ s ] in
    if (t == "embediq") || starts_with_namespace t
    then returned (ok (object (("result", str "allow") ∷ [])))
    else raised (http_exception 403 "topic not permitted")
