-- ===== src/Auth/DeviceAuth/Envelopes.antt =====
-- The endpoints that the broker calls answer by `ok`.
use embediq_cloud.Prelude.{ℕ, refl, Bool, true, false, Bool-cases, inl, inr, String, if◌then◌else◌}
use embediq_cloud.Outcome.{Error, raised}
use embediq_cloud.Envelope.{IsOk}
use embediq_cloud.Db.{Db}
use embediq_cloud.Password.{Bcrypt}
use embediq_cloud.Auth.RateLimit.{Failures, is_throttled}
use embediq_cloud.Auth.DeviceAuth.{
  InternalAuthRequest, InternalAclRequest, BridgeCredential, credentials_ok, internal_auth,
  internal_acl, allow,
}

allow-IsOk : (b : Bool) (e : Error) → IsOk (if b then allow else raised e)
allow-IsOk true e = (_, refl)
allow-IsOk false e = tt

pub internal_acl-IsOk : (body : InternalAclRequest) → IsOk (internal_acl body)
unfolding internal_acl
internal_acl-IsOk body = allow-IsOk _ _

pub internal_auth-IsOk :
    (B : Bcrypt) {T : Type 0} (bridge : BridgeCredential) (now later : ℕ) (source : String)
    (body : InternalAuthRequest) (db : Db T) (f : Failures)
    → IsOk (internal_auth B bridge now later source body db f).0
unfolding internal_auth
internal_auth-IsOk B bridge now later source body db f =
    elim (Bool-cases (is_throttled now source f).0) [
      | inl t ↦ rw t tt
      | inr t ↦ elim (Bool-cases (credentials_ok B bridge body db)) [
        | inl c ↦ rw (t, c) (_, refl)
        | inr c ↦ rw (t, c) tt
      ]
    ]
