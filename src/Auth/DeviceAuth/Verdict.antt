-- ===== src/Auth/DeviceAuth/Verdict.antt =====
-- Which credentials are accepted.
use mathlib.Core.Option.{some-injective}
use embediq_cloud.Prelude.{
  ℕ, ◌≡◌, ◌≢◌, ◌↔◌, ◌⊎◌, inl, inr, String, eq_iff, true, Option, Option-cases, Bool-cases, ap,
  count, length-filter, ◌<◌, some, none, List, [], ◌∷◌, arith,
}
use embediq_cloud.Db.{Db, Device, find_device}
use embediq_cloud.Password.{Bcrypt, verify_password}
use embediq_cloud.Auth.RateLimit.{Failures, failures_of, is_recent, is_throttled}
use embediq_cloud.Auth.DeviceAuth.{
  InternalAuthRequest, BridgeCredential, nonempty, bridge_credential_ok, has_cert, is_given,
  both_given, cert_ok, row_ok, password_ok, credentials_ok, internal_auth, allow,
}

nonempty-some : (o : Option String) (s : String) → nonempty o ≡ some s → (o ≡ some s) × (s ≢ "")
nonempty-some none s e = cc
nonempty-some (some t) s e = ground (arith, eq_iff t "", eq_iff s "")

nonempty_of_ne : (o : Option String) (s : String) → o ≡ some s → s ≢ "" → nonempty o ≡ some s
nonempty_of_ne none s e n = cc
nonempty_of_ne (some t) s e n = ground (arith, eq_iff t "", eq_iff s "")

-- some device has the common name
abbrev pub HasCert : {T : Type 0} → String → List (Device T) → Type 0
HasCert cn [] = ⊥
HasCert cn (d ∷ ds) = (d.cert_cn ≡ some cn) ⊎ HasCert cn ds

is_given_iff : (o : Option String) (s : String) → (is_given o s ≡ true) ↔ (o ≡ some s)
is_given_iff none s = (λ e. cc, λ e. cc)
is_given_iff (some t) s =
    (λ e. ap some ((eq_iff t s).0 e), λ e. (eq_iff t s).1 (some-injective t s e))

has_cert-HasCert :
    {T : Type 0} (cn : String) (ds : List (Device T)) → has_cert cn ds ≡ true → HasCert cn ds
unfolding has_cert
has_cert-HasCert cn [] e = cc
has_cert-HasCert cn (d ∷ ds) e = elim (Bool-cases (is_given d.cert_cn cn)) [
  | inl y ↦ inl ((is_given_iff d.cert_cn cn).0 y)
  | inr n ↦ inr (has_cert-HasCert cn ds (rw n at e))
]

HasCert-has_cert :
    {T : Type 0} (cn : String) (ds : List (Device T)) → HasCert cn ds → has_cert cn ds ≡ true
unfolding has_cert
HasCert-has_cert cn [] h = absurd h
HasCert-has_cert cn (d ∷ ds) (inl e) = rw ((is_given_iff d.cert_cn cn).1 e)
HasCert-has_cert cn (d ∷ ds) (inr h) = ground (arith, HasCert-has_cert cn ds h)

-- What makes the credentials of a request good: the bridge's own, a device with the certificate's
-- name, or a device with the id and a hash that the password matches. None of the texts is empty.
pub data IsAccepted (B : Bcrypt) {T : Type 0} (bridge : BridgeCredential)
    (body : InternalAuthRequest) (db : Db T) : Type 0 where
  by_bridge :
      (user pass : String)
      → bridge.user ≡ some user
      → user ≢ ""
      → bridge.pass ≡ some pass
      → pass ≢ ""
      → body.username ≡ some user
      → body.password ≡ some pass
      → IsAccepted B bridge body db
  by_cert :
      (cn : String)
      → body.cert_cn ≡ some cn
      → cn ≢ ""
      → HasCert cn db.devices
      → IsAccepted B bridge body db
  by_password :
      (username password hash : String) (d : Device T)
      → body.username ≡ some username
      → username ≢ ""
      → body.password ≡ some password
      → password ≢ ""
      → find_device username db ≡ some d
      → d.password_hash ≡ some hash
      → hash ≢ ""
      → B.checkpw password hash ≡ some true
      → IsAccepted B bridge body db

module _ (B : Bcrypt) {T : Type 0} (bridge : BridgeCredential) (body : InternalAuthRequest)
    (db : Db T) where
  bridge_pair_sound :
      (user pass : String)
      → nonempty bridge.user ≡ some user
      → nonempty bridge.pass ≡ some pass
      → both_given (some user) (some pass) body ≡ true
      → IsAccepted B bridge body db
  bridge_pair_sound user pass u p e =
      let (eu, nu) = nonempty-some bridge.user user u in
      let (ep, np) = nonempty-some bridge.pass pass p in
      by_bridge user pass eu nu ep np ((is_given_iff body.username user).0 (ground arith))
        ((is_given_iff body.password pass).0 (ground arith))

  bridge_sound : bridge_credential_ok bridge body ≡ true → IsAccepted B bridge body db
  unfolding bridge_credential_ok
  bridge_sound e = elim (Option-cases (nonempty bridge.user)) [
    | inl n ↦ cc (rw n at e)
    | inr (user, u) ↦ elim (Option-cases (nonempty bridge.pass)) [
      | inl n ↦ cc (rw (u, n) at e)
      | inr (pass, p) ↦ bridge_pair_sound user pass u p (rw (u, p) at e)
    ]
  ]

  cert_sound : cert_ok (nonempty body.cert_cn) db ≡ true → IsAccepted B bridge body db
  unfolding cert_ok
  cert_sound e = elim (Option-cases (nonempty body.cert_cn)) [
    | inl n ↦ cc (rw n at e)
    | inr (cn, n) ↦
        let (given, ne) = nonempty-some body.cert_cn cn n in
        by_cert cn given ne (has_cert-HasCert cn db.devices (rw n at e))
  ]

  hash_sound :
      (username password : String) (d : Device T)
      → nonempty body.username ≡ some username
      → nonempty body.password ≡ some password
      → find_device username db ≡ some d
      → row_ok B password (some d) ≡ true
      → IsAccepted B bridge body db
  unfolding verify_password
  hash_sound u p d nu np f e = elim (Option-cases (nonempty d.password_hash)) [
    | inl n ↦ cc (rw n at e)
    | inr (h, n) ↦
        let (gu, neu) = nonempty-some body.username u nu in
        let (gp, nep) = nonempty-some body.password p np in
        let (gh, neh) = nonempty-some d.password_hash h n in
        by_password u p h d gu neu gp nep f gh neh (ground arith)
  ]

  password_sound :
      password_ok B (nonempty body.username) (nonempty body.password) db ≡ true
      → IsAccepted B bridge body db
  unfolding password_ok
  password_sound e = elim (Option-cases (nonempty body.username)) [
    | inl n ↦ cc (rw n at e)
    | inr (u, nu) ↦ elim (Option-cases (nonempty body.password)) [
      | inl n ↦ cc (rw (nu, n) at e)
      | inr (p, np) ↦ elim (Option-cases (find_device u db)) [
        | inl n ↦ cc (rw (nu, np, n) at e)
        | inr (d, f) ↦ hash_sound u p d nu np f (rw (nu, np, f) at e)
      ]
    ]
  ]

  credentials_sound : credentials_ok B bridge body db ≡ true → IsAccepted B bridge body db
  unfolding credentials_ok
  credentials_sound e = elim (Bool-cases (bridge_credential_ok bridge body)) [
    | inl y ↦ bridge_sound y
    | inr n ↦ elim (Bool-cases (cert_ok (nonempty body.cert_cn) db)) [
      | inl y ↦ cert_sound y
      | inr m ↦ password_sound (ground arith)
    ]
  ]

  credentials_complete : IsAccepted B bridge body db → credentials_ok B bridge body db ≡ true
  unfolding credentials_ok bridge_credential_ok cert_ok password_ok verify_password
  credentials_complete (by_bridge user pass eu nu ep np gu gp) = ground (
    arith,
    nonempty_of_ne bridge.user user eu nu,
    nonempty_of_ne bridge.pass pass ep np,
    (is_given_iff body.username user).1 gu,
    (is_given_iff body.password pass).1 gp,
  )
  credentials_complete (by_cert cn e n h) =
      ground (arith, nonempty_of_ne body.cert_cn cn e n, HasCert-has_cert cn db.devices h)
  credentials_complete (by_password u p h d eu nu ep np f eh nh c) = ground (
    arith,
    nonempty_of_ne body.username u eu nu,
    nonempty_of_ne body.password p ep np,
    nonempty_of_ne d.password_hash h eh nh,
  )

  -- A source that is not throttled is allowed exactly when its credentials are good.
  pub internal_auth-allow_iff :
      (now later : ℕ) (source : String) (f : Failures)
      → count (is_recent now) (failures_of source f) < 10
      → ((internal_auth B bridge now later source body db f).0 ≡ allow)
        ↔ IsAccepted B bridge body db
  unfolding internal_auth is_throttled
  internal_auth-allow_iff now later source f few =
      let room = length-filter (is_recent now) (failures_of source f) in
      (
        λ e. credentials_sound (ground (arith, room)),
        λ a. ground (arith, room, credentials_complete a),
      )
