-- ===== src/Auth/Admin/Session.antt =====
-- How long a token from the login is accepted, and whose.
use embediq_cloud.Prelude.{
  ℕ, ◌+◌, ◌≡◌, ◌↔◌, refl, String, ◌+++◌, eq_iff, true, some, Option-cases, Bool-cases, inl, inr, [],
  ◌∷◌, ltb, arith, if◌then◌else◌,
}
use embediq_cloud.Prelude.Strip.{NoSpace, strip, strip-NoSpace, after_prefix, after_prefix-append}
use embediq_cloud.Outcome.{Outcome, returned, raised, http_exception, ◌>>=◌}
use embediq_cloud.Json.{str, Object, object, get}
use embediq_cloud.Envelope.{ok, IsOk}
use embediq_cloud.Password.{Bcrypt, verify_password}
use embediq_cloud.Config.{Settings}
use embediq_cloud.Auth.Admin.{
  Jwt, claims, LoginRequest, decode_token, require_admin, login, token_ttl_seconds,
  wrong_credentials, decoded,
}

-- the header that the clients send
abbrev pub bearer_header : String → String
bearer_header token = "Bearer " +++ token

-- what the administrator's token gives at the time `later`
abbrev pub verdict_at : ℕ → ℕ → String → Outcome String
verdict_at issued later user =
    if ltb later (issued + token_ttl_seconds)
    then returned user
    else raised (http_exception 401 "invalid or expired token")

module _ (J : Jwt) (B : Bcrypt) (s : Settings) where
  -- the token that a login answers is the library's
  encode-login :
      (now : ℕ) (body : LoginRequest) (token : String)
      → login J B now (returned s) body ≡ returned (ok (object (("token", str token) ∷ [])))
      → J.encode (claims s.admin_user (now + token_ttl_seconds)) s.jwt_secret ≡ some token
  unfolding login ok
  encode-login now body token e =
      elim (Option-cases (J.encode (claims s.admin_user (now + token_ttl_seconds)) s.jwt_secret)) [
        | inl n ↦ absurd (ground (arith, n))
        | inr (t, n) ↦ ground (arith, n)
      ]

  -- a header with a token of the library
  require_admin-bearer :
      (now : ℕ) (token : String)
      → NoSpace token
      → require_admin J now (returned s) (some (bearer_header token))
        ≡ decoded J (decode_token J now token s.jwt_secret)
  unfolding require_admin
  require_admin-bearer now token h =
      rw (after_prefix-append "Bearer " token) (rw (strip-NoSpace token h) refl)

  -- A login that succeeds gives a token that passes as the administrator at every time before 24
  -- hours are over, and is refused by 401 from then on.
  pub require_admin-login :
      (now later : ℕ) (body : LoginRequest) (token : String)
      → login J B now (returned s) body ≡ returned (ok (object (("token", str token) ∷ [])))
      → require_admin J later (returned s) (some (bearer_header token))
        ≡ verdict_at now later s.admin_user
  unfolding decode_token
  require_admin-login now later body token e =
      let made = encode-login now body token e in
      let exp = now + token_ttl_seconds in
      ground (
        arith,
        require_admin-bearer later token
            (J.encode-NoSpace (claims s.admin_user exp) s.jwt_secret token made),
        J.decode-encode s.admin_user s.jwt_secret token exp later made,
      )

  -- The login succeeds exactly for the administrator's name with a password that matches the hash,
  -- where the library makes the token.
  pub login_iff :
      (now : ℕ) (body : LoginRequest) (token : String)
      → J.encode (claims s.admin_user (now + token_ttl_seconds)) s.jwt_secret ≡ some token
      → (login J B now (returned s) body ≡ returned (ok (object (("token", str token) ∷ [])))) ↔ (
          (body.username ≡ s.admin_user)
          × (verify_password B body.password s.admin_pass_hash ≡ true))
  unfolding login
  login_iff now body token e = (
    λ h. ground (arith, eq_iff body.username s.admin_user),
    λ h. ground (arith, eq_iff body.username s.admin_user),
  )

  -- Whoever passes presents "Bearer " with a text that, stripped of white space, the library takes
  -- for a token under the secret whose subject is the result.
  pub require_admin_iff :
      (now : ℕ) (authorization : String) (sub : String)
      → (require_admin J now (returned s) (some authorization) ≡ returned sub) ↔ (
          (rest : String) × (payload : Object) × (after_prefix "Bearer " authorization ≡ some rest)
          × (J.decode now (strip rest) s.jwt_secret ≡ some payload)
          × (get "sub" payload ≡ str sub))
  unfolding require_admin decode_token
  require_admin_iff now authorization sub = (
    λ h. elim (Option-cases (after_prefix "Bearer " authorization)) [
      | inl n ↦ absurd (ground (arith, n))
      | inr (rest, n) ↦ elim (Option-cases (J.decode now (strip rest) s.jwt_secret)) [
        | inl m ↦ absurd (ground (arith, n, m))
        | inr (payload, m) ↦ (rest, payload, n, m, ground (arith, n, m))
      ]
    ],
    λ h. let (rest, payload, n, m, g) = h in ground (arith, n, m, g),
  )

module _ (J : Jwt) (B : Bcrypt) where
  token-IsOk :
      (r : Outcome String)
      → IsOk (r >>= λ token. returned (ok (object (("token", str token) ∷ []))))
  token-IsOk (returned token) = (_, refl)
  token-IsOk (raised e) = tt

  pub login-IsOk :
      (now : ℕ) (settings : Outcome Settings) (body : LoginRequest)
      → IsOk (login J B now settings body)
  unfolding login
  login-IsOk now (raised e) body = tt
  login-IsOk now (returned s) body = elim (Bool-cases (wrong_credentials J B s body)) [
    | inl w ↦ rw w tt
    | inr w ↦ rw w (token-IsOk _)
  ]
