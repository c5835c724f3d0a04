-- ===== src/Auth/Admin.antt =====
-- The administrator's login of app/auth.py, over the library PyJWT.
pub mod Session
use embediq_cloud.Prelude.{
  ℕ, ◌+◌, ◌*◌, ◌≡◌, String, ◌==◌, Bool, true, false, not, ◌||◌, Option, none, some, [], ◌∷◌, ltb,
  if◌then◌else◌,
}
use embediq_cloud.Prelude.Int.{ℤ, pos}
use embediq_cloud.Prelude.Strip.{strip, after_prefix, NoSpace}
use embediq_cloud.Outcome.{
  Error, Outcome, returned, raised, http_exception, jwt_error, or_raise, ◌>>=◌,
}
use embediq_cloud.Json.{Value, str, int, Object, object, get}
use embediq_cloud.Envelope.{ok}
use embediq_cloud.Password.{Bcrypt, verify_password}
use embediq_cloud.Config.{Settings}

-- the payload of a token
abbrev pub claims : String → ℕ → Object
claims sub exp = ("sub", str sub) ∷ ("exp", int (pos exp)) ∷ []

-- The library, with HS256: `none` is its PyJWTError. The last argument of `encode` and `decode` is
-- the secret; the first of `decode` is the time in seconds.
pub record Jwt : Type 0 where
  pub encode : Object → String → Option String
  pub decode : ℕ → String → String → Option Object
  -- a token decodes under its secret to its payload until it expires, and then to an error
  pub decode-encode :
      (sub secret token : String) (exp now : ℕ)
      → encode (claims sub exp) secret ≡ some token
      → decode now token secret ≡ (if ltb now exp then some (claims sub exp) else none)
  -- a token is Base64 and full stops
  pub encode-NoSpace :
      (payload : Object) (secret token : String)
      → encode payload secret ≡ some token
      → NoSpace token

-- `TOKEN_TTL_SECONDS`
abbrev pub token_ttl_seconds : ℕ
token_ttl_seconds = 24 * 60 * 60

pub record LoginRequest : Type 0 where
  pub username : String
  pub password : String

-- `payload.get("sub")`, if it is a text
abbrev subject : Object → Outcome String
subject payload = elim (get "sub" payload) [
  | str sub ↦ returned sub
  | _ ↦ raised (http_exception 401 "invalid token subject")
]

abbrev bad_header : Error
bad_header = http_exception 401 "missing or malformed Authorization header"

module _ (J : Jwt) where
  unfoldable pub create_token : ℕ → String → String → Outcome String
  create_token now sub secret =
      or_raise (J.encode (claims sub (now + token_ttl_seconds)) secret) jwt_error

  unfoldable pub decode_token : ℕ → String → String → Outcome Object
  decode_token now token secret = or_raise (J.decode now token secret) jwt_error

  -- `except jwt.PyJWTError`
  abbrev decoded : Outcome Object → Outcome String
  decoded (returned payload) = subject payload
  decoded (raised jwt_error) = raised (http_exception 401 "invalid or expired token")
  decoded (raised e) = raised e

  -- the text after "Bearer "
  bearer : ℕ → Outcome Settings → Option String → Outcome String
  unfolding decode_token
  bearer now settings none = raised bad_header
  bearer now settings (some rest) =
      decoded (settings >>= λ s. decode_token now (strip rest) s.jwt_secret)

  -- `settings` is `get_settings()`. An empty header has no prefix "Bearer ".
  unfoldable pub require_admin : ℕ → Outcome Settings → Option String → Outcome String
  unfolding bearer
  require_admin now settings none = raised bad_header
  require_admin now settings (some authorization) =
      bearer now settings (after_prefix "Bearer " authorization)

  module _ (B : Bcrypt) where
    -- `body.username != settings.ADMIN_USER or not verify_password(...)`
    abbrev wrong_credentials : Settings → LoginRequest → Bool
    wrong_credentials s body =
        not (body.username == s.admin_user)
        || not (verify_password B body.password s.admin_pass_hash)

    unfoldable pub login : ℕ → Outcome Settings → LoginRequest → Outcome Value
    unfolding create_token
    login now settings body = settings >>= λ s.
        if wrong_credentials s body
        then raised (http_exception 401 "invalid credentials")
        else create_token now s.admin_user s.jwt_secret >>= λ token.
            returned (ok (object (("token", str token) ∷ [])))
