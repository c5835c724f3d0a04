-- ===== src/Tests/Tokens.antt =====
-- A stand-in for PyJWT that signs one payload, the administrator's login at second 5, and the runs
-- of the login.
use embediq_cloud.Prelude.{
  ℕ, ◌≡◌, ◌↔◌, refl, String, ◌==◌, eq_iff, Bool, true, ◌&&◌, Option, none, some, subst, [], ◌∷◌,
  ltb, nat_eq, arith, if◌then◌else◌,
}
use embediq_cloud.Prelude.Int.{pos}
use embediq_cloud.Prelude.Strip.{NoSpace}
use embediq_cloud.Outcome.{returned}
use embediq_cloud.Json.{Value, str, int, Object, object, get}
use embediq_cloud.Envelope.{ok}
use embediq_cloud.Password.{verify_password}
use embediq_cloud.Config.{Settings}
use embediq_cloud.Auth.Admin.{Jwt, claims, LoginRequest, login, require_admin}
use embediq_cloud.Auth.Admin.Session.{bearer_header, verdict_at, require_admin-login, login_iff}
use embediq_cloud.Registry.Maintenance.{Expiry}
use embediq_cloud.Tests.{bcrypt, text_of}

abbrev exp_of : Value → ℕ
exp_of (int (pos n)) = n
exp_of _ = 0

-- five seconds and a day
abbrev pub expires : ℕ
expires = 86405

abbrev is_signed : String → ℕ → String → Bool
is_signed sub exp secret = (sub == "root") && (secret == "key") && nat_eq exp expires

abbrev pub encode : Object → String → Option String
encode payload secret =
    if is_signed (text_of (get "sub" payload)) (exp_of (get "exp" payload)) secret
    then some "aa.bb.cc"
    else none

abbrev pub decode : ℕ → String → String → Option Object
decode now token secret =
    if (token == "aa.bb.cc") && (secret == "key") && ltb now expires
    then some (claims "root" expires)
    else none

pub decode-encode :
    (sub secret token : String) (exp now : ℕ)
    → encode (claims sub exp) secret ≡ some token
    → decode now token secret ≡ (if ltb now exp then some (claims sub exp) else none)
decode-encode sub secret token exp now e =
    ground (arith, eq_iff sub "root", eq_iff secret "key", eq_iff token "aa.bb.cc")

pub encode-NoSpace :
    (payload : Object) (secret token : String) → encode payload secret ≡ some token → NoSpace token
encode-NoSpace payload secret token e =
    let made : "aa.bb.cc" ≡ token = ground (arith, e) in
    subst NoSpace made (refl, (refl, (refl, (refl, (refl, (refl, (refl, (refl, tt))))))))

abbrev pub jwt : Jwt
jwt = record {
  encode = encode;
  decode = decode;
  decode-encode = decode-encode;
  encode-NoSpace = encode-NoSpace;
}

abbrev pub settings : Settings
settings = record {
  admin_user = "root";
  admin_pass_hash = "toor$";
  jwt_secret = "key";
  db_path = "embediq.db";
}

abbrev pub root_login : LoginRequest
root_login = record { username = "root"; password = "toor" }

pub root_login_lem :
    login jwt bcrypt 5 (returned settings) root_login
    ≡ returned (ok (object (("token", str "aa.bb.cc") ∷ [])))
unfolding login verify_password
root_login_lem = refl

-- accepted at the last second, refused at the next
require_admin-login_example :
    (require_admin jwt 86404 (returned settings) (some (bearer_header "aa.bb.cc"))
      ≡ verdict_at 5 86404 "root")
    × (require_admin jwt 86405 (returned settings) (some (bearer_header "aa.bb.cc"))
        ≡ verdict_at 5 86405 "root")
require_admin-login_example = (
  require_admin-login jwt bcrypt settings 5 86404 root_login "aa.bb.cc" root_login_lem,
  require_admin-login jwt bcrypt settings 5 86405 root_login "aa.bb.cc" root_login_lem,
)

login_iff_example :
    (login jwt bcrypt 5 (returned settings) root_login
      ≡ returned (ok (object (("token", str "aa.bb.cc") ∷ []))))
    ↔ ((root_login.username ≡ settings.admin_user)
        × (verify_password bcrypt root_login.password settings.admin_pass_hash ≡ true))
login_iff_example = login_iff jwt bcrypt settings 5 root_login "aa.bb.cc" refl

abbrev expiry_of : Expiry
expiry_of pem = if pem == "pem" then some 2592000 else none
