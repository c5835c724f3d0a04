-- ===== src/Config.antt =====
-- app/config.py. The environment is a function; the class `Settings` of pydantic, which reads it, is
-- a parameter of `get_settings`. Digits outside ASCII, which `int` reads too, are left out.
pub mod Classes
pub mod Fields
use Prim.Native.Char.{code}
use mathlib.Core.Option
use embediq_cloud.Prelude.{
  ℕ, ◌+◌, ◌-◌, ◌*◌, ◌==◌, ◌+++◌, String, Bool, true, false, ◌&&◌, ◌||◌, Option, none, some, List,
  [], ◌∷◌, leb, nat_eq, if◌then◌else◌,
}
use embediq_cloud.Prelude.Int.{ℤ, pos, negate}
use embediq_cloud.Prelude.Strip.{is_int_space, lstrip, rstrip, strip, lower_code}
use embediq_cloud.Outcome.{Outcome, returned, raised, configuration_error}

-- `os.environ.get(name)`
abbrev pub Environ : Type 0
Environ = String → Option String

-- `os.environ.get(name, default)`
abbrev pub getenv : Environ → String → String → String
getenv env name default = elim (env name) [ none ↦ default | some s ↦ s ]

pub record Settings : Type 0 where
  pub admin_user : String
  pub admin_pass_hash : String
  pub jwt_secret : String
  pub db_path : String

-- what pydantic makes of the environment: the settings, or the names that its errors are about
pub data Validated : Type 0 where
  valid : Settings → Validated
  invalid : List String → Validated

-- `", ".join(names)`
abbrev pub comma_join : List String → String
comma_join [] = ""
comma_join (s ∷ []) = s
comma_join (s ∷ t ∷ ss) = s +++ ", " +++ comma_join (t ∷ ss)

abbrev pub missing_message : List String → String
missing_message names =
    "Missing/invalid required configuration: "
    +++ comma_join names
    +++ ". "
    +++ "Set ADMIN_PASS_HASH and JWT_SECRET (see .env.example / run ./install.sh)."

-- `get_settings` with what `lru_cache` holds before and after: an exception is not kept
unfoldable pub get_settings :
    (Environ → Validated) → Environ → Option Settings → Outcome Settings × Option Settings
get_settings validate env (some s) = (returned s, some s)
get_settings validate env none = elim (validate env) [
  | valid s ↦ (returned s, some s)
  | invalid names ↦ (raised (configuration_error (missing_message names)), none)
]

pub record BridgeSettings : Type 0 where
  pub bridge_enabled : Bool
  pub mqtt_host : String
  pub mqtt_port : ℤ
  pub mqtt_username : String
  pub mqtt_password : String
  pub influx_url : String
  pub influx_token : String
  pub influx_org : String
  pub influx_bucket : String
  pub loki_url : String

abbrev is_digit : ℕ → Bool
is_digit c = leb b'0' c && leb c b'9'

-- The value of a text of digits with single underscores between them, after `acc`; `after` is
-- whether a digit stands before it.
digits : Bool → ℕ → String → Option ℕ
digits after acc String.[] = if after then some acc else none
digits after acc (String.◌∷◌ c s) = elim (is_digit (code c)) [
  | true ↦ digits true (acc * 10 + (code c - b'0')) s
  | false ↦ elim (after && nat_eq (code c) b'_') [ true ↦ digits false acc s | false ↦ none ]
]

count_digits : String → ℕ
count_digits String.[] = 0
count_digits (String.◌∷◌ c s) = (if is_digit (code c) then 1 else 0) + count_digits s

-- an unsigned numeral, which Python limits to 4300 digits
numeral : String → Option ℕ
unfolding digits count_digits
numeral s = if leb (count_digits s) 4300 then digits false 0 s else none

signed : String → Option ℤ
unfolding numeral
signed String.[] = none
signed (String.◌∷◌ c s) =
    if nat_eq (code c) b'-'
    then Option.map negate (numeral s)
    else if nat_eq (code c) b'+'
    then Option.map pos (numeral s)
    else Option.map pos (numeral (String.◌∷◌ c s))

-- `int(text)`, with `none` for its ValueError
unfoldable pub parse_int : String → Option ℤ
unfolding signed
parse_int s = signed (rstrip is_int_space (lstrip is_int_space s))

unfoldable pub get_cert_warn_days : Environ → ℤ
get_cert_warn_days env = elim (parse_int (getenv env "CERT_WARN_DAYS" "30")) [
  | none ↦ pos 30
  | some n ↦ n
]

unfoldable pub get_internal_api_key : Environ → String
get_internal_api_key env = getenv env "INTERNAL_API_KEY" ""

-- `s.lower() == t` for a lower-case ASCII text `t` with no "k": the lower case of no character
-- outside ASCII is one other ASCII letter.
abbrev lowers_to : String → String → Bool
lowers_to String.[] String.[] = true
lowers_to String.[] (String.◌∷◌ d t) = false
lowers_to (String.◌∷◌ c s) String.[] = false
lowers_to (String.◌∷◌ c s) (String.◌∷◌ d t) = nat_eq (lower_code (code c)) (code d) && lowers_to s t

unfoldable pub is_production : Environ → Bool
is_production env =
    let profile = strip (getenv env "EMBEDIQ_PROFILE" "dev") in
    lowers_to profile "prod" || lowers_to profile "production"

abbrev pub key_message : String
key_message =
    "INTERNAL_API_KEY must be set in the production profile (EMBEDIQ_PROFILE=prod): the "
    +++ "/internal endpoints require a shared secret. Set it in .env (generated by install.sh)."

unfoldable pub assert_internal_key_in_prod : Environ → Outcome (Unit {0})
unfolding is_production get_internal_api_key
assert_internal_key_in_prod env =
    if is_production env && (get_internal_api_key env == "")
    then raised (configuration_error key_message)
    else returned tt
