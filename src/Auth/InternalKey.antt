-- ===== src/Auth/InternalKey.antt =====
-- `require_internal_key` of app/auth.py.
pub mod Sound
use Prim.Native.Char.{code}
use Prim.Native.String
use embediq_cloud.Prelude.{
  String, ◌==◌, Bool, true, false, ◌&&◌, Option, none, some, List, [], ◌∷◌, ◌++◌, ltb,
  if◌then◌else◌,
}
use embediq_cloud.Outcome.{Outcome, returned, raised, http_exception, type_error}

abbrev pub is_ascii : String → Bool
is_ascii String.[] = true
is_ascii (String.◌∷◌ c s) = ltb (code c) 128 && is_ascii s

-- `hmac.compare_digest` of two `str`, which takes ASCII only
unfoldable pub compare_digest : String → String → Outcome Bool
compare_digest a b = if is_ascii a && is_ascii b then returned (a == b) else raised type_error

-- `any(hmac.compare_digest(value, key) for value in presented)`
any_digest : String → List String → Outcome Bool
any_digest key [] = returned false
any_digest key (value ∷ rest) = elim (compare_digest value key) [
  | raised e ↦ raised e
  | returned true ↦ returned true
  | returned false ↦ any_digest key rest
]

-- `value for value in (...) if value`, on one header
abbrev header : Option String → List String
header none = []
header (some value) = if value == "" then [] else value ∷ []

abbrev verdict : Outcome Bool → Outcome (Unit {0})
verdict (raised e) = raised e
verdict (returned true) = returned tt
verdict (returned false) = raised (http_exception 401 "missing or invalid internal key")

-- `key` is `get_internal_api_key()`.
pub require_internal_key : String → Option String → Option String → Outcome (Unit {0})
require_internal_key key x_internal_key user_agent =
    if key == ""
    then returned tt
    else verdict (any_digest key (header x_internal_key ++ header user_agent))
