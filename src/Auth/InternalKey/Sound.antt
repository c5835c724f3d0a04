-- ===== src/Auth/InternalKey/Sound.antt =====
-- Who passes the guard of the internal endpoints.
use text.Mathlib.TextLemmas.{cons-ne-nil}
use embediq_cloud.Prelude.{
  ◌≡◌, ◌≢◌, ◌⊎◌, String, eq_iff, eq_refl, true, false, Option, none, some, arith,
}
use embediq_cloud.Outcome.{returned, raised, type_error}
use embediq_cloud.Auth.InternalKey.{is_ascii, compare_digest, any_digest, require_internal_key}

-- With a key configured, a request passes only if one of the two headers is the key.
pub require_internal_key_sound :
    (key : String) (x_internal_key user_agent : Option String)
    → key ≢ ""
    → require_internal_key key x_internal_key user_agent ≡ returned tt
    → (x_internal_key ≡ some key) ⊎ (user_agent ≡ some key)
unfolding require_internal_key any_digest compare_digest
require_internal_key_sound key none none h e = ground (arith, eq_iff key "")
require_internal_key_sound key none (some u) h e = ground (arith, eq_iff key "", eq_iff u key)
require_internal_key_sound key (some x) none h e = ground (arith, eq_iff key "", eq_iff x key)
require_internal_key_sound key (some x) (some u) h e =
    ground (arith, eq_iff key "", eq_iff x key, eq_iff u key)

-- A caller that presents an ASCII key in X-Internal-Key passes, whatever its User-Agent.
pub require_internal_key_header :
    (key : String) (user_agent : Option String)
    → is_ascii key ≡ true
    → require_internal_key key (some key) user_agent ≡ returned tt
unfolding require_internal_key any_digest compare_digest
require_internal_key_header key none a = ground (arith, eq_refl key)
require_internal_key_header key (some u) a = ground (arith, eq_refl key)

-- With a key configured, a User-Agent that is no ASCII text, presented alone, is answered by a
-- TypeError and not by 401.
pub require_internal_key_not_ascii :
    (key value : String)
    → key ≢ ""
    → is_ascii value ≡ false
    → require_internal_key key none (some value) ≡ raised type_error
unfolding require_internal_key any_digest compare_digest
require_internal_key_not_ascii key String.[] h a = cc
require_internal_key_not_ascii key (String.◌∷◌ c s) h a =
    let ne = cons-ne-nil c s in ground (arith, eq_iff key "", eq_iff (String.◌∷◌ c s) "")
