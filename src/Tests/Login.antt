-- ===== src/Tests/Login.antt =====
-- The guards and the broker's login on the small file.
use embediq_cloud.Prelude.{
  ℕ, ◌≡◌, ◌≤◌, ◌↔◌, refl, String, Option, none, some, List, [], ◌∷◌, count, arith,
}
use embediq_cloud.Outcome.{returned, raised, http_exception, type_error}
use embediq_cloud.Json.{Value, str, object}
use embediq_cloud.Envelope.{ok}
use embediq_cloud.Auth.RateLimit.{Failures}
use embediq_cloud.Auth.InternalKey.{require_internal_key}
use embediq_cloud.Auth.InternalKey.Sound.{
  require_internal_key_header, require_internal_key_not_ascii,
}
use embediq_cloud.Auth.DeviceAuth.{InternalAuthRequest, internal_auth, allow}
use embediq_cloud.Auth.DeviceAuth.Window.{
  Attempt, denials, in_window, denials_bounded, throttled_refuses_all,
}
use embediq_cloud.Auth.DeviceAuth.Verdict.{IsAccepted, internal_auth-allow_iff}
use embediq_cloud.Auth.DeviceAuth.Enrolment.{internal_auth-post_device}
use embediq_cloud.Registry.Devices.{post_device}
use embediq_cloud.Registry.Devices.Replies.{post_device_accepted}
use embediq_cloud.Tests.{codec, bcrypt, home, home-IsValid, door, hashed, no_bridge}

abbrev knock : InternalAuthRequest
knock = record { username = some "door"; password = some "knock"; cert_cn = none }

abbrev lamp_login : InternalAuthRequest
lamp_login = record { username = some "lamp"; password = some "secret"; cert_cn = none }

abbrev attempt : ℕ → Attempt (Option Value)
attempt t = record { source = "10.0.0.1"; now = t; later = t; body = knock; db = home }

abbrev three : List (Attempt (Option Value))
three = attempt 7 ∷ attempt 5 ∷ attempt 5 ∷ []

-- ten failures of one source
abbrev ten : Failures
ten = ("10.0.0.1", 1 ∷ 2 ∷ 3 ∷ 4 ∷ 5 ∷ 6 ∷ 7 ∷ 8 ∷ 9 ∷ 10 ∷ []) ∷ []

denials_bounded_example : count (in_window 5) (denials bcrypt no_bridge "10.0.0.1" three) ≤ 10
denials_bounded_example =
    denials_bounded bcrypt no_bridge "10.0.0.1" 5 three
      (omega arith, omega arith, (omega arith, omega arith, omega arith))

throttled_refuses_all_example :
    (internal_auth bcrypt no_bridge 11 11 "10.0.0.1" lamp_login home ten).0
    ≡ raised (http_exception 429 "too many authentication failures; slow down")
throttled_refuses_all_example =
    throttled_refuses_all bcrypt no_bridge 11 11 "10.0.0.1" lamp_login home ten (omega arith)

internal_auth-allow_iff_example :
    ((internal_auth bcrypt no_bridge 11 11 "10.0.0.1" lamp_login home []).0 ≡ allow)
    ↔ IsAccepted bcrypt no_bridge lamp_login home
internal_auth-allow_iff_example =
    internal_auth-allow_iff bcrypt no_bridge lamp_login home 11 11 "10.0.0.1" [] (omega arith)

internal_auth-post_device_example :
    (internal_auth bcrypt no_bridge 11 11 "10.0.0.1" knock
      (post_device codec bcrypt 5 "salt" door home).1
      []).0
    ≡ allow
internal_auth-post_device_example =
    internal_auth-post_device codec bcrypt no_bridge 5 11 11 "salt" "10.0.0.1" "knock" door home []
      (ok (object (("id", str "door") ∷ []))) (λ e. cc) refl (λ e. cc)
      (post_device_accepted codec bcrypt 5 "salt" door home "knock" (hashed "knock") home-IsValid
        refl refl refl)
      (omega arith)

abbrev key : String
key = "key"

abbrev given : Option String
given = some "key"

abbrev absent : Option String
absent = none

-- a request that the guard lets through
passes : require_internal_key key given absent ≡ returned tt
passes = require_internal_key_header key absent refl

require_internal_key_not_ascii_example :
    require_internal_key "key" none (some "schlüssel") ≡ raised type_error
require_internal_key_not_ascii_example =
    require_internal_key_not_ascii "key" "schlüssel" (λ e. cc) refl
