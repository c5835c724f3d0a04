-- ===== src/Api/Answered.antt =====
-- Which endpoints are answered by the application itself, on a sound state.
use embediq_cloud.Prelude.{
  ◌≡◌, refl, sym, subst, String, Bool, true, false, Option, some, none, Option-cases, inl, inr,
  arith, is_some, ℕ,
}
use embediq_cloud.Prelude.Strip.{strip, after_prefix}
use embediq_cloud.Outcome.{Outcome, returned, raised, http_exception, is_handled, Outcome-cases}
use embediq_cloud.Json.{Value}
use embediq_cloud.Envelope.{respond}
use embediq_cloud.Config.{Settings}
use embediq_cloud.Auth.Admin.{Jwt, require_admin, decode_token}
use embediq_cloud.Registry.Devices.Handled.{
  get_device-is_handled, patch_device-is_handled, delete_device-is_handled, list_devices-is_handled,
}
use embediq_cloud.Registry.Groups.Handled.{
  list_groups-is_handled, post_group-is_handled, delete_group-is_handled,
}
use embediq_cloud.Registry.Maintenance.{system_health, rotate_certs}
use embediq_cloud.Db.Connection.{◌>>=◌}
use embediq_cloud.Shadow.Handled.{get_shadow-is_handled, patch_desired-is_handled}
use embediq_cloud.Ota.Commands.{device_cmd-is_handled}
use embediq_cloud.System.{System}
use embediq_cloud.Api.{
  Host, Moment, Headers, Endpoint, admin, guard_of, success_of, run, check, serve, answer, settings,
  forget, devices_get, device_get, device_patch, device_delete, groups_get, group_post,
  group_delete, system_health_get, rotate_post, shadow_get, desired_patch, cmd_post,
}
use embediq_cloud.Api.Sound.{IsSound, check-IsSound}

-- The endpoints of the registry, the shadow and the commands that use nothing but the file and the
-- broker: all but POST of a device, which asks bcrypt, and GET of the certificate.
abbrev pub uses_file : Endpoint → Bool
uses_file devices_get = true
uses_file (device_get k) = true
uses_file (device_patch k body) = true
uses_file (device_delete k) = true
uses_file groups_get = true
uses_file (group_post body) = true
uses_file (group_delete g) = true
uses_file system_health_get = true
uses_file rotate_post = true
uses_file (shadow_get k) = true
uses_file (desired_patch k delta) = true
uses_file (cmd_post k body) = true
uses_file _ = false

uses_file-admin : (e : Endpoint) → uses_file e ≡ true → guard_of e ≡ admin
uses_file-admin e u = ground arith

require_admin-is_handled :
    (J : Jwt) (now : ℕ) (s : Settings) (authorization : Option String)
    → is_handled (require_admin J now (returned s) authorization) ≡ true
unfolding require_admin decode_token
require_admin-is_handled J now s none = refl
require_admin-is_handled J now s (some authorization) =
    elim (Option-cases (after_prefix "Bearer " authorization)) [
      | inl n ↦ ground (arith, n)
      | inr (rest, n) ↦ elim (Option-cases (J.decode now (strip rest) s.jwt_secret)) [
        | inl d ↦ ground (arith, n, d)
        | inr (payload, d) ↦ ground (arith, n, d)
      ]
    ]

respond-is_handled :
    (n : ℕ) (r : Outcome Value) → is_handled r ≡ true → is_some (respond n r) ≡ true
unfolding respond
respond-is_handled n (returned v) k = refl
respond-is_handled n (raised (http_exception status detail)) k = refl
respond-is_handled n (raised x) k = ground (arith, k)

module _ (h : Host) (m : Moment) where
  run-is_handled :
      (e : Endpoint) (s : System (h.codec).Text)
      → IsSound h.codec s
      → uses_file e ≡ true
      → is_handled (run h m e s).0 ≡ true
  unfolding run system_health rotate_certs ◌>>=◌
  run-is_handled devices_get s i u = list_devices-is_handled h.codec (s.world).db
  run-is_handled (device_get k) s i u = get_device-is_handled h.codec (s.world).db k i.readable
  run-is_handled (device_patch k body) s i u = patch_device-is_handled h.codec (s.world).db k body
  run-is_handled (device_delete k) s i u = delete_device-is_handled h.codec (s.world).db k
  run-is_handled groups_get s i u = list_groups-is_handled (s.world).db
  run-is_handled (group_post body) s i u = post_group-is_handled (s.world).db m.seconds body
  run-is_handled (group_delete g) s i u = delete_group-is_handled (s.world).db g
  run-is_handled system_health_get s i u = refl
  run-is_handled rotate_post s i u = refl
  run-is_handled (shadow_get k) s i u = get_shadow-is_handled h.codec (s.world).db k i.readable
  run-is_handled (desired_patch k delta) s i u =
      patch_desired-is_handled h.codec (s.world).db h.takes m.seconds k delta i.readable
  run-is_handled (cmd_post k body) s i u = device_cmd-is_handled h.codec h.takes k body (s.world).db
  run-is_handled e s i u = absurd (ground (arith, u))

  forget-is_handled : (r : Outcome String) → is_handled r ≡ true → is_handled (forget h m r) ≡ true
  forget-is_handled (returned v) k = refl
  forget-is_handled (raised x) k = k

  check-is_handled :
      (headers : Headers) (s : System (h.codec).Text) (found : Settings)
      → (settings h m s).0 ≡ returned found
      → is_handled (check h m admin headers s).0 ≡ true
  unfolding check
  check-is_handled headers s found e =
      forget-is_handled _
        (rw e (require_admin-is_handled h.jwt m.seconds found headers.authorization))

  serve-is_handled :
      (headers : Headers) (e : Endpoint) (s : System (h.codec).Text) (found : Settings)
      → IsSound h.codec s
      → uses_file e ≡ true
      → (settings h m s).0 ≡ returned found
      → is_handled (serve h m headers e s).0 ≡ true
  unfolding serve
  serve-is_handled headers e s found i u f =
      let g = guard_of e in
      let passed : is_handled (check h m g headers s).0 ≡ true =
        subst (λ x. is_handled (check h m x headers s).0 ≡ true) (sym (uses_file-admin e u))
          (check-is_handled headers s found f) in
      let sound = check-IsSound h m g headers s i in
      elim (Outcome-cases (check h m g headers s).0) [
        | inl (v, n) ↦ rw (serve, n) (run-is_handled e (check h m g headers s).1 sound u)
        | inr (x, n) ↦ rw (serve, n) (rw n at passed)
      ]

  pub answer-is_some :
      (headers : Headers) (e : Endpoint) (s : System (h.codec).Text) (found : Settings)
      → IsSound h.codec s
      → uses_file e ≡ true
      → (settings h m s).0 ≡ returned found
      → is_some (answer h m headers e s) ≡ true
  unfolding answer
  answer-is_some headers e s found i u f =
      respond-is_handled (success_of e) _ (serve-is_handled headers e s found i u f)
