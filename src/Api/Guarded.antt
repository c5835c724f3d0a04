-- ===== src/Api/Guarded.antt =====
-- What a caller needs to get behind the guards of the routers.
use embediq_cloud.Prelude.{
  ◌≡◌, ◌≢◌, ◌⊎◌, refl, inl, inr, String, false, Option, some, none, Option-cases, arith,
}
use embediq_cloud.Prelude.Strip.{strip, after_prefix}
use embediq_cloud.Outcome.{Error, Outcome, returned, raised, is_returned, Outcome-cases}
use embediq_cloud.Json.{str, Object, get}
use embediq_cloud.Config.{Settings, getenv, get_internal_api_key}
use embediq_cloud.Auth.Admin.{require_admin}
use embediq_cloud.Auth.Admin.Session.{require_admin_iff}
use embediq_cloud.Auth.InternalKey.{require_internal_key}
use embediq_cloud.Auth.InternalKey.Sound.{require_internal_key_sound}
use embediq_cloud.System.{System}
use embediq_cloud.Api.{
  Host, Moment, Headers, Endpoint, internal, admin, guard_of, check, serve, settings, health_get,
  auth_post, acl_post, callback_post, devices_get, device_get, device_post, device_patch,
  device_delete, groups_get, group_post, group_delete, system_health_get, certs_get, rotate_post,
  shadow_get, desired_patch, firmware_get, firmware_post, firmware_delete, deploy_post, status_get,
  cmd_post,
}

-- the endpoints of the registry, of the shadow and of the updates, one by one
abbrev pub IsForAdmin : Endpoint → Type 0
IsForAdmin devices_get = Unit
IsForAdmin (device_get k) = Unit
IsForAdmin (device_post body) = Unit
IsForAdmin (device_patch k body) = Unit
IsForAdmin (device_delete k) = Unit
IsForAdmin groups_get = Unit
IsForAdmin (group_post body) = Unit
IsForAdmin (group_delete g) = Unit
IsForAdmin system_health_get = Unit
IsForAdmin certs_get = Unit
IsForAdmin rotate_post = Unit
IsForAdmin (shadow_get k) = Unit
IsForAdmin (desired_patch k delta) = Unit
IsForAdmin firmware_get = Unit
IsForAdmin (firmware_post name version filename content) = Unit
IsForAdmin (firmware_delete id) = Unit
IsForAdmin (deploy_post body) = Unit
IsForAdmin (status_get k) = Unit
IsForAdmin (cmd_post k body) = Unit
IsForAdmin _ = ⊥

-- the endpoints that the broker and Hawkbit call
abbrev pub IsForServices : Endpoint → Type 0
IsForServices (auth_post source body) = Unit
IsForServices (acl_post body) = Unit
IsForServices (callback_post body) = Unit
IsForServices _ = ⊥

IsForAdmin-guard : (e : Endpoint) → IsForAdmin e → guard_of e ≡ admin
IsForAdmin-guard health_get a = elim a [ ]
IsForAdmin-guard e a = ground arith

IsForServices-guard : (e : Endpoint) → IsForServices e → guard_of e ≡ internal
IsForServices-guard health_get i = elim i [ ]
IsForServices-guard e i = ground arith

-- The file, the requests to other services, the messages and the failed validations are as before.
pub record IsUntouched {T : Type 0} (s t : System T) : Type 0 where
  pub world : t.world ≡ s.world
  pub sent : t.sent ≡ s.sent
  pub failures : t.failures ≡ s.failures

module _ (h : Host) (m : Moment) (headers : Headers) (s : System (h.codec).Text) where
  -- the Authorization header has a text of which the library makes a payload with a subject
  abbrev pub HasToken : Type 0
  HasToken =
      (found : Settings) × (authorization : String) × (rest : String) × (payload : Object)
      × (sub : String) × ((settings h m s).0 ≡ returned found)
      × (headers.authorization ≡ some authorization)
      × (after_prefix "Bearer " authorization ≡ some rest)
      × ((h.jwt).decode m.seconds (strip rest) found.jwt_secret ≡ some payload)
      × (get "sub" payload ≡ str sub)

  -- the configured key is in one of the two headers
  abbrev pub HasKey : Type 0
  HasKey =
      let key = getenv m.env "INTERNAL_API_KEY" "" in
      (headers.x_internal_key ≡ some key) ⊎ (headers.user_agent ≡ some key)

  -- the application answers no success and does nothing
  abbrev pub IsRefused : Endpoint → Type 0
  IsRefused e = let (r, t) = serve h m headers e s in (is_returned r ≡ false) × IsUntouched s t

  passes-HasToken :
      (authorization : Option String) (found : Settings) (sub : String)
      → headers.authorization ≡ authorization
      → (settings h m s).0 ≡ returned found
      → require_admin h.jwt m.seconds (returned found) authorization ≡ returned sub
      → HasToken
  unfolding require_admin
  passes-HasToken none found sub a e p = absurd (ground (arith, p))
  passes-HasToken (some authorization) found sub a e p =
      let (rest, payload, n, d, g) =
        (require_admin_iff h.jwt h.bcrypt found m.seconds authorization sub).0 p in
      (found, authorization, rest, payload, sub, e, a, n, d, g)

  no_settings :
      (authorization : Option String) (x : Error) (sub : String)
      → require_admin h.jwt m.seconds (raised x) authorization ≢ returned sub
  unfolding require_admin
  no_settings none x sub p = ground (arith, p)
  no_settings (some authorization) x sub p =
      elim (Option-cases (after_prefix "Bearer " authorization)) [
        | inl n ↦ ground (arith, p, n)
        | inr (rest, n) ↦ ground (arith, p, n)
      ]

  refused :
      (e : Endpoint) (x : Error)
      → (check h m (guard_of e) headers s).0 ≡ raised x
      → IsUntouched s (check h m (guard_of e) headers s).1
      → IsRefused e
  unfolding serve
  refused e x n u = (rw (serve, n) refl, rw (serve, n) u)

  admin-HasToken :
      (found : Outcome Settings) (r : Outcome String)
      → (settings h m s).0 ≡ found
      → require_admin h.jwt m.seconds found headers.authorization ≡ r
      → HasToken ⊎ ((x : Error) × (r ≡ raised x))
  admin-HasToken found (raised x) e p = inr (x, refl)
  admin-HasToken (returned found) (returned sub) e p = inl (passes-HasToken _ found sub refl e p)
  admin-HasToken (raised x) (returned sub) e p = absurd (no_settings _ x sub p)

  -- Every endpoint of the registry, of the shadow and of the updates: unless the caller presents
  -- "Bearer " with a text that the library takes for an unexpired token under the configured secret,
  -- whose subject is a text, the answer is no success, and the file, the requests to other services,
  -- the messages and the failed validations stay as they are.
  pub admin_endpoints : (e : Endpoint) → IsForAdmin e → HasToken ⊎ IsRefused e
  unfolding check
  admin_endpoints e a =
      let g = IsForAdmin-guard e a in
      let untouched : IsUntouched s (check h m admin headers s).1 = record {
        world = refl;
        sent = refl;
        failures = refl;
      } in
      elim (admin-HasToken _ _ refl refl) [
        | inl t ↦ inl t
        | inr (x, n) ↦ inr (refused e x (rw (g, check, n) refl) (rw g untouched))
      ]

  -- The endpoints for the broker and for Hawkbit: with a key configured, a caller without it in
  -- either header is refused, and the same stays as it is.
  pub internal_endpoints :
      (e : Endpoint) → IsForServices e → get_internal_api_key m.env ≢ "" → HasKey ⊎ IsRefused e
  unfolding check get_internal_api_key
  internal_endpoints e i ne =
      let g = IsForServices-guard e i in
      let key = get_internal_api_key m.env in
      elim (Outcome-cases (require_internal_key key headers.x_internal_key headers.user_agent)) [
        | inl (v, n) ↦ inl (require_internal_key_sound key _ _ ne n)
        | inr (x, n) ↦ inr (
            refused e x (rw (g, check) n)
              (rw (g, check) (record { world = refl; sent = refl; failures = refl })))
      ]
