-- ===== src/Api.antt =====
-- The routes of app/main.py and of the routers: what a validated request to an endpoint does behind
-- the guard of its router. The bodies are those that pydantic has accepted.
pub mod Guarded
pub mod Envelopes
pub mod Sound
pub mod Answered
use embediq_cloud.Prelude.{
  ℕ, String, Bool, false, Option, none, some, is_some, List, [], ◌∷◌, ◌++◌, if◌then◌else◌,
}
use embediq_cloud.Prelude.Strip.{after_prefix}
use embediq_cloud.Prelude.Int.{ℤ}
use embediq_cloud.Outcome.{Outcome, returned, raised}
use embediq_cloud.Json.{Value, str, Object, object, Codec}
use embediq_cloud.Db.{Db}
use embediq_cloud.Envelope.{Response, respond}
use embediq_cloud.Password.{Bcrypt}
use embediq_cloud.Mqtt.{Message}
use embediq_cloud.Hawkbit.{Call, Server}
use embediq_cloud.Config.{Environ, Validated, Settings, get_settings, get_internal_api_key}
use embediq_cloud.Registry.Devices.{
  DeviceCreate, DevicePatch, list_devices, get_device, post_device, patch_device, delete_device,
}
use embediq_cloud.Registry.Groups.{GroupCreate, list_groups, post_group, delete_group}
use embediq_cloud.Registry.Maintenance.{
  version, CertFile, Expiry, system_health, system_certs, rotate_certs,
}
use embediq_cloud.Shadow.{get_shadow, patch_desired}
use embediq_cloud.Ota.{
  DeployRequest, CmdRequest, HawkbitCallback, list_firmware, post_firmware, delete_firmware, deploy,
  ota_status, device_cmd, hawkbit_callback,
}
use embediq_cloud.Auth.RateLimit.{Failures}
use embediq_cloud.Auth.InternalKey.{require_internal_key}
use embediq_cloud.Auth.Admin.{Jwt, LoginRequest, require_admin, login}
use embediq_cloud.Auth.DeviceAuth.{
  InternalAuthRequest, InternalAclRequest, BridgeCredential, internal_auth, internal_acl,
}
use embediq_cloud.System.{System}

-- what the application runs on
pub record Host : Type 1 where
  pub codec : Codec
  pub bcrypt : Bcrypt
  pub jwt : Jwt
  pub server : Server
  pub expiry : Expiry
  pub validate : Environ → Validated
  pub takes : Message (codec.Text) → Bool

-- What a request meets: the environment, the certificate's file, the clock in seconds and twice in
-- microseconds, the age of the process, and a new salt.
pub record Moment : Type 0 where
  pub env : Environ
  pub cert : CertFile
  pub seconds : ℕ
  pub now : ℕ
  pub later : ℕ
  pub uptime : ℕ
  pub salt : String

pub record Headers : Type 0 where
  pub authorization : Option String
  pub x_internal_key : Option String
  pub user_agent : Option String

-- the endpoints under /api/v1 and /internal, and /health
pub data Endpoint : Type 0 where
  health_get : Endpoint
  login_post : LoginRequest → Endpoint
  auth_post : (source : String) (body : InternalAuthRequest) → Endpoint
  acl_post : InternalAclRequest → Endpoint
  callback_post : HawkbitCallback → Endpoint
  devices_get : Endpoint
  device_get : String → Endpoint
  device_post : DeviceCreate → Endpoint
  device_patch : String → DevicePatch → Endpoint
  device_delete : String → Endpoint
  groups_get : Endpoint
  group_post : GroupCreate → Endpoint
  group_delete : String → Endpoint
  system_health_get : Endpoint
  certs_get : Endpoint
  rotate_post : Endpoint
  shadow_get : String → Endpoint
  desired_patch : String → Object → Endpoint
  firmware_get : Endpoint
  firmware_post : (name version filename content : String) → Endpoint
  firmware_delete : ℤ → Endpoint
  deploy_post : DeployRequest → Endpoint
  status_get : String → Endpoint
  cmd_post : String → CmdRequest → Endpoint

-- the dependency of a router
pub data Guard : Type 0 where
  public internal admin : Guard

-- `dependencies` of `router` in app/registry.py
abbrev pub registry_guard : Guard
registry_guard = admin

-- `dependencies` of `router` in app/shadow.py
abbrev pub shadow_guard : Guard
shadow_guard = admin

-- `dependencies` of `router` in app/ota.py
abbrev pub ota_guard : Guard
ota_guard = admin

-- `dependencies` of `callback_router` in app/ota.py
abbrev pub callback_guard : Guard
callback_guard = internal

-- `dependencies` of the decorator of `internal_auth`
abbrev pub auth_guard : Guard
auth_guard = internal

-- `dependencies` of the decorator of `internal_acl`
abbrev pub acl_guard : Guard
acl_guard = internal

-- `auth_router`, and the decorator of `login`, have none
abbrev pub login_guard : Guard
login_guard = public

-- the guard of the router, or of the decorator, that an endpoint is registered with
abbrev pub guard_of : Endpoint → Guard
guard_of health_get = public
guard_of (login_post body) = login_guard
guard_of (auth_post source body) = auth_guard
guard_of (acl_post body) = acl_guard
guard_of (callback_post body) = callback_guard
guard_of devices_get = registry_guard
guard_of (device_get k) = registry_guard
guard_of (device_post body) = registry_guard
guard_of (device_patch k body) = registry_guard
guard_of (device_delete k) = registry_guard
guard_of groups_get = registry_guard
guard_of (group_post body) = registry_guard
guard_of (group_delete g) = registry_guard
guard_of system_health_get = registry_guard
guard_of certs_get = registry_guard
guard_of rotate_post = registry_guard
guard_of (shadow_get k) = shadow_guard
guard_of (desired_patch k delta) = shadow_guard
guard_of firmware_get = ota_guard
guard_of (firmware_post name number filename content) = ota_guard
guard_of (firmware_delete id) = ota_guard
guard_of (deploy_post body) = ota_guard
guard_of (status_get k) = ota_guard
guard_of (cmd_post k body) = ota_guard

-- `status_code` of the route
abbrev pub success_of : Endpoint → ℕ
success_of (device_post body) = 201
success_of (group_post body) = 201
success_of (firmware_post name number filename content) = 201
success_of _ = 200

abbrev pub bridge_credential : Environ → BridgeCredential
bridge_credential env = record {
  user = env "INTERNAL_BRIDGE_USER";
  pass = env "INTERNAL_BRIDGE_PASS";
}

module _ {T : Type 0} where
  -- an endpoint that works on the file
  abbrev pub on_db : (Db T → Outcome Value × Db T) → System T → Outcome Value × System T
  on_db f s =
      let (r, file) = f (s.world).db in (r, record s { world = record (s.world) { db = file } })

  -- an endpoint that asks Hawkbit
  abbrev pub on_hawkbit : Call Value → System T → Outcome Value × System T
  on_hawkbit f s =
      let (r, log) = f (s.world).requests in
      (r, record s { world = record (s.world) { requests = log } })

  -- an endpoint that publishes
  abbrev pub on_sent : Outcome Value × List (Message T) → System T → Outcome Value × System T
  on_sent (r, ms) s = (r, record s { sent = s.sent ++ ms })

module _ (h : Host) (m : Moment) where
  abbrev pub settings : System (h.codec).Text → Outcome Settings × Option Settings
  settings s = get_settings h.validate m.env s.cached

  abbrev on_login : LoginRequest → System (h.codec).Text → Outcome Value × System (h.codec).Text
  on_login body s =
      let (found, cached) = settings s in
      (login h.jwt h.bcrypt m.seconds found body, record s { cached = cached })

  abbrev on_auth :
      String → InternalAuthRequest → System (h.codec).Text → Outcome Value × System (h.codec).Text
  on_auth source body s =
      let (r, f) =
        internal_auth h.bcrypt (bridge_credential m.env) m.now m.later source body (s.world).db
          s.failures in
      (r, record s { failures = f })

  abbrev on_desired :
      String → Object → System (h.codec).Text → Outcome Value × System (h.codec).Text
  on_desired k delta s =
      let (r, file, ms) = patch_desired h.codec h.takes m.seconds k delta (s.world).db in
      (r, record s { world = record (s.world) { db = file }; sent = s.sent ++ ms })

  -- the function of an endpoint
  unfoldable pub run : Endpoint → System (h.codec).Text → Outcome Value × System (h.codec).Text
  run health_get s = (returned (object (("status", str "ok") ∷ ("version", str version) ∷ [])), s)
  run (login_post body) s = on_login body s
  run (auth_post source body) s = on_auth source body s
  run (acl_post body) s = (internal_acl body, s)
  run (callback_post body) s = on_sent (hawkbit_callback h.codec h.takes body) s
  run devices_get s = on_db (list_devices h.codec) s
  run (device_get k) s = on_db (get_device h.codec k) s
  run (device_post body) s = on_db (post_device h.codec h.bcrypt m.seconds m.salt body) s
  run (device_patch k body) s = on_db (patch_device h.codec k body) s
  run (device_delete k) s = on_db (delete_device h.codec k) s
  run groups_get s = on_db list_groups s
  run (group_post body) s = on_db (post_group m.seconds body) s
  run (group_delete g) s = on_db (delete_group g) s
  run system_health_get s = on_db (system_health m.uptime) s
  run certs_get s = (system_certs h.expiry m.env m.cert m.now, s)
  run rotate_post s = on_db (rotate_certs m.seconds) s
  run (shadow_get k) s = on_db (get_shadow h.codec k) s
  run (desired_patch k delta) s = on_desired k delta s
  run firmware_get s = on_hawkbit (list_firmware h.codec h.server) s
  run (firmware_post name number filename content) s =
      on_hawkbit (post_firmware h.codec h.server name number filename content) s
  run (firmware_delete id) s = on_hawkbit (delete_firmware h.codec h.server id) s
  run (deploy_post body) s = on_hawkbit (deploy h.codec h.server body) s
  run (status_get k) s = on_hawkbit (ota_status h.codec h.server k) s
  run (cmd_post k body) s = on_sent (device_cmd h.codec h.takes k body (s.world).db) s

  abbrev forget : Outcome String → Outcome (Unit {0})
  forget (returned sub) = returned tt
  forget (raised e) = raised e

  -- `authorization and authorization.startswith("Bearer ")`
  abbrev has_bearer : Option String → Bool
  has_bearer none = false
  has_bearer (some authorization) = is_some (after_prefix "Bearer " authorization)

  -- The dependency. `require_admin` calls `get_settings` only after it has checked the header.
  unfoldable pub check :
      Guard → Headers → System (h.codec).Text → Outcome (Unit {0}) × System (h.codec).Text
  check public headers s = (returned tt, s)
  check internal headers s = (
    require_internal_key (get_internal_api_key m.env) headers.x_internal_key headers.user_agent,
    s,
  )
  check admin headers s =
      let (found, cached) = settings s in
      (
        forget (require_admin h.jwt m.seconds found headers.authorization),
        record s { cached = if has_bearer headers.authorization then cached else s.cached },
      )

  -- a refusal of the guard is the answer
  unfoldable pub serve :
      Headers → Endpoint → System (h.codec).Text → Outcome Value × System (h.codec).Text
  unfolding run check
  serve headers e s =
      let (passed, s') = check (guard_of e) headers s in
      elim passed [ raised x ↦ (raised x, s') | returned _ ↦ run e s' ]

  -- what the client gets; `none` is an exception that no handler of the application takes
  unfoldable pub answer : Headers → Endpoint → System (h.codec).Text → Option Response
  unfolding serve respond
  answer headers e s = respond (success_of e) (serve headers e s).0
