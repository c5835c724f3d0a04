-- ===== src/System/Threads.antt =====
-- The requests and the messages as threads on the one file.
pub mod Handlers
pub mod Sound
use embediq_cloud.Prelude.{ℕ, ◌≡◌, String, Option, none, some, List}
use embediq_cloud.Outcome.{returned}
use embediq_cloud.Json.{null}
use embediq_cloud.Db.Threads.{Thread, returns, reads, writes}
use embediq_cloud.Hawkbit.{Log, Server}
use embediq_cloud.Bridge.{Ready, Write, on_message}
use embediq_cloud.Registry.Devices
use embediq_cloud.Registry.Groups
use embediq_cloud.Registry.Maintenance.{system_health, rotate_certs}
use embediq_cloud.Shadow
use embediq_cloud.Ota.Threads.{cmd_thread}
use embediq_cloud.Api.{
  Host, Moment, Endpoint, devices_get, device_get, device_post, device_patch, device_delete,
  groups_get, group_post, group_delete, system_health_get, rotate_post, shadow_get, desired_patch,
  cmd_post, bridge_credential,
}
use embediq_cloud.Auth.RateLimit.{Failures}
use embediq_cloud.Auth.DeviceAuth.{InternalAuthRequest}
use embediq_cloud.Auth.DeviceAuth.Threads.{auth_thread}

module _ (h : Host) (m : Moment) where
  -- The endpoints of the registry, the shadow and the commands that work on the file; `none` for the
  -- others. The broker's login of a device, which needs the failures too, is in `Starts`.
  abbrev pub thread_of : Endpoint → Option (Thread (h.codec).Text)
  thread_of devices_get = some (Devices.Threads.list_thread h.codec)
  thread_of (device_get k) = some (Devices.Threads.get_thread h.codec k)
  thread_of (device_post body) =
      some (Devices.Threads.post_thread h.codec h.bcrypt m.seconds m.salt body)
  thread_of (device_patch k body) = some (Devices.Threads.patch_thread h.codec k body)
  thread_of (device_delete k) = some (Devices.Threads.delete_thread h.codec k)
  thread_of groups_get = some Groups.Threads.list_thread
  thread_of (group_post body) = some (Groups.Threads.post_thread m.seconds body)
  thread_of (group_delete g) = some (Groups.Threads.delete_thread g)
  thread_of system_health_get = some (reads (λ db. returns (system_health m.uptime db).0))
  thread_of rotate_post = some (writes (rotate_certs m.seconds) (λ r. returns r))
  thread_of (shadow_get k) = some (Shadow.Threads.get_thread h.codec k)
  thread_of (desired_patch k delta) =
      some (Shadow.Threads.patch_thread h.codec h.takes m.seconds k delta)
  thread_of (cmd_post k body) = some (cmd_thread h.codec h.takes k body)
  thread_of _ = none

module _ (h : Host) (ready : Ready) where
  -- The bridge's callback opens at most one transaction, which begins with an INSERT; the requests
  -- and the writes of its `World` are outside of the file.
  abbrev pub message_thread :
      (now : ℕ) (topic : String) (payload : (h.codec).Text) (requests : Log) (stored : List Write)
      → Thread (h.codec).Text
  message_thread now topic payload requests stored =
      writes
        (λ db. (
          returned null,
          (on_message h.codec h.server ready now topic payload
              (record { db = db; requests = requests; writes = stored })).db,
        ))
        (λ r. returns r)

  -- what may arrive: a request to an endpoint with a thread that a guard has passed, or a message of a device
  pub data Starts : Thread (h.codec).Text → Type 0 where
    for_request :
        (m : Moment) (e : Endpoint) (p : Thread (h.codec).Text)
        → thread_of h m e ≡ some p
        → Starts p
    for_login :
        (m : Moment) (source : String) (body : InternalAuthRequest) (f : Failures)
        → Starts (auth_thread h.codec h.bcrypt (bridge_credential m.env) m.now source body f)
    for_message :
        (now : ℕ) (topic : String) (payload : (h.codec).Text) (requests : Log) (stored : List Write)
        → Starts (message_thread now topic payload requests stored)
