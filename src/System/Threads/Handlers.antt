-- ===== src/System/Threads/Handlers.antt =====
-- A thread that no other disturbs does what its endpoint does.
use mathlib.Core.List.{append-nil}
use embediq_cloud.Prelude.{◌≡◌, refl, ap, subst, ◌∙◌, List, [], Option, none, some, ◌++◌}
use embediq_cloud.Outcome.{Outcome}
use embediq_cloud.Json.{Value}
use embediq_cloud.Db.{Db}
use embediq_cloud.Db.Threads.{Thread, run_alone}
use embediq_cloud.Db.Connection.{◌>>=◌}
use embediq_cloud.Registry.Devices
use embediq_cloud.Registry.Groups
use embediq_cloud.Registry.Maintenance.{system_health}
use embediq_cloud.Shadow
use embediq_cloud.Ota.Threads.{run_alone-cmd_thread}
use embediq_cloud.Mqtt.{Message}
use embediq_cloud.System.{System}
use embediq_cloud.System.Threads.{thread_of}
use embediq_cloud.Api
use embediq_cloud.Api.{
  Host, Moment, Endpoint, health_get, login_post, auth_post, acl_post, callback_post, certs_get,
  firmware_get, firmware_post, firmware_delete, deploy_post, status_get, devices_get, device_get,
  device_post, device_patch, device_delete, groups_get, group_post, group_delete, system_health_get,
  rotate_post, shadow_get, desired_patch, cmd_post,
}

module _ {T : Type 0} (s : System T) where
  -- the thread answers as the endpoint, and leaves the same file and the same messages
  abbrev Agrees : Thread T → Outcome Value × System T → Type 0
  Agrees p (r, t) =
      let (answer, db, sent) = run_alone p (s.world).db in
      (answer ≡ r) × (db ≡ (t.world).db) × (s.sent ++ sent ≡ t.sent)

  -- an endpoint without a thread
  abbrev AgreesIfAny : Option (Thread T) → Outcome Value × System T → Type 0
  AgreesIfAny none r = Unit
  AgreesIfAny (some p) r = Agrees p r

  -- a thread that sends nothing
  quiet :
      (x : Outcome Value × Db T × List (Message T)) (r : Outcome Value) (db : Db T)
      → x ≡ (r, db, [])
      → (x.0 ≡ r) × (x.1 ≡ db) × (s.sent ++ x.2 ≡ s.sent)
  quiet x r db e = (ap (λ x. x.0) e, ap (λ x. x.1) e, ap (λ x. s.sent ++ x.2) e ∙ append-nil s.sent)

module _ (h : Host) (m : Moment) (s : System (h.codec).Text) where
  endpoint-Agrees : (e : Endpoint) → AgreesIfAny s (thread_of h m e) (Api.run h m e s)
  unfolding Api.run system_health ◌>>=◌
  endpoint-Agrees devices_get =
      quiet s _ _ _ (Devices.Threads.run_alone-list_thread h.codec (s.world).db)
  endpoint-Agrees (device_get k) =
      quiet s _ _ _ (Devices.Threads.run_alone-get_thread h.codec k (s.world).db)
  endpoint-Agrees (device_post body) =
      quiet s _ _ _
        (Devices.Threads.run_alone-post_thread h.codec h.bcrypt m.seconds m.salt body (s.world).db)
  endpoint-Agrees (device_patch k body) =
      quiet s _ _ _ (Devices.Threads.run_alone-patch_thread h.codec k body (s.world).db)
  endpoint-Agrees (device_delete k) = quiet s _ _ _ refl
  endpoint-Agrees groups_get = quiet s _ _ _ (Groups.Threads.run_alone-list_thread (s.world).db)
  endpoint-Agrees (group_post body) =
      quiet s _ _ _ (Groups.Threads.run_alone-post_thread m.seconds body (s.world).db)
  endpoint-Agrees (group_delete g) =
      quiet s _ _ _ (Groups.Threads.run_alone-delete_thread g (s.world).db)
  endpoint-Agrees system_health_get = quiet s _ _ _ refl
  endpoint-Agrees rotate_post = quiet s _ _ _ refl
  endpoint-Agrees (shadow_get k) =
      quiet s _ _ _ (Shadow.Threads.run_alone-get_thread h.codec k (s.world).db)
  endpoint-Agrees (desired_patch k delta) =
      let e =
        Shadow.Threads.run_alone-patch_thread h.codec h.takes m.seconds k delta (s.world).db in
      (ap (λ x. x.0) e, ap (λ x. x.1) e, ap (λ x. s.sent ++ x.2) e)
  endpoint-Agrees (cmd_post k body) =
      let e = run_alone-cmd_thread h.codec h.takes k body (s.world).db in
      (ap (λ x. x.0) e, ap (λ x. x.1) e, ap (λ x. s.sent ++ x.2) e)
  endpoint-Agrees health_get = tt
  endpoint-Agrees (login_post body) = tt
  endpoint-Agrees (auth_post source body) = tt
  endpoint-Agrees (acl_post body) = tt
  endpoint-Agrees (callback_post body) = tt
  endpoint-Agrees certs_get = tt
  endpoint-Agrees firmware_get = tt
  endpoint-Agrees (firmware_post n v f c) = tt
  endpoint-Agrees (firmware_delete id) = tt
  endpoint-Agrees (deploy_post body) = tt
  endpoint-Agrees (status_get k) = tt

  -- The thread of an endpoint, run with no other between its actions, answers as the endpoint's
  -- function does, and leaves the same file and the same messages.
  run_alone-thread_of :
      (e : Endpoint) (p : Thread (h.codec).Text)
      → thread_of h m e ≡ some p
      → let (r, t) = Api.run h m e s in
        let (answer, db, sent) = run_alone p (s.world).db in
        (answer ≡ r) × (db ≡ (t.world).db) × (s.sent ++ sent ≡ t.sent)
  run_alone-thread_of e p eq = subst (λ o. AgreesIfAny s o (Api.run h m e s)) eq (endpoint-Agrees e)
