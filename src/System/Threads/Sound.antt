-- ===== src/System/Threads/Sound.antt =====
-- What holds of the file and of the answers, however requests and messages interleave.
use embediq_cloud.Prelude.{
  ◌≡◌, refl, sym, Bool, true, false, Option, none, some, is_some, subst, List, [], ◌∷◌,
}
use embediq_cloud.Json.{Codec}
use embediq_cloud.Db.Connection.{◌>>=◌}
use embediq_cloud.Db.Threads.{Thread, Interleaved, Shared, returns, reads, writes, sends}
use embediq_cloud.Db.Threads.Safe.{
  AllSafe, IsGood, is_expected, IsExpected, IsSafeThread, Safe-returns, Safe-reads, Safe-writes,
  Interleaved-AreSafe,
}
use embediq_cloud.Bridge.{Ready}
use embediq_cloud.Bridge.Valid.{on_message-IsValid}
use embediq_cloud.Bridge.Readable.{on_message-IsReadable}
use embediq_cloud.Registry.Devices
use embediq_cloud.Registry.Groups
use embediq_cloud.Registry.Maintenance.{system_health, rotate_certs}
use embediq_cloud.Registry.Maintenance.Results.{rotate_certs-IsValid, rotate_certs-IsReadable}
use embediq_cloud.Shadow
use embediq_cloud.Ota.Threads.{cmd_thread-IsSafe}
use embediq_cloud.System.Threads.{thread_of, Starts, for_request, for_login, for_message}
use embediq_cloud.Auth.DeviceAuth.Threads.{auth_thread-IsSafe}
use embediq_cloud.Api.{
  Host, Moment, Endpoint, health_get, login_post, auth_post, acl_post, callback_post, certs_get,
  firmware_get, firmware_post, firmware_delete, deploy_post, status_get, devices_get, device_get,
  device_post, device_patch, device_delete, groups_get, group_post, group_delete, system_health_get,
  rotate_post, shadow_get, desired_patch, cmd_post, bridge_credential,
}

module _ (h : Host) (m : Moment) where
  abbrev SafeIfAny : Option (Thread (h.codec).Text) → Type 0
  SafeIfAny none = Unit
  SafeIfAny (some p) = IsSafeThread h.codec p

  thread_of-SafeIfAny : (e : Endpoint) → SafeIfAny (thread_of h m e)
  unfolding system_health rotate_certs ◌>>=◌
  thread_of-SafeIfAny devices_get = Devices.Threads.Safe.list_thread-IsSafe h.codec
  thread_of-SafeIfAny (device_get k) = Devices.Threads.Safe.get_thread-IsSafe h.codec k
  thread_of-SafeIfAny (device_post body) =
      Devices.Threads.Safe.post_thread-IsSafe h.codec h.bcrypt m.seconds m.salt body
  thread_of-SafeIfAny (device_patch k body) =
      Devices.Threads.Safe.patch_thread-IsSafe h.codec k body
  thread_of-SafeIfAny (device_delete k) = Devices.Threads.Safe.delete_thread-IsSafe h.codec k
  thread_of-SafeIfAny groups_get = Groups.Threads.Safe.list_thread-IsSafe h.codec
  thread_of-SafeIfAny (group_post body) =
      Groups.Threads.Safe.post_thread-IsSafe h.codec m.seconds body
  thread_of-SafeIfAny (group_delete g) = Groups.Threads.Safe.delete_thread-IsSafe h.codec g
  thread_of-SafeIfAny system_health_get = Safe-reads h.codec _ (λ db k. Safe-returns h.codec _ refl)
  thread_of-SafeIfAny rotate_post =
      Safe-writes h.codec _ _
        (λ db k.
          (rotate_certs-IsValid m.seconds db k.0, rotate_certs-IsReadable h.codec m.seconds db k.1))
        (λ db k. Safe-returns h.codec _ refl)
  thread_of-SafeIfAny (shadow_get k) = Shadow.Threads.Safe.get_thread-IsSafe h.codec k
  thread_of-SafeIfAny (desired_patch k delta) =
      Shadow.Threads.Safe.patch_thread-IsSafe h.codec h.takes m.seconds k delta
  thread_of-SafeIfAny (cmd_post k body) = cmd_thread-IsSafe h.codec h.takes k body
  thread_of-SafeIfAny health_get = tt
  thread_of-SafeIfAny (login_post body) = tt
  thread_of-SafeIfAny (auth_post source body) = tt
  thread_of-SafeIfAny (acl_post body) = tt
  thread_of-SafeIfAny (callback_post body) = tt
  thread_of-SafeIfAny certs_get = tt
  thread_of-SafeIfAny firmware_get = tt
  thread_of-SafeIfAny (firmware_post n v f c) = tt
  thread_of-SafeIfAny (firmware_delete id) = tt
  thread_of-SafeIfAny (deploy_post body) = tt
  thread_of-SafeIfAny (status_get k) = tt

-- the endpoints that have a thread, one by one
abbrev pub is_threaded : Endpoint → Bool
is_threaded devices_get = true
is_threaded (device_get k) = true
is_threaded (device_post body) = true
is_threaded (device_patch k body) = true
is_threaded (device_delete k) = true
is_threaded groups_get = true
is_threaded (group_post body) = true
is_threaded (group_delete g) = true
is_threaded system_health_get = true
is_threaded rotate_post = true
is_threaded (shadow_get k) = true
is_threaded (desired_patch k delta) = true
is_threaded (cmd_post k body) = true
is_threaded _ = false

thread_of-is_threaded :
    (h : Host) (m : Moment) (e : Endpoint) → is_some (thread_of h m e) ≡ is_threaded e
thread_of-is_threaded h m health_get = refl
thread_of-is_threaded h m e = refl

module _ {T : Type 0} where
  -- every thread that has answered gave a value, an HTTPException, an IntegrityError or a ValueError
  abbrev pub AnswersExpected : List (Thread T) → Type 0
  AnswersExpected [] = Unit
  AnswersExpected (returns r ∷ ps) = (is_expected r ≡ true) × AnswersExpected ps
  AnswersExpected (p ∷ ps) = AnswersExpected ps

module _ (C : Codec) where
  AllSafe-AnswersExpected :
      (ps : List (Thread C.Text)) → AllSafe (IsGood C) (IsExpected C) ps → AnswersExpected ps
  AllSafe-AnswersExpected [] k = tt
  AllSafe-AnswersExpected (returns r ∷ ps) k = (k.0, AllSafe-AnswersExpected ps k.1)
  AllSafe-AnswersExpected (reads f ∷ ps) k = AllSafe-AnswersExpected ps k.1
  AllSafe-AnswersExpected (writes f rest ∷ ps) k = AllSafe-AnswersExpected ps k.1
  AllSafe-AnswersExpected (sends ms rest ∷ ps) k = AllSafe-AnswersExpected ps k.1

module _ (h : Host) (ready : Ready) where
  Starts-IsSafe : (p : Thread (h.codec).Text) → Starts h ready p → IsSafeThread h.codec p
  Starts-IsSafe p (for_request m e _ eq) = subst (SafeIfAny h m) eq (thread_of-SafeIfAny h m e)
  Starts-IsSafe p (for_login m source body f) =
      auth_thread-IsSafe h.codec h.bcrypt (bridge_credential m.env) m.now source body f
  Starts-IsSafe p (for_message now topic payload requests stored) =
      Safe-writes h.codec _ _
        (λ db k. (
          on_message-IsValid h.codec h.server ready now topic payload
              (record { db = db; requests = requests; writes = stored }) k.0,
          on_message-IsReadable h.codec h.server ready now topic payload
              (record { db = db; requests = requests; writes = stored }) k.1,
        ))
        (λ db k. Safe-returns h.codec _ refl)

  -- From a valid file with documents that can be read and no thread running: however the
  -- statements and transactions of messages and of requests interleave, the file stays valid, its
  -- documents can be read, and every answer given to such a request is a value, an HTTPException,
  -- the IntegrityError of an INSERT, or the ValueError of a password that bcrypt refuses. The
  -- requests are those that a guard has passed to an endpoint with a thread: each of the registry
  -- but GET of the certificate, both of the shadow, POST of a command, and the broker's login of a
  -- device.
  pub Interleaved-IsGood :
      (s t : Shared (h.codec).Text)
      → Interleaved (Starts h ready) s t
      → IsGood h.codec s.db
      → s.threads ≡ []
      → IsGood h.codec t.db
        × AnswersExpected t.threads
        × ((m : Moment) (e : Endpoint) → is_some (thread_of h m e) ≡ is_threaded e)
  Interleaved-IsGood s t steps good idle =
      let (a, b) =
        Interleaved-AreSafe (IsGood h.codec) (IsExpected h.codec)
          (λ p start. (Starts-IsSafe p start).at) steps
          (good, subst (AllSafe (IsGood h.codec) (IsExpected h.codec)) (sym idle) tt) in
      (a, AllSafe-AnswersExpected h.codec t.threads b, thread_of-is_threaded h)
