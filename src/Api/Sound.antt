-- ===== src/Api/Sound.antt =====
-- What every endpoint keeps: a valid file with documents that can be read, and retained messages on
-- the topics of desired states only.
use embediq_cloud.Prelude.{
  ◌≡◌, ◌⊎◌, refl, sym, ap, subst, inl, inr, String, Bool, false, All, All-append, List, [], ◌∷◌,
  ◌++◌,
}
use embediq_cloud.Outcome.{Outcome-cases}
use embediq_cloud.Json.{Codec}
use embediq_cloud.Db.{Db}
use embediq_cloud.Db.Invariant.{IsValid}
use embediq_cloud.Db.Readable.{IsReadable}
use embediq_cloud.Mqtt.{Message}
use embediq_cloud.Registry.Devices.Valid.{
  post_device-IsValid, patch_device-IsValid, delete_device-keeps-IsValid,
}
use embediq_cloud.Registry.Devices.Readable.{
  post_device-IsReadable, patch_device-IsReadable, delete_device-IsReadable,
}
use embediq_cloud.Registry.Devices.Replies.{get_device-eq-page}
use embediq_cloud.Registry.Groups.Valid.{post_group-IsValid, delete_group-IsValid}
use embediq_cloud.Registry.Groups.Readable.{post_group-IsReadable, delete_group-IsReadable}
use embediq_cloud.Registry.Listing.{list_devices_complete, list_groups_complete}
use embediq_cloud.Registry.Maintenance.Results.{
  system_health_reads, rotate_certs-IsValid, rotate_certs-IsReadable,
}
use embediq_cloud.Shadow.{desired_topic}
use embediq_cloud.Shadow.Valid.{patch_desired-IsValid}
use embediq_cloud.Shadow.Readable.{patch_desired-IsReadable}
use embediq_cloud.Shadow.Replies.{get_shadow_reads, AreDesired, patch_desired-AreDesired}
use embediq_cloud.Ota.Commands.{IsCommand, device_cmd-IsCommand, hawkbit_callback-IsCommand}
use embediq_cloud.System.{System}
use embediq_cloud.Api.{
  Host, Moment, Headers, Endpoint, Guard, public, internal, admin, guard_of, run, check, serve,
  health_get, login_post, auth_post, acl_post, callback_post, devices_get, device_get, device_post,
  device_patch, device_delete, groups_get, group_post, group_delete, system_health_get, certs_get,
  rotate_post, shadow_get, desired_patch, firmware_get, firmware_post, firmware_delete, deploy_post,
  status_get, cmd_post,
}

-- a retained message is on the topic of some device's desired state
abbrev pub RetainsDesired : {T : Type 0} → Message T → Type 0
RetainsDesired m = (m.retain ≡ false) ⊎ ((k : String) × (m.topic ≡ desired_topic k))

AreDesired-RetainsDesired :
    {T : Type 0} (k : String) (ms : List (Message T)) → AreDesired k ms → All RetainsDesired ms
AreDesired-RetainsDesired k [] h = tt
AreDesired-RetainsDesired k (m ∷ ms) h = (inr (k, h.0), AreDesired-RetainsDesired k ms h.2)

module _ (C : Codec) (takes : Message C.Text → Bool) where
  IsCommand-RetainsDesired :
      (k : String) (ms : List (Message C.Text))
      → All (IsCommand C takes k) ms
      → All RetainsDesired ms
  IsCommand-RetainsDesired k [] h = tt
  IsCommand-RetainsDesired k (m ∷ ms) h = (inl h.0.1, IsCommand-RetainsDesired k ms h.1)

-- The file is valid, its documents can be read, and only desired states are retained.
pub record IsSound (C : Codec) (s : System C.Text) : Type 0 where
  pub file : IsValid (s.world).db
  pub readable : IsReadable C (s.world).db
  pub retained : All RetainsDesired s.sent

module _ (h : Host) (m : Moment) where
  abbrev Sound : System (h.codec).Text → Type 0
  Sound s = IsSound h.codec s

  -- an endpoint that writes to the file
  on_db-IsSound :
      (file : Db (h.codec).Text) (s : System (h.codec).Text)
      → Sound s
      → IsValid file
      → IsReadable h.codec file
      → Sound (record s { world = record (s.world) { db = file } })
  on_db-IsSound file s i v r = record { file = v; readable = r; retained = i.retained }

  -- messages that are added
  sent-IsSound :
      (ms : List (Message (h.codec).Text)) (s : System (h.codec).Text)
      → Sound s
      → All RetainsDesired ms
      → Sound (record s { sent = s.sent ++ ms })
  sent-IsSound ms s i r = record {
    file = i.file;
    readable = i.readable;
    retained = All-append RetainsDesired s.sent ms i.retained r;
  }

  -- a change that leaves the file and the messages
  same_file :
      (s t : System (h.codec).Text)
      → (t.world).db ≡ (s.world).db
      → t.sent ≡ s.sent
      → Sound s
      → Sound t
  same_file s t e f i = record {
    file = subst IsValid (sym e) i.file;
    readable = subst (IsReadable h.codec) (sym e) i.readable;
    retained = subst (All RetainsDesired) (sym f) i.retained;
  }

  run-IsSound : (e : Endpoint) (s : System (h.codec).Text) → Sound s → Sound (run h m e s).1
  unfolding run
  run-IsSound health_get s i = i
  run-IsSound (login_post body) s i = same_file s _ refl refl i
  run-IsSound (auth_post source body) s i = same_file s _ refl refl i
  run-IsSound (acl_post body) s i = i
  run-IsSound (callback_post body) s i = sent-IsSound _ s i (
      IsCommand-RetainsDesired h.codec h.takes body.device_id _
        (hawkbit_callback-IsCommand h.codec h.takes body))
  run-IsSound devices_get s i =
      same_file s _ (ap (λ x. x.1) (list_devices_complete h.codec (s.world).db).1) refl i
  run-IsSound (device_get k) s i =
      same_file s _ (ap (λ x. x.1) (get_device-eq-page h.codec k (s.world).db)) refl i
  run-IsSound (device_post body) s i =
      on_db-IsSound _ s i
        (post_device-IsValid h.codec h.bcrypt m.seconds m.salt body (s.world).db i.file)
        (post_device-IsReadable h.codec h.bcrypt m.seconds m.salt body (s.world).db i.readable)
  run-IsSound (device_patch k body) s i =
      on_db-IsSound _ s i (patch_device-IsValid h.codec k body (s.world).db i.file)
        (patch_device-IsReadable h.codec k body (s.world).db i.readable)
  run-IsSound (device_delete k) s i =
      on_db-IsSound _ s i (delete_device-keeps-IsValid h.codec k (s.world).db i.file)
        (delete_device-IsReadable h.codec k (s.world).db i.readable)
  run-IsSound groups_get s i =
      same_file s _ (ap (λ x. x.1) (list_groups_complete h.codec (s.world).db).1) refl i
  run-IsSound (group_post body) s i =
      on_db-IsSound _ s i (post_group-IsValid m.seconds body (s.world).db i.file)
        (post_group-IsReadable h.codec m.seconds body (s.world).db i.readable)
  run-IsSound (group_delete g) s i =
      on_db-IsSound _ s i (delete_group-IsValid g (s.world).db i.file)
        (delete_group-IsReadable h.codec g (s.world).db i.readable)
  run-IsSound system_health_get s i =
      same_file s _ (system_health_reads m.uptime (s.world).db) refl i
  run-IsSound certs_get s i = i
  run-IsSound rotate_post s i =
      on_db-IsSound _ s i (rotate_certs-IsValid m.seconds (s.world).db i.file)
        (rotate_certs-IsReadable h.codec m.seconds (s.world).db i.readable)
  run-IsSound (shadow_get k) s i = same_file s _ (get_shadow_reads h.codec k (s.world).db) refl i
  run-IsSound (desired_patch k delta) s i = record {
    file = patch_desired-IsValid h.codec h.takes m.seconds k delta (s.world).db i.file;
    readable = patch_desired-IsReadable h.codec h.takes m.seconds k delta (s.world).db i.readable;
    retained = All-append RetainsDesired s.sent _ i.retained (
        AreDesired-RetainsDesired k _
          (patch_desired-AreDesired h.codec h.takes m.seconds k delta (s.world).db));
  }
  run-IsSound firmware_get s i = same_file s _ refl refl i
  run-IsSound (firmware_post n v f c) s i = same_file s _ refl refl i
  run-IsSound (firmware_delete id) s i = same_file s _ refl refl i
  run-IsSound (deploy_post body) s i = same_file s _ refl refl i
  run-IsSound (status_get k) s i = same_file s _ refl refl i
  run-IsSound (cmd_post k body) s i = sent-IsSound _ s i (
      IsCommand-RetainsDesired h.codec h.takes k _
        (device_cmd-IsCommand h.codec h.takes k body (s.world).db))

  pub check-IsSound :
      (g : Guard) (headers : Headers) (s : System (h.codec).Text)
      → Sound s
      → Sound (check h m g headers s).1
  unfolding check
  check-IsSound public headers s i = i
  check-IsSound internal headers s i = i
  check-IsSound admin headers s i = same_file s _ refl refl i

  pub serve-IsSound :
      (headers : Headers) (e : Endpoint) (s : System (h.codec).Text)
      → Sound s
      → Sound (serve h m headers e s).1
  unfolding serve
  serve-IsSound headers e s i =
      let checked = check-IsSound (guard_of e) headers s i in
      elim (Outcome-cases (check h m (guard_of e) headers s).0) [
        | inl (v, n) ↦ rw (serve, n) (run-IsSound e (check h m (guard_of e) headers s).1 checked)
        | inr (x, n) ↦ rw (serve, n) checked
      ]
