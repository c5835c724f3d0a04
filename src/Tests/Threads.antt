-- ===== src/Tests/Threads.antt =====
-- Threads on the small file.
use embediq_cloud.Prelude.{ℕ, ◌≡◌, refl, Option, some, is_some, List, [], ◌∷◌, ◌++◌}
use embediq_cloud.Prelude.Int.{pos}
use embediq_cloud.Outcome.{returned, raised, integrity_error}
use embediq_cloud.Json.{Value, str, int, Object, object, update}
use embediq_cloud.Envelope.{ok}
use embediq_cloud.Mqtt.{publish_retained}
use embediq_cloud.Db.Threads.{Thread, returns, Shared, Interleaved, here, next, arrives}
use embediq_cloud.Db.Threads.Safe.{IsGood}
use embediq_cloud.Db.Threads.Schedule.{play, play_on}
use embediq_cloud.Password.{hash_password}
use embediq_cloud.Fleet.{shadow_of}
use embediq_cloud.Shadow.{desired_topic}
use embediq_cloud.Shadow.Threads.{patch_thread}
use embediq_cloud.Shadow.Threads.Lost.{lost_update}
use embediq_cloud.Shadow.Threads.Lost
use embediq_cloud.Registry.Devices.{optional_hash, post_device}
use embediq_cloud.Registry.Devices.Threads.{post_thread}
use embediq_cloud.Registry.Devices.Threads.Race.{racing_posts}
use embediq_cloud.Registry.Devices.Threads.Race
use embediq_cloud.Api.{Moment, Endpoint, device_post, desired_patch}
use embediq_cloud.System.{System, started}
use embediq_cloud.System.Threads.{thread_of, for_request, for_message, message_thread}
use embediq_cloud.System.Threads.Sound.{is_threaded, AnswersExpected, Interleaved-IsGood}
use embediq_cloud.Tests.{
  codec, bcrypt, takes_all, both_ready, hashed, door, home, home-IsValid, home_world,
}
use embediq_cloud.Tests.Guards.{home-IsReadable}
use embediq_cloud.Tests.Runs.{host, moment}

abbrev colour : Object
colour = ("colour", str "red") ∷ []

abbrev size : Object
size = ("size", int (pos 2)) ∷ []

abbrev level : Object
level = ("level", int (pos 3)) ∷ []

abbrev at_home : System (Option Value)
at_home = record (started 0) { world = home_world }

abbrev patching : Thread (Option Value)
patching = patch_thread codec takes_all 6 "lamp" colour

abbrev posting : Thread (Option Value)
posting = post_thread codec bcrypt 7 "salt" door

abbrev reporting : Thread (Option Value)
reporting =
    message_thread host both_ready 8 "embediq/lamp/state/reported" (some (object level)) [] []

abbrev quiet : Shared (Option Value)
quiet = record { db = home; sent = []; threads = [] }

abbrev busy : Shared (Option Value)
busy = record { db = home; sent = []; threads = patching ∷ posting ∷ reporting ∷ [] }

abbrev order : List ℕ
order = 0 ∷ 1 ∷ 0 ∷ 2 ∷ 1 ∷ 0 ∷ 0 ∷ []

Interleaved-IsGood_example :
    IsGood codec (play order busy).db
    × AnswersExpected (play order busy).threads
    × ((m : Moment) (e : Endpoint) → is_some (thread_of host m e) ≡ is_threaded e)
Interleaved-IsGood_example =
    Interleaved-IsGood host both_ready quiet (play order busy)
      (play_on order quiet busy (
        next
          (next
            (next here (
              arrives patching
                (for_request (moment 6) (desired_patch "lamp" colour) patching refl)))
            (arrives posting (for_request (moment 7) (device_post door) posting refl)))
          (arrives reporting
            (for_message 8 "embediq/lamp/state/reported" (some (object level)) [] []))))
      (home-IsValid, home-IsReadable) refl

lost_update_example :
    (t : Shared (Option Value)) × Interleaved
      (λ x. Unit)
      (Lost.both codec takes_all 9 "lamp" colour size home)
      t
    × (t.threads
        ≡ returns (returned (ok (object (("desired", object (update level colour)) ∷ []))))
          ∷ returns (returned (ok (object (("desired", object (update level size)) ∷ []))))
          ∷ [])
    × (shadow_of codec "lamp" t.db ≡ some (update level size, []))
    × (t.sent
        ≡ publish_retained codec takes_all (desired_topic "lamp") (update level size)
          ++ publish_retained codec takes_all (desired_topic "lamp") (update level colour))
lost_update_example = lost_update codec takes_all 9 "lamp" colour size home level [] refl refl

door_hashed : optional_hash codec bcrypt "salt" door.password ≡ returned (some (hashed "knock"))
unfolding optional_hash hash_password
door_hashed = refl

racing_posts_example :
    (t : Shared (Option Value)) × Interleaved
      (λ x. Unit)
      (Race.both codec bcrypt 5 "salt" door door home)
      t
    × (t.threads
        ≡ returns (post_device codec bcrypt 5 "salt" door home).0
          ∷ returns (raised integrity_error)
          ∷ [])
    × (t.db ≡ (post_device codec bcrypt 5 "salt" door home).1)
racing_posts_example =
    racing_posts codec bcrypt 5 "salt" door door home (some (hashed "knock"))
      (some (hashed "knock")) home-IsValid refl refl door_hashed door_hashed
