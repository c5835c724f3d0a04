-- ===== src/Tests/Devices.antt =====
-- The device and group endpoints on the small file.
use embediq_cloud.Prelude.{◌≡◌, refl, none, some, [], ◌∷◌, eq_iff}
use embediq_cloud.Outcome.{returned}
use embediq_cloud.Json.{str, object}
use embediq_cloud.Db.{find_group}
use embediq_cloud.Envelope.{ok}
use embediq_cloud.Registry.Devices.{DeviceCreate, DevicePatch, post_device, get_device}
use embediq_cloud.Registry.Devices.Replies.{
  fresh_page, post_device_accepted, get_device-post_device,
}
use embediq_cloud.Registry.Groups.{GroupCreate, delete_group, device_count}
use embediq_cloud.Registry.Groups.Replies.{delete_group_counts}
use embediq_cloud.Tests.{codec, bcrypt, home, home-IsValid, door, hashed}

-- the id that is registered already
abbrev second_lamp : DeviceCreate
second_lamp = record door { id = "lamp" }

abbrev to_default : DevicePatch
to_default = record { attributes = none; group_id = some (some "default") }

abbrev yard : GroupCreate
yard = record { id = "yard"; description = none }

post_device_accepted_example :
    (post_device codec bcrypt 5 "salt" door home).0
    ≡ returned (ok (object (("id", str "door") ∷ [])))
post_device_accepted_example =
    post_device_accepted codec bcrypt 5 "salt" door home "knock" (hashed "knock") home-IsValid refl
      refl refl

get_device-post_device_example :
    (get_device codec "door" (post_device codec bcrypt 5 "salt" door home).1).0
    ≡ returned (fresh_page door)
get_device-post_device_example =
    get_device-post_device codec bcrypt 5 "salt" door home (ok (object (("id", str "door") ∷ [])))
      home-IsValid post_device_accepted_example

delete_group_counts_example :
    ((delete_group "hall" home).0 ≡ returned (ok (object (("id", str "hall") ∷ []))))
    × (find_group "hall" (delete_group "hall" home).1 ≡ none)
    × (device_count "default" (delete_group "hall" home).1 ≡ 1)
delete_group_counts_example =
    delete_group_counts "hall" "default" home (λ e. cc ((eq_iff "hall" "default").1 e)) refl
