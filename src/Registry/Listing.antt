-- ===== src/Registry/Listing.antt =====
-- The two lists of app/registry.py show each row of their table once.
use embediq_cloud.Prelude.{◌≡◌, refl, Bool, List, [], ◌∷◌, map, count}
use embediq_cloud.Prelude.Int.{pos}
use embediq_cloud.Prelude.Table.{order_by, count-order_by}
use embediq_cloud.Outcome.{returned}
use embediq_cloud.Json.{Value, str, int, list, object, Codec}
use embediq_cloud.Db.{Db, Device, Group, device_key, group_key, find_state}
use embediq_cloud.Db.Connection.{◌>>=◌}
use embediq_cloud.Envelope.{ok}
use embediq_cloud.Registry.Devices.{joined_row, list_devices, opt_str}
use embediq_cloud.Registry.Groups.{device_count, list_groups}

module _ (C : Codec) (db : Db C.Text) where
  abbrev pub device_row : Device C.Text → Value
  device_row d = joined_row C d (find_state d.id db)

  abbrev pub group_row : Group → Value
  group_row g = object (
      ("id", str g.id)
      ∷ ("description", opt_str g.description)
      ∷ ("device_count", int (pos (device_count g.id db)))
      ∷ [])

  -- GET of the devices lists the row of each device with its state, each as often as it is stored,
  -- and changes nothing.
  pub list_devices_complete :
      (rows : List Value) × (list_devices C db ≡ (returned (ok (list rows)), db))
      × ((p : Value → Bool) → count p rows ≡ count p (map device_row db.devices))
  unfolding list_devices ◌>>=◌
  list_devices_complete = (
    map device_row (order_by device_key db.devices),
    refl,
    λ p. count-order_by device_key device_row p db.devices,
  )

  -- GET of the groups lists each group with the number of its devices, each as often as it is
  -- stored, and changes nothing.
  pub list_groups_complete :
      (rows : List Value) × (list_groups db ≡ (returned (ok (list rows)), db))
      × ((p : Value → Bool) → count p rows ≡ count p (map group_row db.groups))
  unfolding list_groups ◌>>=◌
  list_groups_complete = (
    map group_row (order_by group_key db.groups),
    refl,
    λ p. count-order_by group_key group_row p db.groups,
  )
