-- ===== src/Registry/Groups/Refines.antt =====
-- DELETE of a group does to the fleet what its specification says.
use mathlib.Core.Option
use embediq_cloud.Prelude.{◌≡◌, refl, String, List, [], ◌∷◌, map, arith, if◌then◌else◌}
use embediq_cloud.Prelude.Table.{find}
use embediq_cloud.Outcome.{is_returned}
use embediq_cloud.Json.{Codec}
use embediq_cloud.Db.{Db, Device, device_key}
use embediq_cloud.Db.Connection.{◌>>=◌, modify}
use embediq_cloud.Fleet.{fleet, changed_all, ungrouped}
use embediq_cloud.Registry.Groups.{move_device, delete_rows, delete_group}

find-move_device :
    {T : Type 0} (g j : String) (ds : List (Device T))
    → find device_key j (map (move_device g) ds) ≡ Option.map (move_device g) (find device_key j ds)
find-move_device g j [] = refl
find-move_device g j (d ∷ ds) = ground (arith, find-move_device g j ds)

pub delete_group-refines :
    (C : Codec) (db : Db C.Text) (j g : String)
    → let (r, db') = delete_group g db in
      fleet C db' j
      ≡ (if is_returned r then changed_all (ungrouped g) (fleet C db) j else fleet C db j)
unfolding delete_group delete_rows ◌>>=◌ modify
delete_group-refines C db j g = ground (arith, find-move_device g j db.devices)
