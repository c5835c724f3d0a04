-- ===== src/Registry/Groups/Valid.antt =====
-- The group endpoints keep the database valid, and move the devices of a deleted group.
use mathlib.Core.Option
use embediq_cloud.Prelude.{ℕ, ◌≡◌, ◌≢◌, refl, String, eq_iff, arith, List, [], ◌∷◌, map}
use embediq_cloud.Prelude.Table.{find, find-delete, delete-HasUniqueKeys, HasUniqueKeys}
use embediq_cloud.Db.{Db, Device, group_key, device_key}
use embediq_cloud.Db.Connection.{◌>>=◌, modify}
use embediq_cloud.Db.Invariant.{IsValid}
use embediq_cloud.Db.Invariant.Rows.{add_group-IsValid}
use embediq_cloud.Registry.Groups.{
  GroupCreate, post_group, move_device, drop_group, delete_rows, delete_group,
}

module _ {T : Type 0} where
  find-move_device :
      (g k : String) (ds : List (Device T))
      → find device_key k (map (move_device g) ds)
        ≡ Option.map (move_device g) (find device_key k ds)
  find-move_device g k [] = refl
  find-move_device g k (d ∷ ds) = ground (arith, find-move_device g k ds)

  move_device-HasUniqueKeys :
      (g : String) (ds : List (Device T))
      → HasUniqueKeys device_key ds
      → HasUniqueKeys device_key (map (move_device g) ds)
  move_device-HasUniqueKeys g [] h = tt
  move_device-HasUniqueKeys g (d ∷ ds) h =
      ground (arith, move_device-HasUniqueKeys g ds h.1, find-move_device g d.id ds)

  pub drop_group-IsValid :
      (g : String) (db : Db T) → g ≢ "default" → IsValid db → IsValid (drop_group g db)
  drop_group-IsValid g db ne h = record {
    device_ids = move_device-HasUniqueKeys g db.devices h.device_ids;
    state_ids = h.state_ids;
    shadow_ids = h.shadow_ids;
    group_ids = delete-HasUniqueKeys group_key g db.groups h.group_ids;
    states = λ k. ground (arith, h.states k, find-move_device g k db.devices);
    shadows = λ k e. ground (arith, h.shadows k, find-move_device g k db.devices);
    rotation_ids = h.rotation_ids;
    default_group =
        ground
          (arith, h.default_group, find-delete group_key g "default" db.groups, eq_iff g "default");
  }

  -- POST of a group leaves a valid database valid, whatever its answer.
  pub post_group-IsValid :
      (now : ℕ) (body : GroupCreate) (db : Db T) → IsValid db → IsValid (post_group now body db).1
  unfolding post_group ◌>>=◌
  post_group-IsValid now body db h = ground (
    arith,
    add_group-IsValid db h
        (record { id = body.id; description = body.description; created_at = now }),
  )

  -- DELETE of a group leaves a valid database valid: the group "default" is never deleted.
  pub delete_group-IsValid : (g : String) (db : Db T) → IsValid db → IsValid (delete_group g db).1
  unfolding delete_group delete_rows ◌>>=◌ modify
  delete_group-IsValid g db h = ground (arith, drop_group-IsValid g db, eq_iff g "default")
