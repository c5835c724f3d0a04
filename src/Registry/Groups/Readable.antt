-- ===== src/Registry/Groups/Readable.antt =====
-- The group endpoints leave the stored documents as they are.
use embediq_cloud.Prelude.{ℕ, List, [], ◌∷◌, ◌++◌, String, arith, All-map}
use embediq_cloud.Json.{Codec}
use embediq_cloud.Db.{Db, Device, Group}
use embediq_cloud.Db.Connection.{◌>>=◌, modify}
use embediq_cloud.Db.Readable.{IsReadable, ReadsDevice}
use embediq_cloud.Registry.Groups.{
  GroupCreate, move_device, drop_group, delete_rows, post_group, delete_group,
}

module _ (C : Codec) where
  pub post_group-IsReadable :
      (now : ℕ) (body : GroupCreate) (db : Db C.Text)
      → IsReadable C db
      → IsReadable C (post_group now body db).1
  unfolding post_group ◌>>=◌
  post_group-IsReadable now body db r =
      let same : (gs : List Group) → IsReadable C (record db { groups = gs }) =
        λ gs. record { attributes = r.attributes; shadows = r.shadows } in
      ground (
        arith,
        same (
            db.groups
            ++ (record { id = body.id; description = body.description; created_at = now }) ∷ []),
      )

  move_device-ReadsDevice :
      (g : String) (d : Device C.Text) → ReadsDevice C d → ReadsDevice C (move_device g d)
  move_device-ReadsDevice g d r = ground arith

  pub drop_group-IsReadable :
      (g : String) (db : Db C.Text) → IsReadable C db → IsReadable C (drop_group g db)
  drop_group-IsReadable g db r = record {
    attributes =
        All-map (ReadsDevice C) (move_device g) db.devices (move_device-ReadsDevice g) r.attributes;
    shadows = r.shadows;
  }

  pub delete_group-IsReadable :
      (g : String) (db : Db C.Text) → IsReadable C db → IsReadable C (delete_group g db).1
  unfolding delete_group delete_rows ◌>>=◌ modify
  delete_group-IsReadable g db r = ground (arith, drop_group-IsReadable g db r)
