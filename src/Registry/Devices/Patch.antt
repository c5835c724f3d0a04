-- ===== src/Registry/Devices/Patch.antt =====
-- What PATCH changes of a device.
use mathlib.Core.Option
use embediq_cloud.Prelude.{
  ◌≡◌, refl, String, ◌==◌, eq_iff, arith, is_some, Option, some, none, List, [], ◌∷◌, if◌then◌else◌,
}
use embediq_cloud.Prelude.Table.{update, find-update}
use embediq_cloud.Outcome.{returned}
use embediq_cloud.Json.{Object, object, Codec}
use embediq_cloud.Db.{Db, Device, device_key, find_device, find_state, find_shadow}
use embediq_cloud.Db.Connection.{Conn, ◌>>=◌}
use embediq_cloud.Registry.Devices.{
  DevicePatch, patch_rows, patch_device, set_group, set_attributes, get_device,
}
use embediq_cloud.Registry.Devices.Replies.{page, get_device-eq-page}

update_same :
    {T : Type 0} (k : String) (rs : List (Device T)) → update device_key k (λ d. d) rs ≡ rs
update_same k [] = refl
update_same k (r ∷ rs) = ground (arith, update_same k rs)

module _ (C : Codec) where
  abbrev pub with_group : Option (Option String) → Device C.Text → Device C.Text
  with_group (some (some g)) d = record d { group_id = g }
  with_group _ d = d

  abbrev pub with_attributes : Option (Option Object) → Device C.Text → Device C.Text
  with_attributes (some (some a)) d = record d { attributes = C.dumps (object a) }
  with_attributes _ d = d

  -- the row after a PATCH: a field that is absent or null stays
  abbrev pub patched : DevicePatch → Device C.Text → Device C.Text
  patched body d = with_attributes body.attributes (with_group body.group_id d)

  pub with_group-id : (g : Option (Option String)) (d : Device C.Text) → (with_group g d).id ≡ d.id
  with_group-id (some (some g)) d = refl
  with_group-id (some none) d = refl
  with_group-id none d = refl

  pub with_attributes-id :
      (a : Option (Option Object)) (d : Device C.Text) → (with_attributes a d).id ≡ d.id
  with_attributes-id (some (some a)) d = refl
  with_attributes-id (some none) d = refl
  with_attributes-id none d = refl

  -- `set_group` and `set_attributes` write to the row of `k`
  set_group-eq-update :
      (k : String) (g : Option (Option String)) (c : Conn C.Text)
      → set_group C k g c ≡ (
        returned tt,
        record c {
          work = record (c.work) { devices = update device_key k (with_group g) (c.work).devices };
        },
      )
  unfolding set_group ◌>>=◌
  set_group-eq-update k (some (some g)) c = refl
  set_group-eq-update k (some none) c = rw (update_same k (c.work).devices)
  set_group-eq-update k none c = rw (update_same k (c.work).devices)

  set_attributes-eq-update :
      (k : String) (a : Option (Option Object)) (c : Conn C.Text)
      → set_attributes C k a c ≡ (
        returned tt,
        record c {
          work = record (c.work) {
            devices = update device_key k (with_attributes a) (c.work).devices;
          };
        },
      )
  unfolding set_attributes ◌>>=◌
  set_attributes-eq-update k (some (some a)) c = refl
  set_attributes-eq-update k (some none) c = rw (update_same k (c.work).devices)
  set_attributes-eq-update k none c = rw (update_same k (c.work).devices)

  -- PATCH of a registered id rewrites its row, and of another id nothing.
  pub patch_device-eq-update :
      (k : String) (body : DevicePatch) (db : Db C.Text)
      → (patch_device C k body db).1 ≡ (
          if is_some (find_device k db)
          then record db {
            devices =
                update device_key k
                  (with_attributes body.attributes)
                  (update device_key k (with_group body.group_id) db.devices);
          }
          else db)
  unfolding patch_device patch_rows ◌>>=◌
  patch_device-eq-update k body db =
      let c : Conn C.Text = record { committed = db; work = db } in
      ground (
        arith,
        set_group-eq-update k body.group_id c,
        set_attributes-eq-update k body.attributes (set_group C k body.group_id c).1,
      )

  -- After a PATCH of `k`, GET of `k` shows the row with the fields of the request that are present
  -- and not null, and all else as before; any other device's page is as before.
  get_device-patch_device :
      (k j : String) (body : DevicePatch) (db : Db C.Text)
      → (get_device C j (patch_device C k body db).1).0
        ≡ page C
            (if k == j then Option.map (patched body) (find_device j db) else find_device j db)
            (find_state j db)
            (find_shadow j db)
  get_device-patch_device k j body db = ground (
    arith,
    get_device-eq-page C j (patch_device C k body db).1,
    patch_device-eq-update k body db,
    find-update device_key (with_attributes body.attributes) (with_attributes-id body.attributes) k
        j (update device_key k (with_group body.group_id) db.devices),
    find-update device_key (with_group body.group_id) (with_group-id body.group_id) k j db.devices,
    eq_iff k j,
  )
