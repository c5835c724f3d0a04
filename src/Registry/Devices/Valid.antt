-- ===== src/Registry/Devices/Valid.antt =====
-- The device endpoints keep the database valid.
use embediq_cloud.Prelude.{ℕ, refl, String, arith, inl, inr, Option, some}
use embediq_cloud.Outcome.{Outcome-cases}
use embediq_cloud.Json.{Object, object, Codec}
use embediq_cloud.Db.{Db}
use embediq_cloud.Db.Connection.{◌>>=◌}
use embediq_cloud.Db.Connection.Keeps.{Keeps, keeps_rules, Keeps-with_connection}
use embediq_cloud.Db.Invariant.{IsValid}
use embediq_cloud.Db.Invariant.Rows.{
  add_device-IsValid, update_device-IsValid, delete_device-IsValid,
}
use embediq_cloud.Password.{Bcrypt}
use embediq_cloud.Registry.Devices.{
  DeviceCreate, DevicePatch, new_device, new_state, optional_hash, create_device, post_device,
  patch_rows, patch_device, delete_device, set_group, set_attributes,
}

module _ (C : Codec) (B : Bcrypt) (now : ℕ) (salt : String) (body : DeviceCreate) where
  -- POST of a device, whatever its answer, leaves a valid database valid: the device is there with its
  -- state row, or nothing is.
  pub post_device-IsValid :
      (db : Db C.Text) → IsValid db → IsValid (post_device C B now salt body db).1
  unfolding post_device create_device ◌>>=◌
  post_device-IsValid db h = elim (Outcome-cases (optional_hash C B salt body.password)) [
    | inl (p, e) ↦ ground (
      arith,
      h.states body.id,
      add_device-IsValid db h (new_device C B now body p) (new_state body.id),
    )
    | inr (x, e) ↦ ground (arith, h.states body.id)
  ]

module _ (C : Codec) where
  pub set_group-Keeps : (k : String) (g : Option (Option String)) → Keeps IsValid (set_group C k g)
  unfolding set_group ◌>>=◌
  set_group-Keeps k (some (some g)) = record {
    at =
        λ c h w. (h, update_device-IsValid c.work w k (λ d. record d { group_id = g }) (λ d. refl));
  }
  set_group-Keeps k _ = search keeps_rules

  pub set_attributes-Keeps :
      (k : String) (a : Option (Option Object)) → Keeps IsValid (set_attributes C k a)
  unfolding set_attributes ◌>>=◌
  set_attributes-Keeps k (some (some a)) = record {
    at = λ c h w. (
      h,
      update_device-IsValid c.work w k (λ d. record d { attributes = C.dumps (object a) })
          (λ d. refl),
    );
  }
  set_attributes-Keeps k _ = search keeps_rules

  patch_rows-Keeps : (k : String) (body : DevicePatch) → Keeps IsValid (patch_rows C k body)
  unfolding patch_rows
  patch_rows-Keeps k body = search (keeps_rules, set_group-Keeps, set_attributes-Keeps) depth 12

  -- PATCH of a device leaves a valid database valid, whatever its answer.
  pub patch_device-IsValid :
      (device_id : String) (body : DevicePatch) (db : Db C.Text)
      → IsValid db
      → IsValid (patch_device C device_id body db).1
  unfolding patch_device
  patch_device-IsValid k body db = Keeps-with_connection _ db (patch_rows-Keeps k body)

  -- DELETE of a device leaves a valid database valid: no state and no shadow stays without its device.
  pub delete_device-keeps-IsValid :
      (device_id : String) (db : Db C.Text) → IsValid db → IsValid (delete_device C device_id db).1
  unfolding delete_device ◌>>=◌
  delete_device-keeps-IsValid k db h = ground (arith, delete_device-IsValid db h k)
