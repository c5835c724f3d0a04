-- ===== src/Registry/Devices/Readable.antt =====
-- The device endpoints store documents that can be read back.
use embediq_cloud.Prelude.{
  ℕ, refl, String, arith, inl, inr, All-append, Option, none, some, [], ◌∷◌, ◌++◌,
}
use embediq_cloud.Prelude.Table.{All-update, All-delete}
use embediq_cloud.Outcome.{Outcome-cases}
use embediq_cloud.Json.{Object, object, Codec}
use embediq_cloud.Db.{Db, Device, device_key, shadow_key}
use embediq_cloud.Db.Connection.{◌>>=◌, update_device}
use embediq_cloud.Db.Connection.Keeps.{Keeps, keeps_rules, Keeps-with_connection}
use embediq_cloud.Db.Readable.{IsReadable, ReadsDevice, ReadsShadow}
use embediq_cloud.Password.{Bcrypt}
use embediq_cloud.Registry.Devices.{
  DeviceCreate, DevicePatch, new_device, new_state, optional_hash, create_device, post_device,
  patch_rows, patch_device, delete_device, delete_row, set_group, set_attributes,
}

module _ (C : Codec) (B : Bcrypt) (now : ℕ) (salt : String) (body : DeviceCreate) where
  new_device-ReadsDevice : (hash : Option String) → ReadsDevice C (new_device C B now body hash)
  new_device-ReadsDevice hash = rw (C.loads-dumps (object body.attributes)) refl

  pub add_device-IsReadable :
      (db : Db C.Text) (hash : Option String)
      → IsReadable C db
      → IsReadable C (record db {
        devices = db.devices ++ new_device C B now body hash ∷ [];
        device_state = db.device_state ++ new_state body.id ∷ [];
      })
  add_device-IsReadable db hash r = record {
    attributes =
        All-append (ReadsDevice C) db.devices _ r.attributes (new_device-ReadsDevice hash, tt);
    shadows = r.shadows;
  }

  pub post_device-IsReadable :
      (db : Db C.Text) → IsReadable C db → IsReadable C (post_device C B now salt body db).1
  unfolding post_device create_device ◌>>=◌
  post_device-IsReadable db r = elim (Outcome-cases (optional_hash C B salt body.password)) [
    | inl (p, e) ↦ ground (arith, add_device-IsReadable db p r)
    | inr (x, e) ↦ ground arith
  ]

module _ (C : Codec) where
  update_device-Keeps :
      (k : String) (f : Device C.Text → Device C.Text)
      → ((d : Device C.Text) → ReadsDevice C d → ReadsDevice C (f d))
      → Keeps (IsReadable C) (update_device k f)
  unfolding update_device
  update_device-Keeps k f g = record {
    at = λ c h w. (
      h,
      record {
        attributes = All-update device_key (ReadsDevice C) k f (c.work).devices g w.attributes;
        shadows = w.shadows;
      },
    );
  }

  pub set_group-Keeps :
      (k : String) (g : Option (Option String)) → Keeps (IsReadable C) (set_group C k g)
  unfolding set_group
  set_group-Keeps k (some (some g)) = update_device-Keeps k _ (λ d r. r)
  set_group-Keeps k (some none) = search keeps_rules
  set_group-Keeps k none = search keeps_rules

  pub set_attributes-Keeps :
      (k : String) (a : Option (Option Object)) → Keeps (IsReadable C) (set_attributes C k a)
  unfolding set_attributes
  set_attributes-Keeps k (some (some a)) =
      update_device-Keeps k _ (λ d r. rw (C.loads-dumps (object a)) refl)
  set_attributes-Keeps k (some none) = search keeps_rules
  set_attributes-Keeps k none = search keeps_rules

  patch_rows-Keeps : (k : String) (body : DevicePatch) → Keeps (IsReadable C) (patch_rows C k body)
  unfolding patch_rows
  patch_rows-Keeps k body = search (keeps_rules, set_group-Keeps, set_attributes-Keeps) depth 12

  pub patch_device-IsReadable :
      (k : String) (body : DevicePatch) (db : Db C.Text)
      → IsReadable C db
      → IsReadable C (patch_device C k body db).1
  unfolding patch_device
  patch_device-IsReadable k body db = Keeps-with_connection _ db (patch_rows-Keeps k body)

  pub delete_device-IsReadable :
      (k : String) (db : Db C.Text) → IsReadable C db → IsReadable C (delete_device C k db).1
  unfolding delete_device ◌>>=◌
  delete_device-IsReadable k db r =
      let left : IsReadable C (delete_row C k db) = record {
        attributes = All-delete device_key (ReadsDevice C) k db.devices r.attributes;
        shadows = All-delete shadow_key (ReadsShadow C) k db.device_shadow r.shadows;
      } in
      ground (arith, left)
