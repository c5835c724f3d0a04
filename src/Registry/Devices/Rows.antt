-- ===== src/Registry/Devices/Rows.antt =====
-- The row of a device after POST and after DELETE.
use embediq_cloud.Prelude.{
  ℕ, ◌≡◌, ◌≢◌, refl, inl, inr, String, eq_iff, eq_refl, some, none, Option-cases, arith,
}
use embediq_cloud.Prelude.Table.{find-append, find-delete}
use embediq_cloud.Outcome.{returned}
use embediq_cloud.Json.{Value, Codec}
use embediq_cloud.Db.{Db, Device, device_key, find_device}
use embediq_cloud.Db.Connection.{◌>>=◌}
use embediq_cloud.Password.{Bcrypt, hash_password}
use embediq_cloud.Registry.Devices.{
  DeviceCreate, new_device, optional_hash, create_device, post_device, delete_device,
}

module _ (C : Codec) (B : Bcrypt) where
  -- the row that a POST with a password leaves
  pub find-post_device :
      (created : ℕ) (salt password : String) (body : DeviceCreate) (db : Db C.Text) (reply : Value)
      → body.password ≡ some password
      → password ≢ ""
      → (post_device C B created salt body db).0 ≡ returned reply
      → (hash : String) × (d : Device C.Text) × (B.hashpw password salt ≡ some hash)
        × (d.password_hash ≡ some hash)
        × (find_device body.id (post_device C B created salt body db).1 ≡ some d)
  unfolding post_device create_device optional_hash hash_password ◌>>=◌
  find-post_device created salt password body db reply given ne done =
      elim (Option-cases (B.hashpw password salt)) [
        | inl e ↦ absurd (ground (arith, eq_iff password "", e))
        | inr (hash, e) ↦
            let d = new_device C B created body (some hash) in
            (
              hash,
              d,
              e,
              refl,
              ground (
                arith,
                eq_iff password "",
                find-append device_key body.id db.devices d,
                eq_refl body.id,
              ),
            )
      ]

module _ (C : Codec) where
  pub find-delete_device :
      (k : String) (db : Db C.Text) → find_device k (delete_device C k db).1 ≡ none
  unfolding delete_device ◌>>=◌
  find-delete_device k db = ground (arith, find-delete device_key k k db.devices, eq_refl k)
