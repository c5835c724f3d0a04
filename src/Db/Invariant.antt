-- ===== src/Db/Invariant.antt =====
-- The invariant of the database file.
pub mod Rows
use embediq_cloud.Prelude.{ℕ, ◌≤◌, ◌<◌, List, [], ◌∷◌, ◌≡◌, String, true, is_some}
use embediq_cloud.Prelude.Table.{HasUniqueKeys}
use embediq_cloud.Db.{
  Db, CertRotation, device_key, state_key, shadow_key, group_key, find_device, find_state,
  find_shadow, find_group,
}

-- The ids of the rotations grow from row to row, above `lo` and up to `hi`.
abbrev pub IsIncreasing : ℕ → List CertRotation → ℕ → Type 0
IsIncreasing lo [] hi = lo ≤ hi
IsIncreasing lo (r ∷ rs) hi = (lo < r.id) × IsIncreasing r.id rs hi

-- Primary keys are unique, `device_state` has a row for each device and for no other id, a shadow
-- belongs to a device, the group "default" is there, and the ids of rotations have been given out
-- in order.
pub record IsValid {T : Type 0} (db : Db T) : Type 0 where
  pub device_ids : HasUniqueKeys device_key db.devices
  pub state_ids : HasUniqueKeys state_key db.device_state
  pub shadow_ids : HasUniqueKeys shadow_key db.device_shadow
  pub group_ids : HasUniqueKeys group_key db.groups
  pub states : (k : String) → is_some (find_state k db) ≡ is_some (find_device k db)
  pub shadows : (k : String) → is_some (find_shadow k db) ≡ true → is_some (find_device k db) ≡ true
  pub default_group : is_some (find_group "default" db) ≡ true
  pub rotation_ids : IsIncreasing 0 db.cert_rotations db.rotation_seq
