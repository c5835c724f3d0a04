-- ===== src/Db/Invariant/Rows.antt =====
-- How the invariant fares under the writes that the handlers make.
use embediq_cloud.Prelude.{
  ℕ, ◌+◌, ◌<◌, List, ◌≡◌, String, eq_iff, true, false, [], ◌∷◌, ◌++◌, arith, is_some,
}
use embediq_cloud.Prelude.Table.{
  update, delete, find-append, find-delete, find-update, append-HasUniqueKeys, delete-HasUniqueKeys,
  update-HasUniqueKeys,
}
use embediq_cloud.Db.{
  Db, Device, DeviceState, DeviceShadow, Group, CertRotation, device_key, state_key, shadow_key,
  group_key, find_device, find_shadow, find_group,
}
use embediq_cloud.Db.Invariant.{IsValid, IsIncreasing}

append-IsIncreasing :
    (r : CertRotation) (rs : List CertRotation) (lo hi : ℕ)
    → IsIncreasing lo rs hi
    → hi < r.id
    → IsIncreasing lo (rs ++ r ∷ []) r.id
append-IsIncreasing r [] lo hi h new = (omega arith, omega arith)
append-IsIncreasing r (x ∷ rs) lo hi h new = (h.0, append-IsIncreasing r rs x.id hi h.1 new)

module _ {T : Type 0} (db : Db T) (h : IsValid db) where
  -- a new device with its state
  pub add_device-IsValid :
      (d : Device T) (s : DeviceState)
      → is_some (find_device d.id db) ≡ false
      → s.device_id ≡ d.id
      → IsValid
          (record db { devices = db.devices ++ d ∷ []; device_state = db.device_state ++ s ∷ [] })
  add_device-IsValid d s new same = record {
    device_ids = append-HasUniqueKeys device_key db.devices d h.device_ids (ground arith);
    state_ids =
        append-HasUniqueKeys state_key db.device_state s h.state_ids
          (ground (arith, h.states d.id, h.states s.device_id));
    shadow_ids = h.shadow_ids;
    group_ids = h.group_ids;
    states = λ k. ground (
      arith,
      h.states k,
      find-append device_key k db.devices d,
      find-append state_key k db.device_state s,
    );
    shadows = λ k e. ground (arith, h.shadows k, find-append device_key k db.devices d);
    default_group = h.default_group;
    rotation_ids = h.rotation_ids;
  }

  -- a write to a device that keeps its id
  pub update_device-IsValid :
      (k : String) (f : Device T → Device T)
      → ((d : Device T) → device_key (f d) ≡ device_key d)
      → IsValid (record db { devices = update device_key k f db.devices })
  update_device-IsValid k f keeps = record {
    device_ids = update-HasUniqueKeys device_key f keeps k db.devices h.device_ids;
    state_ids = h.state_ids;
    shadow_ids = h.shadow_ids;
    group_ids = h.group_ids;
    states = λ j. ground (arith, h.states j, find-update device_key f keeps k j db.devices);
    shadows = λ j e. ground (arith, h.shadows j, find-update device_key f keeps k j db.devices);
    default_group = h.default_group;
    rotation_ids = h.rotation_ids;
  }

  -- a device and what refers to it are deleted
  pub delete_device-IsValid :
      (k : String)
      → IsValid (record db {
        devices = delete device_key k db.devices;
        device_state = delete state_key k db.device_state;
        device_shadow = delete shadow_key k db.device_shadow;
      })
  delete_device-IsValid k = record {
    device_ids = delete-HasUniqueKeys device_key k db.devices h.device_ids;
    state_ids = delete-HasUniqueKeys state_key k db.device_state h.state_ids;
    shadow_ids = delete-HasUniqueKeys shadow_key k db.device_shadow h.shadow_ids;
    group_ids = h.group_ids;
    states = λ j. ground (
      arith,
      h.states j,
      find-delete device_key k j db.devices,
      find-delete state_key k j db.device_state,
    );
    shadows = λ j e. ground (
      arith,
      h.shadows j,
      find-delete device_key k j db.devices,
      find-delete shadow_key k j db.device_shadow,
    );
    default_group = h.default_group;
    rotation_ids = h.rotation_ids;
  }

  -- a write to a state that keeps its device
  pub update_state-IsValid :
      (k : String) (f : DeviceState → DeviceState)
      → ((s : DeviceState) → state_key (f s) ≡ state_key s)
      → IsValid (record db { device_state = update state_key k f db.device_state })
  update_state-IsValid k f keeps = record {
    device_ids = h.device_ids;
    state_ids = update-HasUniqueKeys state_key f keeps k db.device_state h.state_ids;
    shadow_ids = h.shadow_ids;
    group_ids = h.group_ids;
    states = λ j. ground (arith, h.states j, find-update state_key f keeps k j db.device_state);
    shadows = h.shadows;
    default_group = h.default_group;
    rotation_ids = h.rotation_ids;
  }

  pub update_shadow-IsValid :
      (k : String) (f : DeviceShadow T → DeviceShadow T)
      → ((s : DeviceShadow T) → shadow_key (f s) ≡ shadow_key s)
      → IsValid (record db { device_shadow = update shadow_key k f db.device_shadow })
  update_shadow-IsValid k f keeps = record {
    device_ids = h.device_ids;
    state_ids = h.state_ids;
    shadow_ids = update-HasUniqueKeys shadow_key f keeps k db.device_shadow h.shadow_ids;
    group_ids = h.group_ids;
    states = h.states;
    shadows =
        λ j e. ground (arith, h.shadows j, find-update shadow_key f keeps k j db.device_shadow);
    default_group = h.default_group;
    rotation_ids = h.rotation_ids;
  }

  -- the first shadow of a device
  pub add_shadow-IsValid :
      (s : DeviceShadow T)
      → is_some (find_shadow s.device_id db) ≡ false
      → is_some (find_device s.device_id db) ≡ true
      → IsValid (record db { device_shadow = db.device_shadow ++ s ∷ [] })
  add_shadow-IsValid s new known = record {
    device_ids = h.device_ids;
    state_ids = h.state_ids;
    shadow_ids = append-HasUniqueKeys shadow_key db.device_shadow s h.shadow_ids (ground arith);
    group_ids = h.group_ids;
    states = h.states;
    shadows = λ k e.
        ground
          (arith, h.shadows k, find-append shadow_key k db.device_shadow s, eq_iff s.device_id k);
    default_group = h.default_group;
    rotation_ids = h.rotation_ids;
  }

  pub add_group-IsValid :
      (g : Group)
      → is_some (find_group g.id db) ≡ false
      → IsValid (record db { groups = db.groups ++ g ∷ [] })
  add_group-IsValid g new = record {
    device_ids = h.device_ids;
    state_ids = h.state_ids;
    shadow_ids = h.shadow_ids;
    group_ids = append-HasUniqueKeys group_key db.groups g h.group_ids (ground arith);
    states = h.states;
    shadows = h.shadows;
    rotation_ids = h.rotation_ids;
    default_group = ground (arith, h.default_group, find-append group_key "default" db.groups g);
  }

  -- a new rotation, whose id is the next one
  pub add_rotation-IsValid :
      (r : CertRotation)
      → r.id ≡ db.rotation_seq + 1
      → IsValid (record db { cert_rotations = db.cert_rotations ++ r ∷ []; rotation_seq = r.id })
  add_rotation-IsValid r e = record {
    device_ids = h.device_ids;
    state_ids = h.state_ids;
    shadow_ids = h.shadow_ids;
    group_ids = h.group_ids;
    states = h.states;
    shadows = h.shadows;
    default_group = h.default_group;
    rotation_ids =
        append-IsIncreasing r db.cert_rotations 0 db.rotation_seq h.rotation_ids (omega (arith, e));
  }
