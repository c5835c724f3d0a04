-- ===== src/Registry/Devices/Refines.antt =====
-- The device endpoints do to the fleet what its specification says.
use mathlib.Core.Option
use embediq_cloud.Prelude.{
  ℕ, ◌≡◌, ◌⊎◌, ◌∙◌, sym, refl, String, eq_iff, Option, some, none, Option-cases, inl, inr, [],
  arith, is_some, false, Bool-cases, if◌then◌else◌,
}
use embediq_cloud.Prelude.Table.{update, find-append, find-delete, find-update}
use embediq_cloud.Outcome.{is_returned, Outcome-cases}
use embediq_cloud.Json.{Object, object, Codec}
use embediq_cloud.Db.{Db, Device, DeviceShadow, device_key, shadow_key, find_device, find_shadow}
use embediq_cloud.Db.Connection.{◌>>=◌}
use embediq_cloud.Db.Invariant.{IsValid}
use embediq_cloud.Password.{Bcrypt}
use embediq_cloud.Fleet.{Card, fleet, card_of, enrolled, removed, changed, regrouped, attributed}
use embediq_cloud.Registry.Devices.{
  DeviceCreate, DevicePatch, new_device, optional_hash, create_device, post_device, delete_device,
  patch_device, patch_rows, set_group, set_attributes,
}
use embediq_cloud.Registry.Devices.Patch.{
  with_group, with_attributes, with_group-id, with_attributes-id, patch_device-eq-update,
}

-- the card of a new device
abbrev pub new_card : DeviceCreate → Card
new_card body = record {
  group = body.group_id;
  attributes = some (object body.attributes);
  shadow = some ([], []);
}

-- what a PATCH makes of a card
abbrev pub patched_by : DevicePatch → Card → Card
patched_by body card = attributed body.attributes (regrouped body.group_id card)

module _ (C : Codec) (db : Db C.Text) (j : String) where
  pub post_device-refines :
      (B : Bcrypt) (now : ℕ) (salt : String) (body : DeviceCreate)
      → IsValid db
      → let (r, db') = post_device C B now salt body db in
        fleet C db' j
        ≡ (if is_returned r then enrolled body.id (new_card body) (fleet C db) j else fleet C db j)
  unfolding post_device create_device ◌>>=◌
  post_device-refines B now salt body h =
      elim (Outcome-cases (optional_hash C B salt body.password)) [
        | inr (x, e) ↦ ground arith
        | inl (p, e) ↦ ground (
          arith,
          h.shadows body.id,
          find-append device_key j db.devices (new_device C B now body p),
          eq_iff body.id j,
          C.loads-dumps (object body.attributes),
        )
      ]

  pub delete_device-refines :
      (k : String)
      → let (r, db') = delete_device C k db in
        fleet C db' j ≡ (if is_returned r then removed k (fleet C db) j else fleet C db j)
  unfolding delete_device ◌>>=◌
  delete_device-refines k = ground (
    arith,
    find-delete device_key k j db.devices,
    find-delete shadow_key k j db.device_shadow,
    eq_iff k j,
  )

  patched_card :
      (body : DevicePatch) (d : Device C.Text) (s : Option (DeviceShadow C.Text))
      → card_of C (some (with_attributes C body.attributes (with_group C body.group_id d))) s
        ≡ Option.map (patched_by body) (card_of C (some d) s)
  patched_card body d s = go body.group_id body.attributes
    where
      go :
          (g : Option (Option String)) (a : Option (Option Object))
          → card_of C (some (with_attributes C a (with_group C g d))) s
            ≡ Option.map (λ card. attributed a (regrouped g card)) (card_of C (some d) s)
      go (some (some g)) (some (some a)) = ground (arith, C.loads-dumps (object a))
      go (some none) (some (some a)) = ground (arith, C.loads-dumps (object a))
      go none (some (some a)) = ground (arith, C.loads-dumps (object a))
      go (some (some g)) (some none) = refl
      go (some none) (some none) = refl
      go none (some none) = refl
      go (some (some g)) none = refl
      go (some none) none = refl
      go none none = refl

  patched_known :
      (k : String) (body : DevicePatch)
      → is_returned (patch_device C k body db).0 ≡ is_some (find_device k db)
  unfolding patch_device patch_rows set_group set_attributes ◌>>=◌
  patched_known k body = ground arith

  pub patch_device-refines :
      (k : String) (body : DevicePatch)
      → let (r, db') = patch_device C k body db in
        fleet C db' j
        ≡ (if is_returned r then changed k (patched_by body) (fleet C db) j else fleet C db j)
  patch_device-refines k body =
      let step = patch_device-eq-update C k body db in
      let known = patched_known k body in
      let outer =
        find-update device_key (with_attributes C body.attributes)
          (with_attributes-id C body.attributes) k j
          (update device_key k (with_group C body.group_id) db.devices) in
      let inner =
        find-update device_key (with_group C body.group_id) (with_group-id C body.group_id) k j
          db.devices in
      elim (Option-cases (find_device j db)) [
        | inl n ↦ ground (arith, step, known, outer, inner, eq_iff k j, n)
        | inr (d, n) ↦ ground (
          arith,
          step,
          known,
          outer,
          inner,
          eq_iff k j,
          n,
          patched_card body d (find_shadow j db),
        )
      ]

module _ (C : Codec) (db : Db C.Text) where
  card-is_some : (k : String) → is_some (fleet C db k) ≡ is_some (find_device k db)
  card-is_some k = elim (Option-cases (find_device k db)) [
    | inl n ↦ rw n refl
    | inr (d, n) ↦ rw n refl
  ]

  -- a POST that succeeds is of an id that is free
  pub post_device-accepts :
      (B : Bcrypt) (now : ℕ) (salt : String) (body : DeviceCreate)
      → (is_returned (post_device C B now salt body db).0 ≡ false)
        ⊎ (is_some (fleet C db body.id) ≡ false)
  unfolding post_device create_device ◌>>=◌
  post_device-accepts B now salt body = elim (Bool-cases (is_some (find_device body.id db))) [
    | inl known ↦ inl (ground (arith, known))
    | inr free ↦ inr (card-is_some body.id ∙ free)
  ]

  pub patch_device-accepts :
      (k : String) (body : DevicePatch)
      → is_returned (patch_device C k body db).0 ≡ is_some (fleet C db k)
  patch_device-accepts k body = patched_known C db k k body ∙ sym (card-is_some k)

  pub delete_device-accepts :
      (k : String) → is_returned (delete_device C k db).0 ≡ is_some (fleet C db k)
  unfolding delete_device ◌>>=◌
  delete_device-accepts k = ground (arith, card-is_some k)
