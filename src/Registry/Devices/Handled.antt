-- ===== src/Registry/Devices/Handled.antt =====
-- The device endpoints raise nothing but an HTTPException where the documents can be read.
use embediq_cloud.Prelude.{◌≡◌, refl, String, true, some, Option-cases, inl, inr, arith, is_some}
use embediq_cloud.Prelude.Table.{All-find}
use embediq_cloud.Outcome.{is_handled}
use embediq_cloud.Json.{Codec}
use embediq_cloud.Json.Dict.{dict_of}
use embediq_cloud.Db.{Db, DeviceShadow, device_key, shadow_key, find_device, find_shadow}
use embediq_cloud.Db.Connection.{◌>>=◌}
use embediq_cloud.Db.Readable.{IsReadable, ReadsDevice, ReadsShadow}
use embediq_cloud.Registry.Devices.{
  DevicePatch, patch_device, patch_rows, delete_device, get_device, list_devices, set_group,
  set_attributes,
}
use embediq_cloud.Registry.Devices.Replies.{shadow_page, get_device-eq-page}

module _ (C : Codec) where
  dict-loads : (t : C.Text) → is_some (dict_of C t) ≡ true → is_some (C.loads t) ≡ true
  dict-loads t e = elim (Option-cases (C.loads t)) [
    | inl n ↦ ground (arith, n)
    | inr (v, n) ↦ ground (arith, n)
  ]

  pub shadow_page-is_handled :
      (s : DeviceShadow C.Text) → ReadsShadow C s → is_handled (shadow_page C (some s)) ≡ true
  shadow_page-is_handled s r = ground (arith, dict-loads s.desired r.0, dict-loads s.reported r.1)

module _ (C : Codec) (db : Db C.Text) where
  pub get_device-is_handled :
      (k : String) → IsReadable C db → is_handled (get_device C k db).0 ≡ true
  get_device-is_handled k r =
      let paged = get_device-eq-page C k db in
      elim (Option-cases (find_device k db)) [
        | inl n ↦ ground (arith, paged, n)
        | inr (d, n) ↦
            let a = All-find device_key (ReadsDevice C) k db.devices d r.attributes n in
            elim (Option-cases (find_shadow k db)) [
              | inl w ↦ ground (arith, paged, n, w, a)
              | inr (s, w) ↦
                  let b =
                    shadow_page-is_handled C s
                      (All-find shadow_key (ReadsShadow C) k db.device_shadow s r.shadows w) in
                  ground (arith, paged, n, w, a, b)
            ]
      ]

  pub patch_device-is_handled :
      (k : String) (body : DevicePatch) → is_handled (patch_device C k body db).0 ≡ true
  unfolding patch_device patch_rows set_group set_attributes ◌>>=◌
  patch_device-is_handled k body = ground arith

  pub delete_device-is_handled : (k : String) → is_handled (delete_device C k db).0 ≡ true
  unfolding delete_device ◌>>=◌
  delete_device-is_handled k = ground arith

  pub list_devices-is_handled : is_handled (list_devices C db).0 ≡ true
  unfolding list_devices ◌>>=◌
  list_devices-is_handled = refl
