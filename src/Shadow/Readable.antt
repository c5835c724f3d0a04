-- ===== src/Shadow/Readable.antt =====
-- The writes to the shadows store documents that can be read back.
use embediq_cloud.Prelude.{
  ℕ, ◌≡◌, refl, String, Bool, true, arith, is_some, All-append, [], ◌∷◌, ◌++◌,
}
use embediq_cloud.Prelude.Table.{update, All-update}
use embediq_cloud.Json.{Object, object, Codec}
use embediq_cloud.Json.Dict.{dict_of, dict_of-dumps}
use embediq_cloud.Db.{Db, DeviceShadow, shadow_key}
use embediq_cloud.Db.Connection.{upsert_shadow}
use embediq_cloud.Db.Connection.Keeps.{Keeps}
use embediq_cloud.Db.Readable.{IsReadable, ReadsShadow}
use embediq_cloud.Mqtt.{Message}
use embediq_cloud.Shadow.{patch_desired, new_shadow, empty_document}
use embediq_cloud.Shadow.Valid.{patch_desired-Keeps}

module _ (C : Codec) where
  pub upsert_shadow-Keeps :
      (s : DeviceShadow C.Text) (f : DeviceShadow C.Text → DeviceShadow C.Text)
      → ReadsShadow C s
      → ((x : DeviceShadow C.Text) → ReadsShadow C x → ReadsShadow C (f x))
      → Keeps (IsReadable C) (upsert_shadow s f)
  unfolding upsert_shadow
  upsert_shadow-Keeps s f new keeps = record {
    at = λ c h w.
        let rows = (c.work).device_shadow in
        let updated : IsReadable C
            (record (c.work) { device_shadow = update shadow_key s.device_id f rows }) =
          record {
            attributes = w.attributes;
            shadows = All-update shadow_key (ReadsShadow C) s.device_id f rows keeps w.shadows;
          } in
        let added : IsReadable C (record (c.work) { device_shadow = rows ++ s ∷ [] }) = record {
          attributes = w.attributes;
          shadows = All-append (ReadsShadow C) rows (s ∷ []) w.shadows (new, tt);
        } in
        ground (arith, updated, added);
  }

  pub dict-is_some : (d : Object) → is_some (dict_of C (C.dumps (object d))) ≡ true
  dict-is_some d = rw (dict_of-dumps C d) refl

  pub patch_desired-IsReadable :
      (takes : Message C.Text → Bool) (now : ℕ) (k : String) (delta : Object) (db : Db C.Text)
      → IsReadable C db
      → IsReadable C (patch_desired C takes now k delta db).1
  patch_desired-IsReadable takes now k delta db =
      patch_desired-Keeps C (IsReadable C) takes now k delta db (λ d.
        upsert_shadow-Keeps (new_shadow C k (C.dumps (object d)) (empty_document C) now) _
          (dict-is_some d, dict-is_some []) (λ x r. (dict-is_some d, r.1)))
