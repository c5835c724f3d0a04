-- ===== src/Shadow/Handled.antt =====
-- The shadow endpoints raise nothing but an HTTPException where the documents can be read.
use embediq_cloud.Prelude.{
  ℕ, ◌≡◌, refl, String, Bool, Bool-cases, true, some, Option-cases, inl, inr, arith, is_some,
}
use embediq_cloud.Prelude.Table.{All-find}
use embediq_cloud.Outcome.{is_handled}
use embediq_cloud.Json.{Codec, Object}
use embediq_cloud.Db.{Db, DeviceShadow, shadow_key, find_device, find_shadow}
use embediq_cloud.Db.Connection.{◌>>=◌}
use embediq_cloud.Db.Readable.{IsReadable, ReadsShadow}
use embediq_cloud.Mqtt.{Message}
use embediq_cloud.Shadow.{get_shadow, get_rows, patch_desired, patch_rows}
use embediq_cloud.Fleet.{shadow_of, row_shadow}
use embediq_cloud.Shadow.Replies.{get_shadow_lem, patch_desired_lem}

module _ (C : Codec) (db : Db C.Text) where
  row_shadow-is_some :
      (s : DeviceShadow C.Text) → ReadsShadow C s → is_some (row_shadow C (some s)) ≡ true
  row_shadow-is_some s r = ground (arith, r.0, r.1)

  -- every shadow of a readable file is two dicts
  pub shadow_of-is_some : (k : String) → IsReadable C db → is_some (shadow_of C k db) ≡ true
  shadow_of-is_some k r = elim (Option-cases (find_shadow k db)) [
    | inl n ↦ rw n refl
    | inr (s, n) ↦ rw n (
        row_shadow-is_some s (All-find shadow_key (ReadsShadow C) k db.device_shadow s r.shadows n))
  ]

  pub get_shadow-is_handled :
      (k : String) → IsReadable C db → is_handled (get_shadow C k db).0 ≡ true
  unfolding get_shadow get_rows ◌>>=◌
  get_shadow-is_handled k r = elim (Option-cases (shadow_of C k db)) [
    | inl n ↦ absurd (ground (arith, n, shadow_of-is_some k r))
    | inr (both, n) ↦ elim (Bool-cases (is_some (find_device k db))) [
      | inl known ↦ rw (get_shadow_lem C k both.0 both.1 db known n) refl
      | inr unknown ↦ ground (arith, unknown)
    ]
  ]

  pub patch_desired-is_handled :
      (takes : Message C.Text → Bool) (now : ℕ) (k : String) (delta : Object)
      → IsReadable C db
      → is_handled (patch_desired C takes now k delta db).0 ≡ true
  unfolding patch_desired patch_rows ◌>>=◌
  patch_desired-is_handled takes now k delta r = elim (Option-cases (shadow_of C k db)) [
    | inl n ↦ absurd (ground (arith, n, shadow_of-is_some k r))
    | inr (both, n) ↦ elim (Bool-cases (is_some (find_device k db))) [
      | inl known ↦ rw ((patch_desired_lem C takes now k delta both.0 both.1 db known n).0) refl
      | inr unknown ↦ ground (arith, unknown)
    ]
  ]
