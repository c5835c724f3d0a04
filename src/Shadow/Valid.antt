-- ===== src/Shadow/Valid.antt =====
-- The shadow endpoints keep the database valid.
use embediq_cloud.Prelude.{ℕ, ◌≡◌, refl, String, Bool, arith, some, none, Option}
use embediq_cloud.Json.{Value, obj, object, Object, Codec}
use embediq_cloud.Db.{Db, DeviceShadow}
use embediq_cloud.Db.Connection.{upsert_shadow}
use embediq_cloud.Db.Connection.Keeps.{Keeps, keeps_rules, Keeps-with_connection}
use embediq_cloud.Db.Invariant.{IsValid}
use embediq_cloud.Db.Invariant.Rows.{update_shadow-IsValid, add_shadow-IsValid}
use embediq_cloud.Mqtt.{Message}
use embediq_cloud.Shadow.{
  load_row, load_shadow, as_dict, patch_rows, patch_desired, new_shadow, empty_document,
}

module _ {T : Type 0} where
  -- an upsert of the row of a device
  pub upsert_shadow-Keeps :
      (s : DeviceShadow T) (f : DeviceShadow T → DeviceShadow T)
      → ((x : DeviceShadow T) → (f x).device_id ≡ x.device_id)
      → Keeps IsValid (upsert_shadow s f)
  unfolding upsert_shadow
  upsert_shadow-Keeps s f keeps = record {
    at = λ c h w.
        ground (
          arith,
          update_shadow-IsValid c.work w s.device_id f keeps,
          add_shadow-IsValid c.work w s,
        );
  }

module _ (C : Codec) (P : Db C.Text → Type 0) where
  load_row-Keeps : (o : Option (DeviceShadow C.Text)) → Keeps P (load_row C o)
  unfolding load_row
  load_row-Keeps none = search keeps_rules
  load_row-Keeps (some s) = search keeps_rules depth 8

  load_shadow-Keeps : (k : String) → Keeps P (load_shadow C k)
  unfolding load_shadow
  load_shadow-Keeps k = search (keeps_rules, load_row-Keeps)

  as_dict-Keeps : (v : Value) → Keeps P (as_dict C v)
  as_dict-Keeps (obj fs) = search keeps_rules
  as_dict-Keeps _ = search keeps_rules

  -- what every write of the desired document keeps, the endpoint keeps
  pub patch_desired-Keeps :
      (takes : Message C.Text → Bool) (now : ℕ) (k : String) (delta : Object) (db : Db C.Text)
      → ((d : Object)
          → Keeps P (
              upsert_shadow
                (new_shadow C k (C.dumps (object d)) (empty_document C) now)
                (λ row. record row { desired = C.dumps (object d); updated_at = now })))
      → P db
      → P (patch_desired C takes now k delta db).1
  unfolding patch_desired patch_rows
  patch_desired-Keeps takes now k delta db write =
      Keeps-with_connection {P = P} (patch_rows C now k delta) db
        (search (keeps_rules, load_shadow-Keeps, as_dict-Keeps, write) depth 16)

module _ (C : Codec) where
  -- PATCH of a desired shadow leaves a valid database valid, whatever its answer and whether or not the
  -- MQTT client takes the message.
  pub patch_desired-IsValid :
      (takes : Message C.Text → Bool) (now : ℕ) (k : String) (delta : Object) (db : Db C.Text)
      → IsValid db
      → IsValid (patch_desired C takes now k delta db).1
  patch_desired-IsValid takes now k delta db =
      patch_desired-Keeps C IsValid takes now k delta db (λ d.
        upsert_shadow-Keeps (new_shadow C k (C.dumps (object d)) (empty_document C) now) _
          (λ x. refl))
