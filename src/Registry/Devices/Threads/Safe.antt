-- ===== src/Registry/Devices/Threads/Safe.antt =====
-- The threads of the device endpoints keep the file good, whatever other threads do between their
-- statements.
use embediq_cloud.Prelude.{
  ℕ, ◌≡◌, refl, sym, String, true, some, none, arith, Option, Option-cases, inl, inr,
}
use embediq_cloud.Prelude.Table.{All-find}
use embediq_cloud.Outcome.{returned, raised, Outcome}
use embediq_cloud.Json.{Codec}
use embediq_cloud.Password.{Bcrypt}
use embediq_cloud.Db.{
  Db, Device, DeviceState, device_key, shadow_key, find_device, find_state, find_shadow,
}
use embediq_cloud.Db.Connection.{with_connection, ◌>>=◌}
use embediq_cloud.Db.Connection.Keeps.{keeps_rules, Keeps-with_connection}
use embediq_cloud.Db.Invariant.{IsValid}
use embediq_cloud.Db.Invariant.Rows.{add_device-IsValid}
use embediq_cloud.Db.Readable.{IsReadable, ReadsDevice, ReadsShadow}
use embediq_cloud.Db.Threads.Safe.{
  Safe-returns, Safe-reads, Safe-writes, Safe-if, IsGood, is_expected, IsSafeThread,
  is_handled-IsExpected,
}
use embediq_cloud.Registry.Devices.{
  DeviceCreate, DevicePatch, new_device, new_state, optional_hash, set_group, set_attributes,
}
use embediq_cloud.Registry.Devices.Replies.{page}
use embediq_cloud.Registry.Devices.Handled.{
  shadow_page-is_handled, delete_device-is_handled, list_devices-is_handled,
}
use embediq_cloud.Registry.Devices.Valid
use embediq_cloud.Registry.Devices.Readable
use embediq_cloud.Registry.Devices.Threads.{
  insert_rows, post_thread, update_rows, patch_thread, delete_thread, get_thread, list_thread,
  optional_hash-raised, hashed_post, found_thread,
}

module _ (C : Codec) (B : Bcrypt) (now : ℕ) (salt : String) (body : DeviceCreate) where
  insert_rows-IsGood :
      (hash : Option String) (db : Db C.Text)
      → IsGood C db
      → IsGood C (with_connection (insert_rows C B now salt body hash) db).1
  unfolding ◌>>=◌
  insert_rows-IsGood hash db h = (
    ground (
      arith,
      h.0.states body.id,
      add_device-IsValid db h.0 (new_device C B now body hash) (new_state body.id),
    ),
    ground (arith, h.1, Readable.add_device-IsReadable C B now salt body db hash h.1),
  )

  -- the INSERT is refused where the id has come since the SELECT
  insert_rows-IsExpected :
      (hash : Option String) (db : Db C.Text)
      → is_expected (with_connection (insert_rows C B now salt body hash) db).0 ≡ true
  unfolding ◌>>=◌
  insert_rows-IsExpected hash db = ground arith

  hashed_post-IsSafe :
      (r : Outcome (Option String))
      → r ≡ optional_hash C B salt body.password
      → IsSafeThread C (hashed_post C B now salt body r)
  hashed_post-IsSafe (returned hash) e =
      Safe-writes C _ _ (insert_rows-IsGood hash)
        (λ db h. Safe-returns C _ (insert_rows-IsExpected hash db))
  hashed_post-IsSafe (raised x) e =
      Safe-returns C _ (rw (optional_hash-raised C B now salt body x (sym e)) refl)

  pub post_thread-IsSafe : IsSafeThread C (post_thread C B now salt body)
  post_thread-IsSafe = Safe-reads C _ (λ db h.
      Safe-if C _ _ _ (Safe-returns C _ refl)
        (hashed_post-IsSafe (optional_hash C B salt body.password) refl))

module _ (C : Codec) (k : String) where
  update_rows-IsGood :
      (body : DevicePatch) (db : Db C.Text)
      → IsGood C db
      → IsGood C (with_connection (update_rows C k body) db).1
  update_rows-IsGood body db h = (
    Keeps-with_connection {P = IsValid} (update_rows C k body) db
        (search (keeps_rules, Valid.set_group-Keeps, Valid.set_attributes-Keeps) depth 12) h.0,
    Keeps-with_connection {P = IsReadable C} (update_rows C k body) db
        (search (keeps_rules, Readable.set_group-Keeps, Readable.set_attributes-Keeps) depth 12)
        h.1,
  )

  update_rows-IsExpected :
      (body : DevicePatch) (db : Db C.Text)
      → is_expected (with_connection (update_rows C k body) db).0 ≡ true
  unfolding set_group set_attributes ◌>>=◌
  update_rows-IsExpected body db = ground arith

  pub patch_thread-IsSafe : (body : DevicePatch) → IsSafeThread C (patch_thread C k body)
  patch_thread-IsSafe body = Safe-reads C _ (λ db h.
      Safe-if C _ _ _
        (Safe-writes C _ _ (update_rows-IsGood body)
          (λ db1 h1. Safe-returns C _ (update_rows-IsExpected body db1)))
        (Safe-returns C _ refl))

  pub delete_thread-IsSafe : IsSafeThread C (delete_thread C k)
  delete_thread-IsSafe =
      Safe-writes C _ _
        (λ db h. (
          Valid.delete_device-keeps-IsValid C k db h.0,
          Readable.delete_device-IsReadable C k db h.1,
        ))
        (λ db h. Safe-returns C _ (is_handled-IsExpected _ (delete_device-is_handled C db k)))

  page-IsExpected :
      (d : Device C.Text) (s : Option DeviceState) (db : Db C.Text)
      → ReadsDevice C d
      → IsReadable C db
      → is_expected (page C (some d) s (find_shadow k db)) ≡ true
  page-IsExpected d s db a r = elim (Option-cases (find_shadow k db)) [
    | inl w ↦ ground (arith, w, a)
    | inr (row, w) ↦
        let b =
          shadow_page-is_handled C row
            (All-find shadow_key (ReadsShadow C) k db.device_shadow row r.shadows w) in
        ground (arith, w, a, b)
  ]

  -- the rows of the state and of the shadow may be newer than the row of the device
  found_thread-IsSafe :
      (o : Option (Device C.Text))
      → ((d : Device C.Text) → o ≡ some d → ReadsDevice C d)
      → IsSafeThread C (found_thread C k o)
  found_thread-IsSafe none a = Safe-returns C _ refl
  found_thread-IsSafe (some d) a = Safe-reads C _ (λ db1 h1.
      Safe-reads C _
        (λ db2 h2. Safe-returns C _ (page-IsExpected d (find_state k db1) db2 (a d refl) h2.1)))

  pub get_thread-IsSafe : IsSafeThread C (get_thread C k)
  get_thread-IsSafe = Safe-reads C _ (λ db h.
      found_thread-IsSafe (find_device k db)
        (λ d e. All-find device_key (ReadsDevice C) k db.devices d h.1.attributes e))

pub list_thread-IsSafe : (C : Codec) → IsSafeThread C (list_thread C)
list_thread-IsSafe C =
    Safe-reads C _
      (λ db h. Safe-returns C _ (is_handled-IsExpected _ (list_devices-is_handled C db)))
