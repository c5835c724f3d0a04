-- ===== src/Registry/Devices/Threads.antt =====
-- The device endpoints as threads.
pub mod Safe
pub mod Race
use embediq_cloud.Prelude.{
  ℕ, ◌≡◌, refl, String, Bool, Bool-cases, true, false, not, inl, inr, arith, is_some, Option, some,
  none, Option-cases, [], ◌∷◌, if◌then◌else◌,
}
use embediq_cloud.Outcome.{
  Error, value_error, Outcome, returned, raised, http_exception, Outcome-cases,
}
use embediq_cloud.Json.{Value, str, object, Codec}
use embediq_cloud.Envelope.{ok}
use embediq_cloud.Password.{Bcrypt, hash_password}
use embediq_cloud.Db.{Db, Device, find_device, find_state, find_shadow}
use embediq_cloud.Db.Connection.{
  Tx, pure, with_connection, commit, insert_device, insert_state, ◌>>=◌, ◌>>◌,
}
use embediq_cloud.Db.Threads.{Thread, returns, reads, writes, run_alone}
use embediq_cloud.Registry.Devices.{
  DeviceCreate, DevicePatch, not_found, optional_hash, new_device, new_state, create_device,
  post_device, set_group, set_attributes, patch_rows, patch_device, delete_device, get_device,
  list_devices,
}
use embediq_cloud.Registry.Devices.Replies.{page, get_device-eq-page}

-- the answer of an endpoint that names the id
abbrev pub named : String → Value
named k = ok (object (("id", str k) ∷ []))

module _ (C : Codec) (B : Bcrypt) (now : ℕ) (salt : String) (body : DeviceCreate) where
  pub optional_hash-raised :
      (x : Error) → optional_hash C B salt body.password ≡ raised x → x ≡ value_error
  unfolding optional_hash hash_password
  optional_hash-raised x e = elim (Option-cases body.password) [
    | inl n ↦ ground (arith, e, n)
    | inr (password, n) ↦ elim (Option-cases (B.hashpw password salt)) [
      | inl f ↦ ground (arith, e, n, f)
      | inr (hash, f) ↦ ground (arith, e, n, f)
    ]
  ]

  -- from the first INSERT to the commit
  abbrev pub insert_rows : Option String → Tx C.Text Value
  insert_rows password_hash = do
    insert_device (new_device C B now body password_hash)
    insert_state (new_state body.id)
    commit
    pure (named body.id)

  abbrev pub hashed_post : Outcome (Option String) → Thread C.Text
  hashed_post (raised e) = returns (raised e)
  hashed_post (returned password_hash) =
      writes (with_connection (insert_rows password_hash)) (λ r. returns r)

  -- the SELECT, and the INSERTs where it found nothing
  abbrev pub post_thread : Thread C.Text
  post_thread = reads (λ db.
      if is_some (find_device body.id db)
      then returns (raised (http_exception 409 "device id already exists"))
      else hashed_post (optional_hash C B salt body.password))

  pub run_alone-post_thread :
      (db : Db C.Text)
      → let (r, db') = post_device C B now salt body db in run_alone post_thread db ≡ (r, db', [])
  unfolding post_device create_device ◌>>=◌
  run_alone-post_thread db = elim (Outcome-cases (optional_hash C B salt body.password)) [
    | inl (p, e) ↦ ground (arith, e)
    | inr (x, e) ↦ ground (arith, e, optional_hash-raised x e)
  ]

module _ (C : Codec) (k : String) where
  -- from the first UPDATE to the commit
  abbrev pub update_rows : DevicePatch → Tx C.Text Value
  update_rows body = do
    set_group C k body.group_id
    set_attributes C k body.attributes
    commit
    pure (named k)

  abbrev pub patch_thread : DevicePatch → Thread C.Text
  patch_thread body = reads (λ db.
      if is_some (find_device k db)
      then writes (with_connection (update_rows body)) (λ r. returns r)
      else returns (raised not_found))

  pub run_alone-patch_thread :
      (body : DevicePatch) (db : Db C.Text)
      → let (r, db') = patch_device C k body db in run_alone (patch_thread body) db ≡ (r, db', [])
  unfolding patch_device patch_rows ◌>>=◌
  run_alone-patch_thread body db = ground arith

  -- the DELETE is the first statement
  abbrev pub delete_thread : Thread C.Text
  delete_thread = writes (delete_device C k) (λ r. returns r)

  -- three SELECTs
  abbrev pub found_thread : Option (Device C.Text) → Thread C.Text
  found_thread none = returns (raised not_found)
  found_thread (some d) = reads (λ db1.
      let state = find_state k db1 in
      reads (λ db2. returns (page C (some d) state (find_shadow k db2))))

  abbrev pub get_thread : Thread C.Text
  get_thread = reads (λ db. found_thread (find_device k db))

  pub run_alone-get_thread :
      (db : Db C.Text) → let (r, db') = get_device C k db in run_alone get_thread db ≡ (r, db', [])
  run_alone-get_thread db = elim (Option-cases (find_device k db)) [
    | inl n ↦ ground (arith, n, get_device-eq-page C k db)
    | inr (d, n) ↦ ground (arith, n, get_device-eq-page C k db)
  ]

module _ (C : Codec) where
  -- one SELECT
  abbrev pub list_thread : Thread C.Text
  list_thread = reads (λ db. returns (list_devices C db).0)

  pub run_alone-list_thread :
      (db : Db C.Text) → let (r, db') = list_devices C db in run_alone list_thread db ≡ (r, db', [])
  unfolding list_devices ◌>>=◌
  run_alone-list_thread db = refl
