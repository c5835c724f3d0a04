-- ===== src/Registry/Devices/Threads/Race.antt =====
-- Two requests that register the same id at the same time.
use embediq_cloud.Prelude.{
  ℕ, ◌≡◌, refl, subst, String, eq_refl, true, false, arith, is_some, Option, [], ◌∷◌,
}
use embediq_cloud.Prelude.Table.{find-append}
use embediq_cloud.Outcome.{returned, raised, integrity_error}
use embediq_cloud.Json.{Codec}
use embediq_cloud.Password.{Bcrypt}
use embediq_cloud.Db.{Db, device_key, find_device}
use embediq_cloud.Db.Connection.{with_connection, ◌>>=◌}
use embediq_cloud.Db.Invariant.{IsValid}
use embediq_cloud.Db.Threads.{Thread, returns, writes, advance, Shared, Interleaved}
use embediq_cloud.Db.Threads.Schedule.{play, play-Interleaved}
use embediq_cloud.Registry.Devices.{
  DeviceCreate, optional_hash, post_device, create_device, new_device,
}
use embediq_cloud.Registry.Devices.Threads.{insert_rows, post_thread}

module _ (C : Codec) (B : Bcrypt) (now : ℕ) (salt : String) where
  -- what is left of a request after its SELECT
  abbrev left_of : DeviceCreate → Db C.Text → Thread C.Text
  left_of body db = (advance (post_thread C B now salt body) db).0

  left_of-writes :
      (body : DeviceCreate) (p : Option String) (db : Db C.Text)
      → is_some (find_device body.id db) ≡ false
      → optional_hash C B salt body.password ≡ returned p
      → left_of body db
        ≡ writes (with_connection (insert_rows C B now salt body p)) (λ r. returns r)
  left_of-writes body p db new e = ground (arith, new, e)

  insert_rows-eq-post_device :
      (body : DeviceCreate) (p : Option String) (db : Db C.Text)
      → is_some (find_device body.id db) ≡ false
      → optional_hash C B salt body.password ≡ returned p
      → with_connection (insert_rows C B now salt body p) db ≡ post_device C B now salt body db
  unfolding post_device create_device ◌>>=◌
  insert_rows-eq-post_device body p db new e = ground (arith, new, e)

  insert_rows-refused :
      (body : DeviceCreate) (q : Option String) (db : Db C.Text)
      → is_some (find_device body.id db) ≡ true
      → with_connection (insert_rows C B now salt body q) db ≡ (raised integrity_error, db)
  unfolding ◌>>=◌
  insert_rows-refused body q db known = ground (arith, known)

  post_device-known :
      (body : DeviceCreate) (p : Option String) (db : Db C.Text)
      → IsValid db
      → is_some (find_device body.id db) ≡ false
      → optional_hash C B salt body.password ≡ returned p
      → is_some (find_device body.id (post_device C B now salt body db).1) ≡ true
  unfolding post_device create_device ◌>>=◌
  post_device-known body p db valid new e = ground (
    arith,
    new,
    e,
    valid.states body.id,
    find-append device_key body.id db.devices (new_device C B now body p),
    eq_refl body.id,
  )

module _ (C : Codec) (B : Bcrypt) (now : ℕ) (salt : String) (first second : DeviceCreate)
    (db : Db C.Text) where
  -- both requests, before their first action
  abbrev pub both : Shared C.Text
  both = record {
    db = db;
    sent = [];
    threads = post_thread C B now salt first ∷ post_thread C B now salt second ∷ [];
  }

  -- Two requests register the same new id, with passwords that bcrypt takes: they may interleave so
  -- that the first is answered as alone, and the second not by the status 409 but by an
  -- IntegrityError that no handler takes; the file is as the first alone leaves it.
  pub racing_posts :
      (p q : Option String)
      → IsValid db
      → first.id ≡ second.id
      → is_some (find_device first.id db) ≡ false
      → optional_hash C B salt first.password ≡ returned p
      → optional_hash C B salt second.password ≡ returned q
      → (t : Shared C.Text) × Interleaved (λ x. Unit) both t
        × (t.threads
            ≡ returns (post_device C B now salt first db).0 ∷ returns (raised integrity_error) ∷ [])
        × (t.db ≡ (post_device C B now salt first db).1)
  racing_posts p q valid same new e f =
      let a = left_of-writes C B now salt first p db new e in
      let b = left_of-writes C B now salt second q db (ground (arith, same, new)) f in
      let c = insert_rows-eq-post_device C B now salt first p db new e in
      let d = insert_rows-refused C B now salt second q (post_device C B now salt first db).1 (
        subst (λ x. is_some (find_device x (post_device C B now salt first db).1) ≡ true) same
          (post_device-known C B now salt first p db valid new e)) in
      (
        play (0 ∷ 1 ∷ 0 ∷ 1 ∷ []) both,
        play-Interleaved (0 ∷ 1 ∷ 0 ∷ 1 ∷ []) both,
        rw a (rw b (rw c (rw d refl))),
        rw a (rw b (rw c (rw d refl))),
      )
