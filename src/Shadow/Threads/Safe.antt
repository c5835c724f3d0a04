-- ===== src/Shadow/Threads/Safe.antt =====
-- The threads of the shadow endpoints keep the file good, whatever other threads do between their
-- statements.
use embediq_cloud.Prelude.{
  ℕ, ◌≡◌, refl, String, Bool, true, arith, some, Option-cases, inl, inr, [],
}
use embediq_cloud.Prelude.Table.{All-find}
use embediq_cloud.Outcome.{Outcome, returned, raised, is_handled}
use embediq_cloud.Json.{Codec, Value, Object, object}
use embediq_cloud.Db.{Db, DeviceShadow, shadow_key, find_shadow}
use embediq_cloud.Db.Connection.{Tx, with_connection, upsert_shadow, ◌>>=◌}
use embediq_cloud.Db.Connection.Keeps.{Keeps, keeps_rules, Keeps-with_connection}
use embediq_cloud.Db.Invariant.{IsValid}
use embediq_cloud.Db.Readable.{IsReadable, ReadsShadow}
use embediq_cloud.Db.Threads.Safe.{
  IsGood, is_expected, IsSafeThread, Safe-returns, Safe-reads, Safe-writes, Safe-sends, Safe-if,
}
use embediq_cloud.Mqtt.{Message}
use embediq_cloud.Shadow.{new_shadow, empty_document, shadow_reply}
use embediq_cloud.Shadow.Valid
use embediq_cloud.Shadow.Readable
use embediq_cloud.Shadow.Threads.{
  loaded, desired_of, dicts_of, get_thread, write_row, after_write, merged_thread, patch_thread,
}

module _ (C : Codec) where
  row-dicts :
      (s : DeviceShadow C.Text)
      → ReadsShadow C s
      → is_handled (dicts_of C (loaded C (some s))) ≡ true
  row-dicts s r = elim (Option-cases (C.loads s.desired)) [
    | inl n ↦ ground (arith, n, r.0)
    | inr (d, n) ↦ elim (Option-cases (C.loads s.reported)) [
      | inl m ↦ ground (arith, n, m, r.1)
      | inr (e, m) ↦ ground (arith, n, m, r.0, r.1)
    ]
  ]

  -- the shadow that a good file gives is two dicts
  dicts-is_handled :
      (k : String) (db : Db C.Text)
      → IsReadable C db
      → is_handled (dicts_of C (loaded C (find_shadow k db))) ≡ true
  dicts-is_handled k db r = elim (Option-cases (find_shadow k db)) [
    | inl n ↦ rw n refl
    | inr (s, n) ↦
        rw n (row-dicts s (All-find shadow_key (ReadsShadow C) k db.device_shadow s r.shadows n))
  ]

  shadow_reply-IsExpected :
      (r : Outcome (Object × Object)) → is_handled r ≡ true → is_expected (shadow_reply C r) ≡ true
  shadow_reply-IsExpected r h = ground (arith, h)

  pub get_thread-IsSafe : (k : String) → IsSafeThread C (get_thread C k)
  get_thread-IsSafe k = Safe-reads C _ (λ db h.
      Safe-if C _ _ _
        (Safe-reads C _
          (λ db1 h1. Safe-returns C _ (shadow_reply-IsExpected _ (dicts-is_handled k db1 h1.1))))
        (Safe-returns C _ refl))

module _ (C : Codec) (takes : Message C.Text → Bool) (now : ℕ) (k : String) (delta : Object) where
  abbrev write_desired : Object → Tx C.Text (Unit {0})
  write_desired d =
      upsert_shadow (new_shadow C k (C.dumps (object d)) (empty_document C) now)
        (λ row. record row { desired = C.dumps (object d); updated_at = now })

  write_desired-IsValid : (d : Object) → Keeps IsValid (write_desired d)
  write_desired-IsValid d =
      Valid.upsert_shadow-Keeps (new_shadow C k (C.dumps (object d)) (empty_document C) now) _
        (λ x. refl)

  write_desired-IsReadable : (d : Object) → Keeps (IsReadable C) (write_desired d)
  write_desired-IsReadable d =
      Readable.upsert_shadow-Keeps C (new_shadow C k (C.dumps (object d)) (empty_document C) now) _
        (Readable.dict-is_some C d, Readable.dict-is_some C [])
        (λ x r. (Readable.dict-is_some C d, r.1))

  write_row-IsGood :
      (d : Object) (db : Db C.Text)
      → IsGood C db
      → IsGood C (with_connection (write_row C now k d) db).1
  write_row-IsGood d db h = (
    Keeps-with_connection {P = IsValid} (write_row C now k d) db
        (search (keeps_rules, write_desired-IsValid) depth 8) h.0,
    Keeps-with_connection {P = IsReadable C} (write_row C now k d) db
        (search (keeps_rules, write_desired-IsReadable) depth 8) h.1,
  )

  write_row-IsExpected :
      (d : Object) (db : Db C.Text)
      → is_expected (with_connection (write_row C now k d) db).0 ≡ true
  unfolding upsert_shadow ◌>>=◌
  write_row-IsExpected d db = ground arith

  after_write-IsSafe :
      (d : Object) (r : Outcome Value)
      → is_expected r ≡ true
      → IsSafeThread C (after_write C takes now k delta d r)
  after_write-IsSafe d (returned v) e = Safe-sends C _ _ (Safe-returns C _ refl)
  after_write-IsSafe d (raised x) e = Safe-returns C _ e

  merged_thread-IsSafe :
      (r : Outcome Object)
      → is_handled r ≡ true
      → IsSafeThread C (merged_thread C takes now k delta r)
  merged_thread-IsSafe (returned d) e =
      Safe-writes C _ _ (write_row-IsGood _)
        (λ db h. after_write-IsSafe _ _ (write_row-IsExpected _ db))
  merged_thread-IsSafe (raised x) e = Safe-returns C _ (ground (arith, e))

  pub patch_thread-IsSafe : IsSafeThread C (patch_thread C takes now k delta)
  patch_thread-IsSafe = Safe-reads C _ (λ db h.
      Safe-if C _ _ _
        (Safe-reads C _ (λ db1 h1.
          merged_thread-IsSafe (desired_of C (loaded C (find_shadow k db1)))
            (ground (arith, dicts-is_handled C k db1 h1.1))))
        (Safe-returns C _ refl))
