-- ===== src/Shadow/Threads.antt =====
-- The shadow endpoints as threads.
pub mod Safe
pub mod Lost
use embediq_cloud.Prelude.{
  ℕ, ◌≡◌, refl, String, Bool, Bool-cases, true, false, not, inl, inr, arith, is_some, Option, some,
  none, Option-cases, List, [], ◌∷◌, if◌then◌else◌,
}
use embediq_cloud.Outcome.{
  Error, attribute_error, value_error, Outcome, returned, raised, Outcome-cases,
}
use embediq_cloud.Json.{Value, obj, fields, null, object, Object, Codec, update}
use embediq_cloud.Envelope.{ok}
use embediq_cloud.Mqtt.{Message, publish, publish_retained}
use embediq_cloud.Db.{Db, DeviceShadow, find_device, find_shadow}
use embediq_cloud.Db.Connection.{
  Conn, raise, select, Tx, pure, with_connection, commit, upsert_shadow, ◌>>=◌, ◌>>◌,
}
use embediq_cloud.Db.Threads.{Thread, returns, reads, writes, sends, run_alone}
use embediq_cloud.Registry.Devices.{not_found}
use embediq_cloud.Shadow.{
  patched_reply, load_shadow, load_row, as_dict, new_shadow, empty_document, desired_topic,
  patch_rows, patch_desired, get_shadow, get_rows, shadow_reply,
}

module _ (C : Codec) where
  abbrev pub dict_of_value : Value → Outcome Object
  dict_of_value (obj fs) = returned (fields fs)
  dict_of_value _ = raised attribute_error

  -- `json.loads` of both columns
  abbrev loaded_both : Option Value → Option Value → Outcome (Value × Value)
  loaded_both (some desired) (some reported) = returned (desired, reported)
  loaded_both _ _ = raised value_error

  -- the two values of the row that a SELECT finds
  abbrev pub loaded : Option (DeviceShadow C.Text) → Outcome (Value × Value)
  loaded none = returned (object [], object [])
  loaded (some row) = loaded_both (C.loads row.desired) (C.loads row.reported)

  abbrev pub desired_of : Outcome (Value × Value) → Outcome Object
  desired_of (returned both) = dict_of_value both.0
  desired_of (raised e) = raised e

  abbrev pub dict_pair : Outcome Object → Outcome Object → Outcome (Object × Object)
  dict_pair (returned d) (returned r) = returned (d, r)
  dict_pair (returned d) (raised e) = raised e
  dict_pair (raised e) _ = raised e

  abbrev pub dicts_of : Outcome (Value × Value) → Outcome (Object × Object)
  dicts_of (returned both) = dict_pair (dict_of_value both.0) (dict_of_value both.1)
  dicts_of (raised e) = raised e

  load_row-eq-loaded :
      (o : Option (DeviceShadow C.Text)) (c : Conn C.Text) → load_row C o c ≡ (loaded o, c)
  unfolding load_row ◌>>=◌
  load_row-eq-loaded none c = refl
  load_row-eq-loaded (some row) c = elim (Option-cases (C.loads row.desired)) [
    | inl n ↦ ground (arith, n)
    | inr (d, n) ↦ elim (Option-cases (C.loads row.reported)) [
      | inl m ↦ ground (arith, n, m)
      | inr (r, m) ↦ ground (arith, n, m)
    ]
  ]

  as_dict-eq-dict_of_value : (v : Value) (c : Conn C.Text) → as_dict C v c ≡ (dict_of_value v, c)
  unfolding pure raise
  as_dict-eq-dict_of_value v c = ground arith

  -- the two SELECTs of a shadow leave the connection as it is
  load_shadow-eq-loaded :
      (k : String) (c : Conn C.Text) → load_shadow C k c ≡ (loaded (find_shadow k c.work), c)
  unfolding load_shadow ◌>>=◌
  load_shadow-eq-loaded k c = load_row-eq-loaded (find_shadow k c.work) c

module _ (C : Codec) (k : String) where
  -- two SELECTs
  abbrev pub get_thread : Thread C.Text
  get_thread = reads (λ db.
      if is_some (find_device k db)
      then reads (λ db1. returns (shadow_reply C (dicts_of C (loaded C (find_shadow k db1)))))
      else returns (raised not_found))

  pub run_alone-get_thread :
      (db : Db C.Text) → let (r, db') = get_shadow C k db in run_alone get_thread db ≡ (r, db', [])
  unfolding get_shadow get_rows ◌>>=◌
  run_alone-get_thread db =
      let c : Conn C.Text = record { committed = db; work = db } in
      let two = load_shadow-eq-loaded C k c in
      elim (Bool-cases (is_some (find_device k db))) [
        | inl u ↦ elim (Outcome-cases (loaded C (find_shadow k db))) [
          | inl (both, n) ↦ elim (Outcome-cases (dict_of_value C both.0)) [
            | inl (d, m) ↦ elim (Outcome-cases (dict_of_value C both.1)) [
              | inl (e, p) ↦ ground (
                arith,
                u,
                n,
                m,
                p,
                two,
                as_dict-eq-dict_of_value C both.0 c,
                as_dict-eq-dict_of_value C both.1 c,
              )
              | inr (x, p) ↦ ground (
                arith,
                u,
                n,
                m,
                p,
                two,
                as_dict-eq-dict_of_value C both.0 c,
                as_dict-eq-dict_of_value C both.1 c,
              )
            ]
            | inr (x, m) ↦ ground (arith, u, n, m, two, as_dict-eq-dict_of_value C both.0 c)
          ]
          | inr (x, n) ↦ ground (arith, u, n, two)
        ]
        | inr u ↦ ground (arith, u)
      ]

module _ (C : Codec) (now : ℕ) (k : String) where
  -- from the INSERT to the commit
  abbrev pub write_row : Object → Tx C.Text Value
  write_row merged = do
    upsert_shadow (new_shadow C k (C.dumps (object merged)) (empty_document C) now)
        (λ row. record row { desired = C.dumps (object merged); updated_at = now })
    commit
    pure null

module _ (C : Codec) (takes : Message C.Text → Bool) (now : ℕ) (k : String) (delta : Object) where
  abbrev pub after_write : Object → Outcome Value → Thread C.Text
  after_write merged (raised e) = returns (raised e)
  after_write merged (returned _) =
      sends (publish_retained C takes (desired_topic k) merged)
        (returns (returned (ok (object (("desired", object merged) ∷ [])))))

  abbrev pub merged_thread : Outcome Object → Thread C.Text
  merged_thread (raised e) = returns (raised e)
  merged_thread (returned desired) =
      let merged = update desired delta in
      writes (with_connection (write_row C now k merged)) (after_write merged)

  -- two SELECTs, the INSERT, and the message
  abbrev pub patch_thread : Thread C.Text
  patch_thread = reads (λ db.
      if is_some (find_device k db)
      then reads (λ db1. merged_thread (desired_of C (loaded C (find_shadow k db1))))
      else returns (raised not_found))

  -- the end of the transaction of `patch_desired`
  abbrev write_merged : Object → Tx C.Text Object
  write_merged merged = do
    upsert_shadow (new_shadow C k (C.dumps (object merged)) (empty_document C) now)
        (λ row. record row { desired = C.dumps (object merged); updated_at = now })
    commit
    pure merged

  run_alone-merged_thread :
      (d : Object) (db : Db C.Text)
      → let (r, db') = with_connection (write_merged (update d delta)) db in
        let (reply, sent) = patched_reply C takes k r in
        run_alone (merged_thread (returned d)) db ≡ (reply, db', sent)
  unfolding ◌>>=◌ upsert_shadow publish publish_retained
  run_alone-merged_thread d db = ground arith

  pub run_alone-patch_thread :
      (db : Db C.Text) → run_alone patch_thread db ≡ patch_desired C takes now k delta db
  unfolding patch_desired patch_rows ◌>>=◌
  run_alone-patch_thread db =
      let c : Conn C.Text = record { committed = db; work = db } in
      let two = load_shadow-eq-loaded C k c in
      elim (Bool-cases (is_some (find_device k db))) [
        | inl u ↦ elim (Outcome-cases (loaded C (find_shadow k db))) [
          | inl (both, n) ↦ elim (Outcome-cases (dict_of_value C both.0)) [
            | inl (d, m) ↦ ground (
              arith,
              u,
              n,
              m,
              two,
              as_dict-eq-dict_of_value C both.0 c,
              run_alone-merged_thread d db,
            )
            | inr (x, m) ↦ ground (arith, u, n, m, two, as_dict-eq-dict_of_value C both.0 c)
          ]
          | inr (x, n) ↦ ground (arith, u, n, two)
        ]
        | inr u ↦ ground (arith, u)
      ]
