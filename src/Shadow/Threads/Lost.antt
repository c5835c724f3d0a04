-- ===== src/Shadow/Threads/Lost.antt =====
-- Two requests that patch the desired state of one device at the same time.
use embediq_cloud.Prelude.{
  ℕ, ◌≡◌, refl, subst, String, eq_refl, Bool, true, arith, is_some, Option-cases, inl, inr, some,
  List, [], ◌∷◌, ◌++◌,
}
use embediq_cloud.Prelude.Table.{find-append, find-update}
use embediq_cloud.Outcome.{returned}
use embediq_cloud.Json.{Codec, null, Object, object, update}
use embediq_cloud.Json.Dict.{dict_of-dumps}
use embediq_cloud.Db.{Db, DeviceShadow, shadow_key, find_device, find_shadow}
use embediq_cloud.Db.Connection.{with_connection, ◌>>=◌, upsert_shadow}
use embediq_cloud.Db.Threads.{Thread, returns, Shared, Interleaved}
use embediq_cloud.Db.Threads.Schedule.{play, play-Interleaved}
use embediq_cloud.Envelope.{ok}
use embediq_cloud.Fleet.{shadow_of}
use embediq_cloud.Mqtt.{Message, publish_retained}
use embediq_cloud.Shadow.{new_shadow, empty_document, desired_topic}
use embediq_cloud.Shadow.Threads.{loaded, desired_of, write_row, patch_thread}

module _ (C : Codec) (takes : Message C.Text → Bool) (now : ℕ) (k : String) where
  desired_of-eq-shadow_of :
      (d r : Object) (db : Db C.Text)
      → shadow_of C k db ≡ some (d, r)
      → desired_of C (loaded C (find_shadow k db)) ≡ returned d
  desired_of-eq-shadow_of d r db e = elim (Option-cases (find_shadow k db)) [
    | inl n ↦ ground (arith, n, e)
    | inr (row, n) ↦ elim (Option-cases (C.loads row.desired)) [
      | inl m ↦ ground (arith, n, m, e)
      | inr (a, m) ↦ elim (Option-cases (C.loads row.reported)) [
        | inl o ↦ ground (arith, n, m, o, e)
        | inr (b, o) ↦ ground (arith, n, m, o, e)
      ]
    ]
  ]

  write_row_lem :
      (merged d r : Object) (db : Db C.Text)
      → is_some (find_device k db) ≡ true
      → shadow_of C k db ≡ some (d, r)
      → let (reply, db') = with_connection (write_row C now k merged) db in
        (reply ≡ returned null)
        × (is_some (find_device k db') ≡ true)
        × (shadow_of C k db' ≡ some (merged, r))
  unfolding ◌>>=◌ upsert_shadow
  write_row_lem merged d r db known e =
      let document = C.dumps (object merged) in
      let write : DeviceShadow C.Text → DeviceShadow C.Text =
        λ row. record row { desired = document; updated_at = now } in
      elim (Option-cases (find_shadow k db)) [
        | inl f ↦ ground (
          arith,
          find-append shadow_key k db.device_shadow
              (new_shadow C k document (empty_document C) now),
          eq_refl k,
          dict_of-dumps C merged,
          dict_of-dumps C [],
        )
        | inr (row, f) ↦ ground (
          arith,
          find-update shadow_key write (λ x. refl) k k db.device_shadow,
          eq_refl k,
          dict_of-dumps C merged,
        )
      ]

  module _ (first second : Object) (db : Db C.Text) where
    -- both requests, before their first action
    abbrev pub both : Shared C.Text
    both = record {
      db = db;
      sent = [];
      threads = patch_thread C takes now k first ∷ patch_thread C takes now k second ∷ [];
    }

    abbrev success : Object → Thread C.Text
    success desired = returns (returned (ok (object (("desired", object desired) ∷ []))))

    abbrev message_of : Object → List (Message C.Text)
    message_of desired = publish_retained C takes (desired_topic k) desired

    -- Two PATCHes of the desired state of a registered device, whose shadow is two dicts, may
    -- interleave so that both succeed, the file holds the merge of the second alone, and the message
    -- of the first is published last.
    pub lost_update :
        (d r : Object)
        → is_some (find_device k db) ≡ true
        → shadow_of C k db ≡ some (d, r)
        → (t : Shared C.Text) × Interleaved (λ x. Unit) both t
          × (t.threads ≡ success (update d first) ∷ success (update d second) ∷ [])
          × (shadow_of C k t.db ≡ some (update d second, r))
          × (t.sent ≡ message_of (update d second) ++ message_of (update d first))
    lost_update d r known e =
        let order = 0 ∷ 0 ∷ 1 ∷ 1 ∷ 0 ∷ 1 ∷ 1 ∷ 0 ∷ [] in
        let c = desired_of-eq-shadow_of d r db e in
        let w = write_row_lem (update d first) d r db known e in
        let db1 = (with_connection (write_row C now k (update d first)) db).1 in
        let v = write_row_lem (update d second) (update d first) r db1 w.1 w.2 in
        let db2 = (with_connection (write_row C now k (update d second)) db1).1 in
        let t : Shared C.Text = record {
          db = db2;
          sent = message_of (update d second) ++ message_of (update d first);
          threads = success (update d first) ∷ success (update d second) ∷ [];
        } in
        let played : play order both ≡ t = rw known (rw known (rw c (rw (w.0) (rw (v.0) refl)))) in
        (
          t,
          subst (Interleaved (λ x. Unit) both) played (play-Interleaved order both),
          refl,
          v.2,
          refl,
        )
