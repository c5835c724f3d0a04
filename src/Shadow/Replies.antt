-- ===== src/Shadow/Replies.antt =====
-- What a client and a device see of the shadow endpoints.
use embediq_cloud.Outcome.{Outcome-cases}
use embediq_cloud.Mqtt.{publish}
use embediq_cloud.Prelude.{
  List, ℕ, ◌≡◌, ◌≢◌, refl, String, eq_iff, eq_refl, Bool, true, arith, is_some, some, Option-cases,
  or_else, ◌+++◌, if◌then◌else◌, inl, inr, [], ◌∷◌,
}
use embediq_cloud.Prelude.Table.{find-append, find-update}
use embediq_cloud.Outcome.{returned}
use embediq_cloud.Json.{null, Object, object, lookup, update, Codec}
use embediq_cloud.Json.Dict.{dict_of-dumps, last, lookup-update}
use embediq_cloud.Db.{Db, DeviceShadow, shadow_key, find_device, find_shadow}
use embediq_cloud.Db.Connection.{with_connection, ◌>>=◌, upsert_shadow}
use embediq_cloud.Envelope.{ok}
use embediq_cloud.Mqtt.{Message, publish_retained}
use embediq_cloud.Fleet.{shadow_of}
use embediq_cloud.Shadow.Valid.{patch_desired-Keeps}
use embediq_cloud.Shadow.{
  compute_delta, load_row, load_shadow, get_rows, get_shadow, patch_rows, patch_desired, new_shadow,
  empty_document, desired_topic,
}

module _ (C : Codec) where
  -- GET of a registered device's shadow gives its two dicts and their delta.
  pub get_shadow_lem :
      (k : String) (d r : Object) (db : Db C.Text)
      → is_some (find_device k db) ≡ true
      → shadow_of C k db ≡ some (d, r)
      → (get_shadow C k db).0
        ≡ returned (
            ok (
              object (
                ("desired", object d)
                ∷ ("reported", object r)
                ∷ ("delta", object (compute_delta d r))
                ∷ [])))
  unfolding get_shadow get_rows load_shadow load_row ◌>>=◌
  get_shadow_lem k d r db known e = elim (Option-cases (find_shadow k db)) [
    | inl f ↦ ground arith
    | inr (row, f) ↦ ground arith
  ]

  pub get_shadow_reads : (k : String) (db : Db C.Text) → (get_shadow C k db).1 ≡ db
  unfolding get_shadow get_rows load_shadow load_row ◌>>=◌
  get_shadow_reads k db = elim (Option-cases (find_shadow k db)) [
    | inl f ↦ ground arith
    | inr (row, f) ↦ ground arith
  ]

module _ (C : Codec) (takes : Message C.Text → Bool) (now : ℕ) (k : String) (delta : Object) where
  -- A PATCH of a registered device whose shadow is two dicts merges the request into the desired
  -- dict key by key, answers the merged dict, keeps the reported dict, and publishes the merged
  -- dict once, where the client takes this message: retained, at QoS 1, on
  -- embediq/{device_id}/state/desired. Under each key the merged dict has the value of the
  -- request, or, where the request has none, the old one.
  pub patch_desired_lem :
      (d r : Object) (db : Db C.Text)
      → is_some (find_device k db) ≡ true
      → shadow_of C k db ≡ some (d, r)
      → let (reply, db', sent) = patch_desired C takes now k delta db in
        let message : Message C.Text = record {
          topic = "embediq/" +++ k +++ "/state/desired";
          payload = C.dumps (object (update d delta));
          qos = 1;
          retain = true;
        } in
        (reply
          ≡ returned (
              object (
                ("data", object (("desired", object (update d delta)) ∷ []))
                ∷ ("error", null)
                ∷ [])))
        × (shadow_of C k db' ≡ some (update d delta, r))
        × (sent ≡ (if takes message then message ∷ [] else []))
        × ((key : String) → lookup key (update d delta) ≡ or_else (last key delta) (lookup key d))
  unfolding patch_desired patch_rows load_shadow load_row ◌>>=◌ publish_retained publish ok
  patch_desired_lem d r db known e =
      let keys = λ (key : String). lookup-update key d delta in
      let document = C.dumps (object (update d delta)) in
      let write : DeviceShadow C.Text → DeviceShadow C.Text =
        λ row. record row { desired = document; updated_at = now } in
      elim (Option-cases (find_shadow k db)) [
        | inl f ↦ ground (
          arith,
          find-append shadow_key k db.device_shadow
              (new_shadow C k document (empty_document C) now),
          eq_refl k,
          dict_of-dumps C (update d delta),
          dict_of-dumps C [],
        )
        | inr (row, f) ↦ ground (
          arith,
          find-update shadow_key write (λ x. refl) k k db.device_shadow,
          eq_refl k,
          dict_of-dumps C (update d delta),
        )
      ]

  -- A PATCH, whatever its answer, changes the shadow row of no other device.
  pub patch_desired_others :
      (j : String) (db : Db C.Text)
      → k ≢ j
      → find_shadow j (patch_desired C takes now k delta db).1 ≡ find_shadow j db
  unfolding upsert_shadow
  patch_desired_others j db ne =
      patch_desired-Keeps C (λ x. find_shadow j x ≡ find_shadow j db) takes now k delta db
        (λ merged. record {
          at = λ c h w.
              let s : DeviceShadow C.Text =
                new_shadow C k (C.dumps (object merged)) (empty_document C) now in
              let write : DeviceShadow C.Text → DeviceShadow C.Text =
                λ row. record row { desired = C.dumps (object merged); updated_at = now } in
              ground (
                arith,
                find-append shadow_key j (c.work).device_shadow s,
                find-update shadow_key write (λ x. refl) k j (c.work).device_shadow,
                eq_iff k j,
              );
        })
        refl

-- every message is the retained state of the device `k`
abbrev pub AreDesired : {T : Type 0} → String → List (Message T) → Type 0
AreDesired k [] = Unit
AreDesired k (m ∷ ms) = (m.topic ≡ desired_topic k) × (m.retain ≡ true) × AreDesired k ms

pub patch_desired-AreDesired :
    (C : Codec) (takes : Message C.Text → Bool) (now : ℕ) (k : String) (delta : Object)
    (db : Db C.Text)
    → AreDesired k (patch_desired C takes now k delta db).2
unfolding patch_desired publish_retained publish with_connection
patch_desired-AreDesired C takes now k delta db =
    elim (Outcome-cases (with_connection (patch_rows C now k delta) db).0) [
      | inl (d, e) ↦ ground arith
      | inr (x, e) ↦ ground arith
    ]
