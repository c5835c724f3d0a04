-- ===== src/Bridge/Reported.antt =====
-- What a message on state/reported does to the shadow of its device.
use embediq_cloud.Prelude.{
  ℕ, ◌≡◌, refl, inl, inr, String, eq_refl, true, some, Option-cases, [], ◌∷◌, arith, is_some,
}
use embediq_cloud.Prelude.Table.{find-append, find-update}
use embediq_cloud.Outcome.{returned}
use embediq_cloud.Json.{Object, object, update, Codec}
use embediq_cloud.Json.Equality.{IsJson}
use embediq_cloud.Db.{Db, DeviceShadow, shadow_key, find_device, find_shadow}
use embediq_cloud.Db.Connection.{with_connection, ◌>>=◌}
use embediq_cloud.Envelope.{ok}
use embediq_cloud.Shadow.{compute_delta, get_shadow}
use embediq_cloud.Shadow.Delta.{compute_delta-update_self}
use embediq_cloud.Json.Dict.{dict_of-dumps}
use embediq_cloud.Fleet.{shadow_of}
use embediq_cloud.Shadow.Replies.{get_shadow_lem}
use embediq_cloud.Bridge.{World, reported_rows, reported_row, handle_reported}

module _ (C : Codec) (now : ℕ) (k : String) (payload : Object) where
  reported_rows_lem :
      (d r : Object) (db : Db C.Text)
      → is_some (find_device k db) ≡ true
      → shadow_of C k db ≡ some (d, r)
      → let (reply, db') = with_connection (reported_rows C now k payload) db in
        (reply ≡ returned tt) × (shadow_of C k db' ≡ some (d, payload)) × (db'.devices ≡ db.devices)
  unfolding reported_rows ◌>>=◌
  reported_rows_lem d r db known e =
      let write : DeviceShadow C.Text → DeviceShadow C.Text =
        λ row. record row { reported = C.dumps (object payload); updated_at = now } in
      elim (Option-cases (find_shadow k db)) [
        | inl f ↦ ground (
          arith,
          find-append shadow_key k db.device_shadow (reported_row C now k payload),
          eq_refl k,
          dict_of-dumps C payload,
          dict_of-dumps C [],
        )
        | inr (row, f) ↦ ground (
          arith,
          find-update shadow_key write (λ x. refl) k k db.device_shadow,
          eq_refl k,
          dict_of-dumps C payload,
        )
      ]

  -- A state/reported message of a registered device with a readable shadow is handled: it replaces
  -- the reported dict by the whole payload, keeps the desired dict, and registers nobody.
  pub handle_reported_lem :
      (d r : Object) (w : World C.Text)
      → is_some (find_device k w.db) ≡ true
      → shadow_of C k w.db ≡ some (d, r)
      → let (reply, w') = handle_reported C now k payload w in
        (reply ≡ returned tt)
        × (shadow_of C k w'.db ≡ some (d, payload))
        × ((w'.db).devices ≡ (w.db).devices)
  unfolding handle_reported
  handle_reported_lem d r w known e =
      let (a, b, c) = reported_rows_lem d r w.db known e in (rw a refl, b, c)

-- A registered device whose shadow holds the dicts `d`, with distinct keys at every depth, and `r`
-- reports `r` updated by the delta that GET shows: after this message GET shows an empty delta.
pub get_shadow-handle_reported :
    (C : Codec) (now : ℕ) (k : String) (d r : Object) (w : World C.Text)
    → is_some (find_device k w.db) ≡ true
    → shadow_of C k w.db ≡ some (d, r)
    → IsJson (object d)
    → let report = update r (compute_delta d r) in
      (get_shadow C k ((handle_reported C now k report w).1).db).0
      ≡ returned (
          ok (
            object
              (("desired", object d) ∷ ("reported", object report) ∷ ("delta", object []) ∷ [])))
get_shadow-handle_reported C now k d r w known e json =
    let report = update r (compute_delta d r) in
    let (a, b, c) = handle_reported_lem C now k report d r w known e in
    let seen =
      get_shadow_lem C k d report ((handle_reported C now k report w).1).db
        (ground (arith, known, c)) b in
    ground (arith, seen, compute_delta-update_self d r json)
