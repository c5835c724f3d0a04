-- ===== src/Bridge/Others.antt =====
-- A message touches the rows of its own device only.
use embediq_cloud.Prelude.{ℕ, ◌≡◌, ◌≢◌, refl, String, eq_iff, arith, some, none, Option}
use embediq_cloud.Prelude.Table.{find-append, find-update}
use embediq_cloud.Json.{Value, obj, fields, Object, Codec}
use embediq_cloud.Db.{
  Db, DeviceState, DeviceShadow, state_key, shadow_key, find_device, find_state, find_shadow,
}
use embediq_cloud.Db.Connection.{upsert_state, update_state, upsert_shadow}
use embediq_cloud.Db.Connection.Keeps.{Keeps, keeps_rules, Keeps-with_connection}
use embediq_cloud.Hawkbit.{Server}
use embediq_cloud.Bridge.{
  Ready, World, handle_metrics, handle_telemetry, handle_logs, reported_rows, handle_reported,
  installed_rows, status_rows, handle_status, handle, handle_document, merge_status,
}
use embediq_cloud.Bridge.Keeps.{db-handle_status}

-- the rows of the id `j` are those of the file `before`
abbrev pub SameRows : {T : Type 0} → String → Db T → Db T → Type 0
SameRows j before db =
    (find_device j db ≡ find_device j before)
    × (find_state j db ≡ find_state j before)
    × (find_shadow j db ≡ find_shadow j before)

module _ (C : Codec) (j k : String) (ne : k ≢ j) (before : Db C.Text) where
  upsert_state-others :
      (s : DeviceState)
      → s.device_id ≡ k
      → Keeps (SameRows j before) (upsert_state s (merge_status C s))
  unfolding upsert_state
  upsert_state-others s e = record {
    at = λ c h w. ground (
      arith,
      find-append state_key j (c.work).device_state s,
      find-update state_key (merge_status C s) (λ x. refl) s.device_id j (c.work).device_state,
      eq_iff s.device_id j,
    );
  }

  version-others :
      (v : Option String)
      → Keeps (SameRows j before) (update_state k (λ row. record row { firmware_version = v }))
  unfolding update_state
  version-others v = record {
    at = λ c h w.
        let write : DeviceState → DeviceState = λ row. record row { firmware_version = v } in
        ground
          (arith, find-update state_key write (λ x. refl) k j (c.work).device_state, eq_iff k j);
  }

  last_seen-others :
      (now : ℕ)
      → Keeps (SameRows j before) (update_state k (λ row. record row { last_seen = some now }))
  unfolding update_state
  last_seen-others now = record {
    at = λ c h w.
        let write : DeviceState → DeviceState = λ row. record row { last_seen = some now } in
        ground
          (arith, find-update state_key write (λ x. refl) k j (c.work).device_state, eq_iff k j);
  }

  upsert_shadow-others :
      (s : DeviceShadow C.Text) (document : C.Text) (now : ℕ)
      → s.device_id ≡ k
      → Keeps
          (SameRows j before)
          (upsert_shadow s (λ row. record row { reported = document; updated_at = now }))
  unfolding upsert_shadow
  upsert_shadow-others s document now e = record {
    at = λ c h w.
        let write : DeviceShadow C.Text → DeviceShadow C.Text =
          λ row. record row { reported = document; updated_at = now } in
        ground (
          arith,
          find-append shadow_key j (c.work).device_shadow s,
          find-update shadow_key write (λ x. refl) s.device_id j (c.work).device_shadow,
          eq_iff s.device_id j,
        );
  }

  pub reported_rows-others :
      (now : ℕ) (payload : Object) → Keeps (SameRows j before) (reported_rows C now k payload)
  unfolding reported_rows
  reported_rows-others now payload =
      search (keeps_rules, upsert_shadow-others, last_seen-others) depth 8

  installed_rows-others :
      (payload : Object) → Keeps (SameRows j before) (installed_rows C k payload)
  unfolding installed_rows
  installed_rows-others payload = search (keeps_rules, version-others)

  status_rows-others :
      (now : ℕ) (payload : Object) → Keeps (SameRows j before) (status_rows C now k payload)
  unfolding status_rows
  status_rows-others now payload =
      search (keeps_rules, upsert_state-others, installed_rows-others) depth 16

module _ (C : Codec) (server : Server) (ready : Ready) (now : ℕ) (j k : String) (ne : k ≢ j)
    (w : World C.Text) where
  telemetry-others : (payload : Object) → ((handle_telemetry ready k payload w).1).db ≡ w.db
  unfolding handle_telemetry handle_metrics
  telemetry-others payload = ground arith

  logs-others : (payload : Object) → ((handle_logs C ready k payload w).1).db ≡ w.db
  unfolding handle_logs
  logs-others payload = ground arith

  reported-others : (payload : Object) → SameRows j w.db ((handle_reported C now k payload w).1).db
  unfolding handle_reported
  reported-others payload =
      Keeps-with_connection {P = SameRows j w.db} (reported_rows C now k payload) w.db
        (reported_rows-others C j k ne w.db now payload) (refl, refl, refl)

  status-others :
      (payload : Object) → SameRows j w.db ((handle_status C server ready now k payload w).1).db
  status-others payload = rw (db-handle_status C server ready w now k payload) (
      Keeps-with_connection {P = SameRows j w.db} (status_rows C now k payload) w.db
        (status_rows-others C j k ne w.db now payload) (refl, refl, refl))

  handle-others :
      (channel : String) (payload : Object)
      → SameRows j w.db ((handle C server ready now k channel payload w).1).db
  unfolding handle
  handle-others channel payload = ground (
    arith,
    telemetry-others payload,
    logs-others payload,
    reported-others payload,
    status-others payload,
  )

  -- A document for the device `k` leaves the rows of every other id as they are.
  pub handle_document-others :
      (channel : String) (o : Option Value)
      → SameRows j w.db ((handle_document C server ready now k channel o w).1).db
  unfolding handle_document
  handle_document-others channel (some (obj payload)) = handle-others channel (fields payload)
  handle_document-others channel (some _) = (refl, refl, refl)
  handle_document-others channel none = (refl, refl, refl)
