-- ===== src/Bridge.antt =====
-- app/bridge.py: the consumer of the devices' messages. The connection to the broker and the
-- construction of the two clients are the libraries'; `ready` says whether the clients can be made.
pub mod Lifecycle
pub mod Backends
pub mod Keeps
pub mod Valid
pub mod Readable
pub mod Refines
pub mod Status
pub mod Feedback
mod Raises
pub mod Errors
pub mod Others
pub mod Topic
pub mod Reported
pub mod Acl
use embediq_cloud.Prelude.{
  ℕ, String, ◌==◌, ◌+++◌, Bool, true, false, not, ◌&&◌, ◌||◌, Option, none, some, List, [], ◌∷◌,
  ◌++◌, join, split, or_else, is_some, if◌then◌else◌,
}
use embediq_cloud.Outcome.{Error, Outcome, returned, raised, runtime_error, is_sqlite_error}
use embediq_cloud.Json.{
  Value, null, str, obj, fields, Object, object, lookup, get, truthy, is_text, is_null, Codec,
}
use embediq_cloud.Db.{Db, DeviceState, DeviceShadow}
use embediq_cloud.Db.Connection.{
  Tx, pure, lift, with_connection, ◌>>=◌, ◌>>◌, commit, update_state, upsert_state, upsert_shadow,
  bind_text,
}
use embediq_cloud.Hawkbit.{Log, Server, mark_finished, mark_failed}
use embediq_cloud.Shadow.{empty_document}

-- What the bridge hands to the two storage services.
pub data Write : Type 0 where
  -- device, timestamp, metrics
  influx : String → Value → Object → Write
  -- device, level, message
  loki : String → String → String → Write

-- Whether `InfluxBackend()` and `LokiBackend()` can be constructed.
pub record Ready : Type 0 where
  pub influx : Bool
  pub loki : Bool

-- What the bridge acts on: the database file, the requests to Hawkbit, the writes to the services.
pub record World (T : Type 0) : Type 0 where
  pub db : Db T
  pub requests : Log
  pub writes : List Write

abbrev pub Action : Type 0 → Type 0
Action T = World T → Outcome (Unit {0}) × World T

-- `except sqlite3.Error`: the file is as it was
abbrev swallow : Outcome (Unit {0}) → Outcome (Unit {0})
swallow (returned _) = returned tt
swallow (raised e) = if is_sqlite_error e then returned tt else raised e

module _ {T : Type 0} where
  -- `log.warning(...)` and `return`
  abbrev pub ignore : Action T
  ignore w = (returned tt, w)

  -- `write` and `push` catch what the service raises
  abbrev hand_over : Bool → Write → Action T
  hand_over ready x w =
      if ready
      then (returned tt, record w { writes = w.writes ++ x ∷ [] })
      else (raised runtime_error, w)

  handle_metrics : Ready → String → Object → Value → Action T
  handle_metrics ready device_id payload (obj metrics) =
      hand_over ready.influx (influx device_id (get "ts" payload) (fields metrics))
  handle_metrics ready device_id payload _ = ignore

  pub handle_telemetry : Ready → String → Object → Action T
  unfolding handle_metrics
  handle_telemetry ready device_id payload =
      handle_metrics ready device_id payload (get "metrics" payload)

module _ (C : Codec) where
  -- `d.get(key, default)` at a text
  abbrev get_or_text : String → String → Object → Value
  get_or_text key default payload = elim (lookup key payload) [ none ↦ str default | some v ↦ v ]

  pub handle_logs : Ready → String → Object → Action C.Text
  handle_logs ready device_id payload = hand_over ready.loki (
      loki device_id (C.py_str (get_or_text "level" "info" payload))
        (C.py_str (get_or_text "message" "" payload)))

  abbrev reported_row : ℕ → String → Object → DeviceShadow C.Text
  reported_row now device_id payload = record {
    device_id = device_id;
    desired = empty_document C;
    reported = C.dumps (object payload);
    updated_at = now;
  }

  pub reported_rows : ℕ → String → Object → Tx C.Text (Unit {0})
  reported_rows now device_id payload = do
    upsert_shadow (reported_row now device_id payload)
        (λ row. record row { reported = C.dumps (object payload); updated_at = now })
    update_state device_id (λ row. record row { last_seen = some now })
    commit

  pub handle_reported : ℕ → String → Object → Action C.Text
  handle_reported now device_id payload w =
      let (r, db') = with_connection (reported_rows now device_id payload) w.db in
      (swallow r, record w { db = db' })

  abbrev status_row : ℕ → String → Bool → Option String → Option String → DeviceState
  status_row now device_id online ip_address firmware_version = record {
    device_id = device_id;
    online = if online then 1 else 0;
    last_seen = some now;
    ip_address = ip_address;
    firmware_version = firmware_version;
  }

  -- ON CONFLICT(device_id) DO UPDATE SET ..., with COALESCE
  abbrev pub merge_status : DeviceState → DeviceState → DeviceState
  merge_status excluded row = record row {
    online = excluded.online;
    ip_address = or_else excluded.ip_address row.ip_address;
    firmware_version = or_else excluded.firmware_version row.firmware_version;
    last_seen = excluded.last_seen;
  }

  -- `ota_status == "installed" and version is not None`
  abbrev installs : Object → Bool
  installs payload =
      is_text "installed" (get "ota_status" payload) && not (is_null (get "version" payload))

  pub installed_rows : String → Object → Tx C.Text (Unit {0})
  installed_rows device_id payload = do
    version ← lift (bind_text C.column_text (get "version" payload))
    update_state device_id (λ row. record row { firmware_version = version })

  unfoldable pub status_rows : ℕ → String → Object → Tx C.Text (Unit {0})
  status_rows now device_id payload = do
    ip_address ← lift (bind_text C.column_text (get "ip_address" payload))
    firmware_version ← lift (bind_text C.column_text (get "firmware_version" payload))
    let row = status_row now device_id (truthy (get "online" payload)) ip_address firmware_version
    upsert_state row (merge_status row)
    if installs payload then installed_rows device_id payload else pure tt
    commit

module _ (C : Codec) (server : Server) (ready : Ready) where
  -- the forward to Hawkbit
  pub ota_feedback : String → Object → Action C.Text
  ota_feedback device_id payload w =
      if is_text "installed" (get "ota_status" payload)
      then (let (r, log) = mark_finished C server device_id w.requests in
          (r, record w { requests = log }))
      else if is_text "failed" (get "ota_status" payload)
      then (let (r, log) =
            mark_failed C server device_id (C.py_str (get_or_text C "reason" "" payload))
              w.requests in
          (r, record w { requests = log }))
      else ignore w

  -- an exception that is not caught leaves before the forward
  abbrev after_status : String → Object → Outcome (Unit {0}) → Action C.Text
  after_status device_id payload (returned _) w = ota_feedback device_id payload w
  after_status device_id payload (raised e) w = (raised e, w)

  pub handle_status : ℕ → String → Object → Action C.Text
  handle_status now device_id payload w =
      let (r, db') = with_connection (status_rows C now device_id payload) w.db in
      after_status device_id payload (swallow r) (record w { db = db' })

  pub handle : ℕ → String → String → Object → Action C.Text
  handle now device_id channel payload =
      if channel == "telemetry"
      then handle_telemetry ready device_id payload
      else if channel == "logs"
      then handle_logs C ready device_id payload
      else if channel == "state/reported"
      then handle_reported C now device_id payload
      else if channel == "status"
      then handle_status now device_id payload
      else ignore

  -- malformed JSON and a payload that is no object are dropped
  pub handle_document : ℕ → String → String → Option Value → Action C.Text
  handle_document now device_id channel (some (obj payload)) =
      handle now device_id channel (fields payload)
  handle_document now device_id channel _ = ignore

  abbrev is_ignored_channel : String → Bool
  is_ignored_channel channel = (channel == "cmd") || (channel == "state/desired")

  pub route_parts : ℕ → List String → C.Text → Action C.Text
  route_parts now (root ∷ device_id ∷ c ∷ cs) payload =
      if root == "embediq"
      then (let channel = join (c ∷ cs) in
          if is_ignored_channel channel
          then ignore
          else handle_document now device_id channel (C.loads payload))
      else ignore
  route_parts now _ payload = ignore

  pub route_message : ℕ → String → C.Text → Action C.Text
  route_message now topic payload = route_parts now (split topic) payload

  -- `_on_message`: no exception reaches the network loop
  pub on_message : ℕ → String → C.Text → World C.Text → World C.Text
  on_message now topic payload w = (route_message now topic payload w).1
