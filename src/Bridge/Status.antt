-- ===== src/Bridge/Status.antt =====
-- What a status message does to the state of its device, and to Hawkbit.
use embediq_cloud.Prelude.{
  ℕ, ◌≡◌, refl, String, eq_refl, true, false, not, ◌&&◌, arith, is_some, some, or_else, Option,
  Bool-cases, inl, inr, if◌then◌else◌, List,
}
use embediq_cloud.Prelude.Table.{update, find-update}
use embediq_cloud.Outcome.{returned, raised, Error}
use embediq_cloud.Json.{Object, get, truthy, is_text, is_null, Codec}
use embediq_cloud.Db.{Db, DeviceState, state_key, find_state, find_device}
use embediq_cloud.Db.Connection.{with_connection, bind_text, ◌>>=◌}
use embediq_cloud.Db.Invariant.{IsValid}
use embediq_cloud.Hawkbit.{Server}
use embediq_cloud.Bridge.{
  Ready, World, status_row, merge_status, installs, installed_rows, status_rows, handle_status,
}
use embediq_cloud.Bridge.Keeps.{db-handle_status}

module _ (C : Codec) where
  module _ (now : ℕ) (k : String) (payload : Object) (db : Db C.Text) (row : DeviceState)
      (address named installed : Option String) (e : find_state k db ≡ some row)
      (a : bind_text C.column_text (get "ip_address" payload) ≡ returned address)
      (n : bind_text C.column_text (get "firmware_version" payload) ≡ returned named)
      (i : bind_text C.column_text (get "version" payload) ≡ returned installed) where
    abbrev excluded : DeviceState
    excluded = status_row C now k (truthy (get "online" payload)) address named

    abbrev merged_rows : List DeviceState
    merged_rows = update state_key k (merge_status C excluded) db.device_state

    abbrev set_version : DeviceState → DeviceState
    set_version x = record x { firmware_version = installed }

    status_rows_installed :
        installs C payload ≡ true
        → with_connection (status_rows C now k payload) db
          ≡ (returned tt, record db { device_state = update state_key k set_version merged_rows })
    unfolding status_rows installed_rows ◌>>=◌
    status_rows_installed y = ground arith

    status_rows_plain :
        installs C payload ≡ false
        → with_connection (status_rows C now k payload) db
          ≡ (returned tt, record db { device_state = merged_rows })
    unfolding status_rows installed_rows ◌>>=◌
    status_rows_plain y = ground arith

    -- the row that the message leaves
    abbrev row_after : DeviceState
    row_after = record {
      device_id = row.device_id;
      online = if truthy (get "online" payload) then 1 else 0;
      last_seen = some now;
      ip_address = or_else address row.ip_address;
      firmware_version =
          if installs C payload then installed else or_else named row.firmware_version;
    }

    find-status_rows :
        find_state k (with_connection (status_rows C now k payload) db).1 ≡ some row_after
    find-status_rows = elim (Bool-cases (installs C payload)) [
      | inl y ↦ ground (
        arith,
        status_rows_installed y,
        find-update state_key set_version (λ x. refl) k k merged_rows,
        find-update state_key (merge_status C excluded) (λ x. refl) k k db.device_state,
        eq_refl k,
      )
      | inr y ↦ ground (
        arith,
        status_rows_plain y,
        find-update state_key (merge_status C excluded) (λ x. refl) k k db.device_state,
        eq_refl k,
      )
    ]

  -- A status message of a device that has a state row, with texts that SQLite takes, leaves this
  -- row: online as the message says, seen now, the address and the version that the message names
  -- or else the old ones, except that where the "ota_status" is "installed" and "version" is there
  -- and not null, the row's version is that one.
  pub find-handle_status :
      (server : Server) (ready : Ready) (now : ℕ) (k : String) (payload : Object) (w : World C.Text)
      (row : DeviceState) (address named installed : Option String)
      → find_state k w.db ≡ some row
      → bind_text C.column_text (get "ip_address" payload) ≡ returned address
      → bind_text C.column_text (get "firmware_version" payload) ≡ returned named
      → bind_text C.column_text (get "version" payload) ≡ returned installed
      → find_state k ((handle_status C server ready now k payload w).1).db
        ≡ some (record {
          device_id = row.device_id;
          online = if truthy (get "online" payload) then 1 else 0;
          last_seen = some now;
          ip_address = or_else address row.ip_address;
          firmware_version =
              if is_text "installed" (get "ota_status" payload)
                && not (is_null (get "version" payload))
              then installed
              else or_else named row.firmware_version;
        })
  find-handle_status server ready now k payload w row address named installed e a n i =
      rw (db-handle_status C server ready w now k payload)
        (find-status_rows now k payload w.db row address named installed e a n i)

  -- a status message that raises within its transaction changes nothing
  status_atomic :
      (now : ℕ) (k : String) (payload : Object) (db : Db C.Text) (e : Error)
      → (with_connection (status_rows C now k payload) db).0 ≡ raised e
      → (with_connection (status_rows C now k payload) db).1 ≡ db
  unfolding status_rows installed_rows ◌>>=◌
  status_atomic now k payload db e h = ground arith

  -- a status message of an id that is not registered changes nothing
  status_unknown :
      (now : ℕ) (k : String) (payload : Object) (db : Db C.Text)
      → IsValid db
      → is_some (find_device k db) ≡ false
      → (with_connection (status_rows C now k payload) db).1 ≡ db
  unfolding status_rows ◌>>=◌
  status_unknown now k payload db h unknown = ground (arith, h.states k)
