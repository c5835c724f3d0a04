-- ===== src/Bridge/Valid.antt =====
-- The bridge keeps the database valid, whatever it is sent.
use embediq_cloud.Prelude.{ℕ, ◌≡◌, refl, String, arith, some, Option}
use embediq_cloud.Json.{Object, Codec}
use embediq_cloud.Db.{DeviceState, DeviceShadow}
use embediq_cloud.Db.Connection.{upsert_state, update_state, upsert_shadow}
use embediq_cloud.Db.Connection.Keeps.{Keeps, keeps_rules}
use embediq_cloud.Db.Invariant.{IsValid}
use embediq_cloud.Db.Invariant.Rows.{update_state-IsValid}
use embediq_cloud.Hawkbit.{Server}
use embediq_cloud.Shadow.Valid.{upsert_shadow-Keeps}
use embediq_cloud.Bridge.Keeps.{on_message_keeps}
use embediq_cloud.Bridge.{
  Ready, World, reported_rows, installed_rows, status_rows, merge_status, on_message,
}

module _ {T : Type 0} where
  update_state-Keeps :
      (k : String) (f : DeviceState → DeviceState)
      → ((s : DeviceState) → (f s).device_id ≡ s.device_id)
      → Keeps {T = T} IsValid (update_state k f)
  unfolding update_state
  update_state-Keeps k f keeps = record {
    at = λ c h w. (h, update_state-IsValid c.work w k f keeps);
  }

  -- an upsert of the state of a device: on a valid file it cannot insert, since each device has a
  -- state and an unknown device is refused
  upsert_state-Keeps :
      (s : DeviceState) (f : DeviceState → DeviceState)
      → ((x : DeviceState) → (f x).device_id ≡ x.device_id)
      → Keeps {T = T} IsValid (upsert_state s f)
  unfolding upsert_state
  upsert_state-Keeps s f keeps = record {
    at = λ c h w.
        ground (arith, w.states s.device_id, update_state-IsValid c.work w s.device_id f keeps);
  }

module _ (C : Codec) where
  write_reported-Keeps :
      (s : DeviceShadow C.Text) (document : C.Text) (now : ℕ)
      → Keeps IsValid
          (upsert_shadow s (λ row. record row { reported = document; updated_at = now }))
  write_reported-Keeps s document now = upsert_shadow-Keeps s _ (λ x. refl)

  last_seen-Keeps :
      (k : String) (now : ℕ)
      → Keeps {T = C.Text} IsValid (update_state k (λ row. record row { last_seen = some now }))
  last_seen-Keeps k now = update_state-Keeps k _ (λ x. refl)

  version-Keeps :
      (k : String) (v : Option String)
      → Keeps {T = C.Text} IsValid (update_state k (λ row. record row { firmware_version = v }))
  version-Keeps k v = update_state-Keeps k _ (λ x. refl)

  merge_status-Keeps :
      (s : DeviceState) → Keeps {T = C.Text} IsValid (upsert_state s (merge_status C s))
  merge_status-Keeps s = upsert_state-Keeps s _ (λ x. refl)

  pub reported_rows-Keeps :
      (now : ℕ) (k : String) (payload : Object) → Keeps IsValid (reported_rows C now k payload)
  unfolding reported_rows
  reported_rows-Keeps now k payload =
      search (keeps_rules, write_reported-Keeps, last_seen-Keeps) depth 8

  installed_rows-Keeps :
      (k : String) (payload : Object) → Keeps IsValid (installed_rows C k payload)
  unfolding installed_rows
  installed_rows-Keeps k payload = search (keeps_rules, version-Keeps)

  status_rows-Keeps :
      (now : ℕ) (k : String) (payload : Object) → Keeps IsValid (status_rows C now k payload)
  unfolding status_rows
  status_rows-Keeps now k payload =
      search (keeps_rules, merge_status-Keeps, installed_rows-Keeps) depth 16

module _ (C : Codec) (server : Server) (ready : Ready) where
  -- whatever the topic, the payload and the answers of Hawkbit
  pub on_message-IsValid :
      (now : ℕ) (topic : String) (payload : C.Text) (w : World C.Text)
      → IsValid w.db
      → IsValid (on_message C server ready now topic payload w).db
  on_message-IsValid =
      on_message_keeps C server ready IsValid (reported_rows-Keeps C) (status_rows-Keeps C)
