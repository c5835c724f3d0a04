-- ===== src/Bridge/Readable.antt =====
-- The bridge stores documents that can be read back.
use embediq_cloud.Prelude.{ℕ, String, [], arith}
use embediq_cloud.Json.{Object, object, Codec}
use embediq_cloud.Db.{DeviceState}
use embediq_cloud.Db.Connection.{upsert_state, update_state, upsert_shadow}
use embediq_cloud.Db.Connection.Keeps.{Keeps, keeps_rules}
use embediq_cloud.Db.Readable.{IsReadable}
use embediq_cloud.Hawkbit.{Server}
use embediq_cloud.Shadow.Readable.{upsert_shadow-Keeps, dict-is_some}
use embediq_cloud.Bridge.Keeps.{on_message_keeps}
use embediq_cloud.Bridge.{
  Ready, World, reported_row, reported_rows, installed_rows, status_rows, on_message,
}

module _ (C : Codec) where
  update_state-Keeps :
      (k : String) (f : DeviceState → DeviceState) → Keeps (IsReadable C) (update_state k f)
  unfolding update_state
  update_state-Keeps k f = record {
    at = λ c h w. (h, record { attributes = w.attributes; shadows = w.shadows });
  }

  upsert_state-Keeps :
      (s : DeviceState) (f : DeviceState → DeviceState) → Keeps (IsReadable C) (upsert_state s f)
  unfolding upsert_state
  upsert_state-Keeps s f = record { at = λ c h w. ground (arith, w.attributes, w.shadows) }

  write_reported-Keeps :
      (k : String) (payload : Object) (now : ℕ)
      → Keeps (IsReadable C) (
          upsert_shadow
            (reported_row C now k payload)
            (λ row. record row { reported = C.dumps (object payload); updated_at = now }))
  write_reported-Keeps k payload now =
      upsert_shadow-Keeps C _ _ (dict-is_some C [], dict-is_some C payload)
        (λ x r. (r.0, dict-is_some C payload))

  pub reported_rows-Keeps :
      (now : ℕ) (k : String) (payload : Object)
      → Keeps (IsReadable C) (reported_rows C now k payload)
  unfolding reported_rows
  reported_rows-Keeps now k payload =
      search (keeps_rules, write_reported-Keeps, update_state-Keeps) depth 8

  installed_rows-Keeps :
      (k : String) (payload : Object) → Keeps (IsReadable C) (installed_rows C k payload)
  unfolding installed_rows
  installed_rows-Keeps k payload = search (keeps_rules, update_state-Keeps)

  status_rows-Keeps :
      (now : ℕ) (k : String) (payload : Object) → Keeps (IsReadable C) (status_rows C now k payload)
  unfolding status_rows
  status_rows-Keeps now k payload =
      search (keeps_rules, upsert_state-Keeps, installed_rows-Keeps) depth 16

  pub on_message-IsReadable :
      (server : Server) (ready : Ready) (now : ℕ) (topic : String) (payload : C.Text)
      (w : World C.Text)
      → IsReadable C w.db
      → IsReadable C (on_message C server ready now topic payload w).db
  on_message-IsReadable server ready =
      on_message_keeps C server ready (IsReadable C) reported_rows-Keeps status_rows-Keeps
