-- ===== src/Bridge/Keeps.antt =====
-- What the two transactions of the bridge keep, every message keeps.
use embediq_cloud.Prelude.{ℕ, ◌≡◌, String, split, join, arith, some, none, Option, List, [], ◌∷◌}
use embediq_cloud.Json.{Value, obj, fields, Object, Codec}
use embediq_cloud.Db.{Db}
use embediq_cloud.Db.Connection.{with_connection}
use embediq_cloud.Db.Connection.Keeps.{Keeps, Keeps-with_connection}
use embediq_cloud.Hawkbit.{Server}
use embediq_cloud.Bridge.{
  Ready, World, handle_metrics, handle_telemetry, handle_logs, reported_rows, handle_reported,
  status_rows, ota_feedback, handle_status, handle, handle_document, route_parts, route_message,
  on_message,
}

module _ (C : Codec) (server : Server) (ready : Ready) (w : World C.Text) where
  db-ota_feedback :
      (k : String) (payload : Object) → ((ota_feedback C server ready k payload w).1).db ≡ w.db
  unfolding ota_feedback
  db-ota_feedback k payload = ground arith

  pub db-handle_status :
      (now : ℕ) (k : String) (payload : Object)
      → ((handle_status C server ready now k payload w).1).db
        ≡ (with_connection (status_rows C now k payload) w.db).1
  unfolding handle_status ota_feedback with_connection
  db-handle_status now k payload = ground arith

module _ (C : Codec) (server : Server) (ready : Ready) (P : Db C.Text → Type 0)
    (reported : (now : ℕ) (k : String) (payload : Object) → Keeps P (reported_rows C now k payload))
    (status : (now : ℕ) (k : String) (payload : Object) → Keeps P (status_rows C now k payload))
    (now : ℕ) where
  module _ (w : World C.Text) (h : P w.db) where
    telemetry_keeps :
        (k : String) (payload : Object) → P ((handle_telemetry ready k payload w).1).db
    unfolding handle_telemetry handle_metrics
    telemetry_keeps k payload = ground arith

    logs_keeps : (k : String) (payload : Object) → P ((handle_logs C ready k payload w).1).db
    unfolding handle_logs
    logs_keeps k payload = ground arith

    reported_keeps : (k : String) (payload : Object) → P ((handle_reported C now k payload w).1).db
    unfolding handle_reported
    reported_keeps k payload =
        Keeps-with_connection (reported_rows C now k payload) w.db (reported now k payload) h

    status_keeps :
        (k : String) (payload : Object) → P ((handle_status C server ready now k payload w).1).db
    status_keeps k payload =
        rw (db-handle_status C server ready w now k payload)
          (Keeps-with_connection (status_rows C now k payload) w.db (status now k payload) h)

    pub handle_keeps :
        (k channel : String) (payload : Object)
        → P ((handle C server ready now k channel payload w).1).db
    unfolding handle
    handle_keeps k channel payload = ground (
      arith,
      telemetry_keeps k payload,
      logs_keeps k payload,
      reported_keeps k payload,
      status_keeps k payload,
    )

    document_keeps :
        (k channel : String) (o : Option Value)
        → P ((handle_document C server ready now k channel o w).1).db
    unfolding handle_document
    document_keeps k channel (some (obj payload)) = handle_keeps k channel (fields payload)
    document_keeps k channel (some _) = h
    document_keeps k channel none = h

    parts_keeps :
        (parts : List String) (payload : C.Text)
        → P ((route_parts C server ready now parts payload w).1).db
    unfolding route_parts
    parts_keeps [] payload = h
    parts_keeps (a ∷ []) payload = h
    parts_keeps (a ∷ b ∷ []) payload = h
    parts_keeps (a ∷ b ∷ c ∷ cs) payload =
        ground (arith, document_keeps b (join (c ∷ cs)) (C.loads payload))

  pub on_message_keeps :
      (topic : String) (payload : C.Text) (w : World C.Text)
      → P w.db
      → P (on_message C server ready now topic payload w).db
  unfolding on_message route_message
  on_message_keeps topic payload w h = parts_keeps w h (split topic) payload
