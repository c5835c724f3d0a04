-- ===== src/Bridge/Errors.antt =====
-- Which exceptions leave `route_message`.
use embediq_cloud.Prelude.{
  ℕ, ◌≡◌, ◌⊎◌, refl, inl, inr, String, false, arith, some, none, Option, List, [], ◌∷◌, split, join,
}
use embediq_cloud.Prelude.Int.{ℤ, fits_int64}
use embediq_cloud.Outcome.{Outcome, returned, raised, overflow_error, runtime_error, invalid_url}
use embediq_cloud.Json.{Value, int, obj, fields, Object, get, Codec}
use embediq_cloud.Db.Connection.{with_connection, ◌>>=◌}
use embediq_cloud.Hawkbit.{Server}
use embediq_cloud.Bridge.{
  Ready, World, handle_metrics, handle_telemetry, handle_logs, reported_rows, handle_reported,
  status_rows, handle_status, handle, handle_document, route_parts, route_message, swallow,
  after_status,
}
use embediq_cloud.Bridge.Raises.{
  FromRows, swallow-FromRows, bind_text_overflows, reported_rows-FromRows, status_rows-FromRows,
}
use embediq_cloud.Bridge.Feedback.{ota_feedback-result}

-- returned, or one of the three exceptions that no handler of the bridge catches
abbrev pub Expected : Outcome (Unit {0}) → Type 0
Expected (returned _) = Unit
Expected (raised e) = (e ≡ overflow_error) ⊎ ((e ≡ runtime_error) ⊎ (e ≡ invalid_url))

swallow-Expected : (r : Outcome (Unit {0})) → FromRows r → Expected (swallow r)
swallow-Expected r h = elim (swallow-FromRows r h) [ inl e ↦ rw e tt | inr e ↦ rw e (inl refl) ]

module _ (C : Codec) (server : Server) (ready : Ready) (w : World C.Text) where
  after_status-Expected :
      (k : String) (payload : Object) (r : Outcome (Unit {0})) (x : World C.Text)
      → Expected r
      → Expected (after_status C server ready k payload r x).0
  after_status-Expected k payload (returned _) x h =
      elim (ota_feedback-result C server ready k payload x) [
        | inl e ↦ rw e tt
        | inr e ↦ rw e (inr (inr refl))
      ]
  after_status-Expected k payload (raised e) x h = h

  handle_status-Expected :
      (now : ℕ) (k : String) (payload : Object)
      → Expected (handle_status C server ready now k payload w).0
  unfolding handle_status
  handle_status-Expected now k payload =
      let (r, db') = with_connection (status_rows C now k payload) w.db in
      after_status-Expected k payload (swallow r) (record w { db = db' })
        (swallow-Expected r (status_rows-FromRows C now k payload w.db))

  handle_reported-Expected :
      (now : ℕ) (k : String) (payload : Object) → Expected (handle_reported C now k payload w).0
  unfolding handle_reported
  handle_reported-Expected now k payload =
      swallow-Expected (with_connection (reported_rows C now k payload) w.db).0
        (reported_rows-FromRows C now k payload w.db)

  handle-Expected :
      (now : ℕ) (k channel : String) (payload : Object)
      → Expected (handle C server ready now k channel payload w).0
  unfolding handle handle_telemetry handle_metrics handle_logs
  handle-Expected now k channel payload =
      ground (arith, handle_status-Expected now k payload, handle_reported-Expected now k payload)

  document-Expected :
      (now : ℕ) (k channel : String) (o : Option Value)
      → Expected (handle_document C server ready now k channel o w).0
  unfolding handle_document
  document-Expected now k channel (some (obj payload)) =
      handle-Expected now k channel (fields payload)
  document-Expected now k channel (some _) = tt
  document-Expected now k channel none = tt

  parts-Expected :
      (now : ℕ) (parts : List String) (payload : C.Text)
      → Expected (route_parts C server ready now parts payload w).0
  unfolding route_parts
  parts-Expected now [] payload = tt
  parts-Expected now (a ∷ []) payload = tt
  parts-Expected now (a ∷ b ∷ []) payload = tt
  parts-Expected now (a ∷ b ∷ c ∷ cs) payload =
      ground (arith, document-Expected now b (join (c ∷ cs)) (C.loads payload))

  -- The routing of a message returns, or raises the OverflowError of an integer that SQLite does
  -- not hold, the error of a storage client that cannot be made, or the InvalidURL of a report
  -- whose URL httpx cannot read; whatever the topic and the payload, and whatever Hawkbit answers.
  pub route_message-Expected :
      (now : ℕ) (topic : String) (payload : C.Text)
      → Expected (route_message C server ready now topic payload w).0
  unfolding route_message
  route_message-Expected now topic payload = parts-Expected now (split topic) payload

  -- A status whose address is an integer of more than 64 bits leaves the handler
  -- by an OverflowError, with the file as it was and no report to Hawkbit.
  pub handle_status_overflows :
      (now : ℕ) (k : String) (payload : Object) (n : ℤ)
      → get "ip_address" payload ≡ int n
      → fits_int64 n ≡ false
      → handle_status C server ready now k payload w ≡ (raised overflow_error, w)
  unfolding handle_status status_rows ◌>>=◌
  handle_status_overflows now k payload n e big =
      let b = bind_text_overflows C.column_text (get "ip_address" payload) n e big in ground arith
