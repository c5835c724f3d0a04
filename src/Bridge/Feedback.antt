-- ===== src/Bridge/Feedback.antt =====
-- What a status message reports to Hawkbit.
use embediq_cloud.Prelude.{
  ℕ, ◌≡◌, ◌⊎◌, inl, inr, refl, String, ◌+++◌, Bool-cases, arith, [], ◌∷◌, ◌++◌, if◌then◌else◌,
}
use embediq_cloud.Outcome.{Outcome, returned, raised, invalid_url, overflow_error}
use embediq_cloud.Json.{Value, str, Object, object, list, get, is_text, Codec}
use embediq_cloud.Db.Connection.{with_connection}
use embediq_cloud.Hawkbit.{
  Server, Reply, unreachable, unreadable_url, response, Request, Log, json, request, mark_finished,
  mark_failed,
}
use embediq_cloud.Bridge.{
  Ready, World, status_rows, ota_feedback, after_status, handle_status, get_or_text, swallow,
}
use embediq_cloud.Bridge.Raises.{swallow-FromRows, status_rows-FromRows}

-- the report of an execution that is closed
abbrev pub report : String → Object → Request
report k outcome = record {
  method = "POST";
  path = "/rest/v1/targets/" +++ k +++ "/actions/feedback";
  body = json (object (("status", object (("execution", str "closed") ∷ outcome)) ∷ []));
}

abbrev pub finished : String → Value
finished verdict = object (("finished", str verdict) ∷ [])

-- `except HawkbitError` leaves the InvalidURL alone
abbrev reported : Reply → Outcome (Unit {0})
reported unreadable_url = raised invalid_url
reported _ = returned tt

reported-cases :
    (answer : Reply) → (reported answer ≡ returned tt) ⊎ (reported answer ≡ raised invalid_url)
reported-cases unreadable_url = inr refl
reported-cases (unreachable why) = inl refl
reported-cases (response status body) = inl refl

module _ (C : Codec) (server : Server) where
  -- Both reports are sent, whatever Hawkbit answers.
  mark_finished_lem :
      (k : String) (log : Log)
      → let request = report k (("result", finished "success") ∷ []) in
        mark_finished C server k log ≡ (reported (server request log), request ∷ log)
  unfolding mark_finished request
  mark_finished_lem k log = ground arith

  mark_failed_lem :
      (k reason : String) (log : Log)
      → let request =
          report k (("result", finished "failure") ∷ ("details", list (str reason ∷ [])) ∷ []) in
        mark_failed C server k reason log ≡ (reported (server request log), request ∷ log)
  unfolding mark_failed request
  mark_failed_lem k reason log = ground arith

  -- the reports that a status payload calls for
  abbrev pub reports : String → Object → Log
  reports k payload =
      if is_text "installed" (get "ota_status" payload)
      then report k (("result", finished "success") ∷ []) ∷ []
      else if is_text "failed" (get "ota_status" payload)
      then report k (
          ("result", finished "failure")
          ∷ ("details", list (str (C.py_str (get_or_text C "reason" "" payload)) ∷ []))
          ∷ [])
        ∷ []
      else []

  ota_feedback-world :
      (ready : Ready) (k : String) (payload : Object) (w : World C.Text)
      → (ota_feedback C server ready k payload w).1
        ≡ record w { requests = reports k payload ++ w.requests }
  unfolding ota_feedback
  ota_feedback-world ready k payload w = ground (
    arith,
    mark_finished_lem k w.requests,
    mark_failed_lem k (C.py_str (get_or_text C "reason" "" payload)) w.requests,
  )

  pub ota_feedback-result :
      (ready : Ready) (k : String) (payload : Object) (w : World C.Text)
      → let r = (ota_feedback C server ready k payload w).0 in
        (r ≡ returned tt) ⊎ (r ≡ raised invalid_url)
  unfolding ota_feedback
  ota_feedback-result ready k payload w =
      let reason = C.py_str (get_or_text C "reason" "" payload) in
      elim (Bool-cases (is_text "installed" (get "ota_status" payload))) [
        | inl e ↦ rw (e, mark_finished_lem k w.requests) (reported-cases _)
        | inr e ↦ elim (Bool-cases (is_text "failed" (get "ota_status" payload))) [
          | inl f ↦ rw (e, f, mark_failed_lem k reason w.requests) (reported-cases _)
          | inr f ↦ rw (e, f) (inl refl)
        ]
      ]

  pub ota_feedback-unreadable :
      (ready : Ready) (k : String) (payload : Object) (w : World C.Text)
      → get "ota_status" payload ≡ str "installed"
      → server (report k (("result", finished "success") ∷ [])) w.requests ≡ unreadable_url
      → ota_feedback C server ready k payload w ≡ (
        raised invalid_url,
        record w { requests = report k (("result", finished "success") ∷ []) ∷ w.requests },
      )
  unfolding ota_feedback
  ota_feedback-unreadable ready k payload w e bad =
      ground (arith, e, bad, mark_finished_lem k w.requests)

  -- the requests after an action that returns or raises
  abbrev pub requests_after : String → Object → Outcome (Unit {0}) → Log → Log
  requests_after k payload (returned _) log = reports k payload ++ log
  requests_after k payload (raised invalid_url) log = reports k payload ++ log
  requests_after k payload (raised _) log = log

  requests-ota_feedback :
      (ready : Ready) (k : String) (payload : Object) (w : World C.Text)
      → let (r, w') = ota_feedback C server ready k payload w in
        w'.requests ≡ requests_after k payload r w.requests
  requests-ota_feedback ready k payload w =
      let e = ota_feedback-world ready k payload w in
      elim (ota_feedback-result ready k payload w) [
        | inl f ↦ rw (f, e) refl
        | inr f ↦ rw (f, e) refl
      ]

  requests-after_status :
      (ready : Ready) (k : String) (payload : Object) (r : Outcome (Unit {0})) (w : World C.Text)
      → (r ≡ returned tt) ⊎ (r ≡ raised overflow_error)
      → let (r', w') = after_status C server ready k payload r w in
        w'.requests ≡ requests_after k payload r' w.requests
  requests-after_status ready k payload r w (inl e) = rw e (requests-ota_feedback ready k payload w)
  requests-after_status ready k payload r w (inr e) = rw e refl

  -- A status message that is handled calls Hawkbit with one report for "installed" and one for
  -- "failed", and none otherwise, for a registered device or not, whatever Hawkbit answers; so
  -- does one whose handling raises the InvalidURL of that report. One that raises anything else
  -- calls Hawkbit with none.
  pub requests-handle_status :
      (ready : Ready) (now : ℕ) (k : String) (payload : Object) (w : World C.Text)
      → let (r, w') = handle_status C server ready now k payload w in
        w'.requests ≡ requests_after k payload r w.requests
  unfolding handle_status
  requests-handle_status ready now k payload w =
      let (r, db') = with_connection (status_rows C now k payload) w.db in
      requests-after_status ready k payload (swallow r) (record w { db = db' })
        (swallow-FromRows r (status_rows-FromRows C now k payload w.db))
