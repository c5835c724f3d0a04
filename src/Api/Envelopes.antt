-- ===== src/Api/Envelopes.antt =====
-- The envelope around every answer.
use embediq_cloud.Prelude.{
  ℕ, ◌≡◌, ◌≢◌, ◌⊎◌, refl, sym, subst, inl, inr, String, some, List, [], ◌∷◌, nat_eq, if◌then◌else◌,
  arith,
}
use embediq_cloud.Outcome.{Outcome, returned, raised, http_exception, Outcome-cases}
use embediq_cloud.Json.{Value, null, str, object}
use embediq_cloud.Envelope.{status_code, ok, error_body, Response, respond, invalid_body, IsOk}
use embediq_cloud.Registry.Devices.Envelopes.{
  post_device-IsOk, patch_device-IsOk, delete_device-IsOk, get_device-IsOk, list_devices-IsOk,
}
use embediq_cloud.Registry.Groups.Envelopes.{list_groups-IsOk, post_group-IsOk, delete_group-IsOk}
use embediq_cloud.Registry.Maintenance.Envelopes.{
  system_health-IsOk, rotate_certs-IsOk, system_certs-IsOk,
}
use embediq_cloud.Shadow.Envelopes.{get_shadow-IsOk, patch_desired-IsOk}
use embediq_cloud.Ota.Envelopes.{
  list_firmware-Answers, post_firmware-Answers, delete_firmware-Answers, deploy-Answers,
  ota_status-Answers, device_cmd-IsOk, hawkbit_callback-IsOk,
}
use embediq_cloud.Auth.DeviceAuth.Envelopes.{internal_auth-IsOk, internal_acl-IsOk}
use embediq_cloud.Auth.Admin.Session.{login-IsOk}
use embediq_cloud.System.{System}
use embediq_cloud.Api.{
  Host, Moment, Headers, Endpoint, guard_of, success_of, bridge_credential, run, check, serve,
  answer, settings, health_get, login_post, auth_post, acl_post, callback_post, devices_get,
  device_get, device_post, device_patch, device_delete, groups_get, group_post, group_delete,
  system_health_get, certs_get, rotate_post, shadow_get, desired_patch, firmware_get, firmware_post,
  firmware_delete, deploy_post, status_get, cmd_post,
}

-- the statuses with a code of their own
abbrev pub codes : List (ℕ × String)
codes =
    (400, "bad_request")
    ∷ (401, "unauthorized")
    ∷ (403, "forbidden")
    ∷ (404, "not_found")
    ∷ (409, "conflict")
    ∷ (500, "internal_error")
    ∷ (502, "bad_gateway")
    ∷ []

-- the code that a table has for a status, or "error"
abbrev pub code_in : List (ℕ × String) → ℕ → String
code_in [] status = "error"
code_in ((known, code) ∷ rest) status = if nat_eq status known then code else code_in rest status

-- 201 of the three endpoints that create something, and 200 of the others
abbrev pub created_or_ok : Endpoint → ℕ
created_or_ok (device_post body) = 201
created_or_ok (group_post body) = 201
created_or_ok (firmware_post name number filename content) = 201
created_or_ok _ = 200

-- The body is `{"data": payload, "error": null}` under the status of success, or `{"data": null,
-- "error": {"code": code, "message": message}}` with the code of its status.
abbrev pub IsEnvelope : Endpoint → Response → Type 0
IsEnvelope e r =
    ((payload : Value) × (r.status ≡ created_or_ok e)
      × (r.body ≡ object (("data", payload) ∷ ("error", null) ∷ [])))
    ⊎ ((message : String) × (r.body
          ≡ object (
              ("data", null)
              ∷ (
                "error",
                object (("code", str (code_in codes r.status)) ∷ ("message", str message) ∷ []),
              )
              ∷ [])))

success-created_or_ok : (e : Endpoint) → success_of e ≡ created_or_ok e
success-created_or_ok health_get = refl
success-created_or_ok e = refl

status_code-codes : (status : ℕ) → status_code status ≡ code_in codes status
unfolding status_code
status_code-codes status = refl

respond-IsEnvelope :
    (e : Endpoint) (o : Outcome Value) (r : Response)
    → IsOk o
    → respond (success_of e) o ≡ some r
    → IsEnvelope e r
unfolding respond ok error_body
respond-IsEnvelope e (returned v) r (p, n) q =
    inl (p, ground (arith, q, success-created_or_ok e), ground (arith, q, n))
respond-IsEnvelope e (raised (http_exception status detail)) r k q =
    let given : record { status = status; body = error_body status detail } ≡ r =
      ground (arith, q) in
    inr (
      detail,
      subst
          (λ x.
            x.body
            ≡ object (
                ("data", null)
                ∷ (
                  "error",
                  object (("code", str (code_in codes x.status)) ∷ ("message", str detail) ∷ []),
                )
                ∷ []))
          given (rw (sym (status_code-codes status)) refl),
    )
respond-IsEnvelope e (raised x) r k q = absurd (ground (arith, q))

module _ (h : Host) (m : Moment) where
  run-IsOk : (e : Endpoint) (s : System (h.codec).Text) → e ≢ health_get → IsOk (run h m e s).0
  unfolding run
  run-IsOk health_get s ne = absurd (ne refl)
  run-IsOk (login_post body) s ne = login-IsOk h.jwt h.bcrypt m.seconds (settings h m s).0 body
  run-IsOk (auth_post source body) s ne =
      internal_auth-IsOk h.bcrypt (bridge_credential m.env) m.now m.later source body (s.world).db
        s.failures
  run-IsOk (acl_post body) s ne = internal_acl-IsOk body
  run-IsOk (callback_post body) s ne = hawkbit_callback-IsOk h.codec h.takes body
  run-IsOk devices_get s ne = list_devices-IsOk h.codec (s.world).db
  run-IsOk (device_get k) s ne = get_device-IsOk h.codec (s.world).db k
  run-IsOk (device_post body) s ne =
      post_device-IsOk h.codec (s.world).db h.bcrypt m.seconds m.salt body
  run-IsOk (device_patch k body) s ne = patch_device-IsOk h.codec (s.world).db k body
  run-IsOk (device_delete k) s ne = delete_device-IsOk h.codec (s.world).db k
  run-IsOk groups_get s ne = list_groups-IsOk (s.world).db
  run-IsOk (group_post body) s ne = post_group-IsOk (s.world).db m.seconds body
  run-IsOk (group_delete g) s ne = delete_group-IsOk (s.world).db g
  run-IsOk system_health_get s ne = system_health-IsOk (s.world).db m.uptime
  run-IsOk certs_get s ne = system_certs-IsOk h.expiry m.env m.cert m.now
  run-IsOk rotate_post s ne = rotate_certs-IsOk (s.world).db m.seconds
  run-IsOk (shadow_get k) s ne = get_shadow-IsOk h.codec k (s.world).db
  run-IsOk (desired_patch k delta) s ne =
      patch_desired-IsOk h.codec h.takes m.seconds k delta (s.world).db
  run-IsOk firmware_get s ne = (list_firmware-Answers h.codec h.server).at (s.world).requests
  run-IsOk (firmware_post n v f c) s ne =
      (post_firmware-Answers h.codec h.server n v f c).at (s.world).requests
  run-IsOk (firmware_delete id) s ne =
      (delete_firmware-Answers h.codec h.server id).at (s.world).requests
  run-IsOk (deploy_post body) s ne = (deploy-Answers h.codec h.server body).at (s.world).requests
  run-IsOk (status_get k) s ne = (ota_status-Answers h.codec h.server k).at (s.world).requests
  run-IsOk (cmd_post k body) s ne = device_cmd-IsOk h.codec h.takes k body (s.world).db

  serve-IsOk :
      (headers : Headers) (e : Endpoint) (s : System (h.codec).Text)
      → e ≢ health_get
      → IsOk (serve h m headers e s).0
  unfolding serve
  serve-IsOk headers e s ne = elim (Outcome-cases (check h m (guard_of e) headers s).0) [
    | inl (v, n) ↦ rw (serve, n) (run-IsOk e (check h m (guard_of e) headers s).1 ne)
    | inr (x, n) ↦ rw (serve, n) tt
  ]

  -- Every endpoint but GET /health, whatever the request and the state: an answer of the
  -- application is an envelope, of a payload with a null error under 201 for the three POSTs that
  -- create something and 200 for the others, or of a null payload and an error with a message and
  -- the code that the table of statuses has for the answer's, or "error".
  pub answer-IsEnvelope :
      (headers : Headers) (e : Endpoint) (s : System (h.codec).Text) (r : Response)
      → e ≢ health_get
      → answer h m headers e s ≡ some r
      → IsEnvelope e r
  unfolding answer
  answer-IsEnvelope headers e s r ne q = respond-IsEnvelope e _ r (serve-IsOk headers e s ne) q

-- the answer to a body that pydantic refuses
invalid_body-IsEnvelope : (e : Endpoint) → IsEnvelope e invalid_body
unfolding invalid_body error_body status_code
invalid_body-IsEnvelope e = inr ("invalid request body", refl)
