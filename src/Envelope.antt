-- ===== src/Envelope.antt =====
-- app/envelope.py, and the exception handlers of app/main.py: the body of every API response.
use embediq_cloud.Prelude.{ℕ, ◌≡◌, String, Option, none, some, [], ◌∷◌, nat_eq, if◌then◌else◌}
use embediq_cloud.Outcome.{http_exception, Outcome, returned, raised}
use embediq_cloud.Json.{Value, null, str, object}

-- `STATUS_CODE.get(status, "error")`
unfoldable pub status_code : ℕ → String
status_code status =
    if nat_eq status 400
    then "bad_request"
    else if nat_eq status 401
    then "unauthorized"
    else if nat_eq status 403
    then "forbidden"
    else if nat_eq status 404
    then "not_found"
    else if nat_eq status 409
    then "conflict"
    else if nat_eq status 500
    then "internal_error"
    else if nat_eq status 502
    then "bad_gateway"
    else "error"

unfoldable pub ok : Value → Value
ok payload = object (("data", payload) ∷ ("error", null) ∷ [])

unfoldable pub error_body : ℕ → String → Value
unfolding status_code
error_body status message = object (
    ("data", null)
    ∷ ("error", object (("code", str (status_code status)) ∷ ("message", str message) ∷ []))
    ∷ [])

pub record Response : Type 0 where
  pub status : ℕ
  pub body : Value

-- What a client gets from a handler whose route declares the status `success`. `none` is any other
-- exception: no handler of the application is registered for it, and the server answers by itself.
unfoldable pub respond : ℕ → Outcome Value → Option Response
unfolding error_body
respond success (returned v) = some (record { status = success; body = v })
respond success (raised (http_exception status detail)) =
    some (record { status = status; body = error_body status detail })
respond success (raised _) = none

-- the handler of RequestValidationError
unfoldable pub invalid_body : Response
unfolding error_body
invalid_body = record { status = 400; body = error_body 400 "invalid request body" }

-- A handler that returns answers by `ok`.
abbrev pub IsOk : Outcome Value → Type 0
IsOk (returned v) = (payload : Value) × (v ≡ ok payload)
IsOk (raised e) = Unit
