-- ===== src/Outcome.antt =====
-- What a Python call gives: a value, or an exception. Only the exceptions that the handlers raise
-- or that their calls of the library document are told apart.
use embediq_cloud.Prelude.{
  ℕ, String, Bool, true, false, Option, none, some, ◌≡◌, refl, ◌⊎◌, inl, inr,
}

pub data Error : Type 0 where
  -- fastapi.HTTPException(status_code, detail)
  http_exception : ℕ → String → Error
  -- app.registry.DeviceExists(device_id)
  device_exists : String → Error
  -- app.hawkbit.HawkbitError(status_code, message)
  hawkbit_error : ℕ → String → Error
  -- the RuntimeError of app.config, with its message
  configuration_error : String → Error
  -- httpx.InvalidURL, which is no httpx.HTTPError
  invalid_url : Error
  -- jwt.PyJWTError
  jwt_error : Error
  -- sqlite3.IntegrityError, and sqlite3.ProgrammingError for a parameter of a type that has no
  -- SQL form
  integrity_error programming_error : Error
  overflow_error value_error type_error attribute_error : Error
  key_error index_error runtime_error : Error

-- `except sqlite3.Error`
abbrev pub is_sqlite_error : Error → Bool
is_sqlite_error integrity_error = true
is_sqlite_error programming_error = true
is_sqlite_error _ = false

pub data Outcome {ℓ} (A : Type ℓ) : Type ℓ where
  returned : A → Outcome A
  raised : Error → Outcome A

infixl 10 ◌>>=◌
abbrev pub ◌>>=◌ {ℓ κ} : {A : Type ℓ} {B : Type κ} → Outcome A → (A → Outcome B) → Outcome B
returned a >>= f = f a
raised e >>= f = raised e

abbrev pub is_returned {ℓ} : {A : Type ℓ} → Outcome A → Bool
is_returned (returned a) = true
is_returned (raised e) = false

-- a value, or an HTTPException
abbrev pub is_handled {ℓ} : {A : Type ℓ} → Outcome A → Bool
is_handled (returned a) = true
is_handled (raised (http_exception status detail)) = true
is_handled (raised _) = false

-- `none` stands for the exception `e`
abbrev pub or_raise {ℓ} : {A : Type ℓ} → Option A → Error → Outcome A
or_raise none e = raised e
or_raise (some a) e = returned a

pub Outcome-cases {ℓ} :
    {A : Type ℓ} (r : Outcome A) → ((a : A) × (r ≡ returned a)) ⊎ ((e : Error) × (r ≡ raised e))
Outcome-cases (returned a) = inl (a, refl)
Outcome-cases (raised e) = inr (e, refl)
