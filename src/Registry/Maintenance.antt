-- ===== src/Registry/Maintenance.antt =====
-- The system endpoints of app/registry.py. `version` is `__version__` of app/__init__.py.
pub mod Results
pub mod Envelopes
use mathlib.Core.Option
use embediq_cloud.Prelude.{
  ℕ, ◌+◌, ◌-◌, ◌*◌, ◌/◌, String, Bool, true, false, Option, none, some, List, [], ◌∷◌, count, leb,
  nat_eq, if◌then◌else◌,
}
use embediq_cloud.Prelude.Int.{ℤ, pos, negsuc, leb_ℤ}
use embediq_cloud.Outcome.{Outcome, value_error, returned, raised}
use embediq_cloud.Json.{Value, null, bool, int, str, object}
use embediq_cloud.Db.{Db, DeviceState}
use embediq_cloud.Db.Connection.{
  pure, select, with_connection, commit, insert_rotation, ◌>>=◌, ◌>>◌,
}
use embediq_cloud.Envelope.{ok}
use embediq_cloud.Config.{Environ, get_cert_warn_days}

abbrev pub version : String
version = "0.0.1"

-- `online = 1`
abbrev pub is_online : DeviceState → Bool
is_online s = nat_eq s.online 1

-- `uptime` is the age of the process in seconds.
unfoldable pub system_health : {T : Type 0} → ℕ → Db T → Outcome Value × Db T
system_health uptime = with_connection do
  n ← select (λ db. count is_online db.device_state)
  pure (
      ok (
        object (
          ("status", str "ok")
          ∷ ("devices_online", int (pos n))
          ∷ ("uptime_s", int (pos uptime))
          ∷ ("version", str version)
          ∷ [])))

-- The certificate's file: it is missing, it cannot be read as text, or it has a text.
pub data CertFile : Type 0 where
  absent : CertFile
  unreadable : CertFile
  contents : String → CertFile

-- `x509.load_pem_x509_certificate` and `not_valid_after_utc`, in seconds since 1970, before which no
-- certificate is taken to expire; `none` is a ValueError.
abbrev pub Expiry : Type 0
Expiry = String → Option ℕ

abbrev pub microseconds : ℕ
microseconds = 1000000

abbrev pub day : ℕ
day = 86400000000

-- `(cert.not_valid_after_utc - datetime.now(UTC)).days`, which rounds down, at `now` microseconds
abbrev pub days_left : ℕ → ℕ → ℤ
days_left now expiry =
    let end = expiry * microseconds in
    if leb now end then pos ((end - now) / day) else negsuc ((now - end - 1) / day)

abbrev opt_days : Option ℤ → Value
opt_days none = null
opt_days (some n) = int n

-- `expires_in_days is not None and expires_in_days <= warn_days`
abbrev is_expiring : ℤ → Option ℤ → Bool
is_expiring warn_days none = false
is_expiring warn_days (some n) = leb_ℤ n warn_days

abbrev cert_body : Value → ℤ → Option ℤ → Value
cert_body pem warn_days days = ok (
    object (
      ("ca_cert_pem", pem)
      ∷ ("expires_in_days", opt_days days)
      ∷ ("warning", bool (is_expiring warn_days days))
      ∷ ("warning_days", int warn_days)
      ∷ []))

unfoldable pub system_certs : Expiry → Environ → CertFile → ℕ → Outcome Value
system_certs expiry env absent now = returned (cert_body null (get_cert_warn_days env) none)
system_certs expiry env unreadable now = raised value_error
system_certs expiry env (contents pem) now =
    returned
      (cert_body (str pem) (get_cert_warn_days env) (Option.map (days_left now) (expiry pem)))

abbrev pub rotation_note : String
rotation_note =
    "manual CA rotation trigger; device rotation via cmd rotate_cert (firmware EST, HC-6)"

unfoldable pub rotate_certs : {T : Type 0} → ℕ → Db T → Outcome Value × Db T
rotate_certs now = with_connection do
  rotation_id ← insert_rotation now "triggered" (some rotation_note)
  commit
  pure (
      ok (
        object (
          ("id", int (pos rotation_id))
          ∷ ("status", str "triggered")
          ∷ ("requested_at", int (pos now))
          ∷ ("note", str rotation_note)
          ∷ [])))
