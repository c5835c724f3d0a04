-- ===== src/Auth/DeviceAuth/Enrolment.antt =====
-- What registering and deleting a device means for its login at the broker.
use embediq_cloud.Prelude.{ℕ, ◌≡◌, ◌≢◌, ◌<◌, refl, String, some, none, count, arith}
use embediq_cloud.Outcome.{returned}
use embediq_cloud.Json.{Value, Codec}
use embediq_cloud.Db.{Db}
use embediq_cloud.Password.{Bcrypt}
use embediq_cloud.Registry.Devices.{DeviceCreate, post_device, delete_device}
use embediq_cloud.Registry.Devices.Rows.{find-post_device, find-delete_device}
use embediq_cloud.Auth.RateLimit.{Failures, failures_of, is_recent}
use embediq_cloud.Auth.DeviceAuth.{BridgeCredential, internal_auth, allow}
use embediq_cloud.Auth.DeviceAuth.Verdict.{by_bridge, by_cert, by_password, internal_auth-allow_iff}

module _ (C : Codec) (B : Bcrypt) (bridge : BridgeCredential) where
  -- A device that was registered with a password, neither the id nor the password empty, logs in
  -- with this id and password alone from a source that is not throttled.
  pub internal_auth-post_device :
      (created now later : ℕ) (salt source password : String) (body : DeviceCreate) (db : Db C.Text)
      (f : Failures) (reply : Value)
      → body.id ≢ ""
      → body.password ≡ some password
      → password ≢ ""
      → (post_device C B created salt body db).0 ≡ returned reply
      → count (is_recent now) (failures_of source f) < 10
      → (internal_auth B bridge now later source
          (record { username = some body.id; password = some password; cert_cn = none })
          (post_device C B created salt body db).1
          f).0
        ≡ allow
  internal_auth-post_device created now later salt source password body db f reply named given ne
        done few =
      let (hash, d, e, stored, found) =
        find-post_device C B created salt password body db reply given ne done in
      (internal_auth-allow_iff B bridge
          (record { username = some body.id; password = some password; cert_cn = none })
          (post_device C B created salt body db).1 now later source f few).1
        (by_password body.id password hash d refl named refl ne found stored
          (B.hashpw-ne-nil password salt hash e) (B.checkpw-hashpw password salt hash e))

  -- After DELETE of an id that is not the bridge's own user, no password without a certificate logs in
  -- under this id from a source that is not throttled.
  internal_auth-delete_device :
      (k password source : String) (now later : ℕ) (db : Db C.Text) (f : Failures)
      → bridge.user ≢ some k
      → count (is_recent now) (failures_of source f) < 10
      → (internal_auth B bridge now later source
          (record { username = some k; password = some password; cert_cn = none })
          (delete_device C k db).1
          f).0
        ≢ allow
  internal_auth-delete_device k password source now later db f other few e =
      elim ((internal_auth-allow_iff B bridge
          (record { username = some k; password = some password; cert_cn = none })
          (delete_device C k db).1 now later source f few).0
        e) [
          | by_bridge u p eu nu ep np gu gp ↦ other (ground (arith, eu, gu))
          | by_cert cn e n h ↦ cc
          | by_password u p hash d eu nu ep np g eh nh c ↦
              absurd (ground (arith, eu, g, find-delete_device C k db))
        ]
