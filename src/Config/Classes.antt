-- ===== src/Config/Classes.antt =====
-- The three classes of app/config.py that pydantic-settings fills from the environment, and `db_path`
-- of app/db.py. How the library reads a field is a parameter, with what its documentation says of a
-- variable that is set and of one that is not. The names are compared with their case.
use embediq_cloud.Prelude.{String, ◌≡◌, Bool, true, Option, none, some, List, [], ◌∷◌, ◌++◌}
use embediq_cloud.Prelude.Int.{ℤ, pos}
use embediq_cloud.Outcome.{Outcome, returned, value_error, or_raise, ◌>>=◌}
use embediq_cloud.Config.{Environ, getenv, Validated, valid, invalid, BridgeSettings}

-- `none` is an error of the field: it is required and not set, or its text has no value of the type.
pub record Pydantic : Type 0 where
  pub text : Environ → String → Option String → Option String
  pub flag : Environ → String → Bool → Option Bool
  pub integer : Environ → String → ℤ → Option ℤ
  pub text-set :
      (env : Environ) (name s : String) (default : Option String)
      → env name ≡ some s
      → text env name default ≡ some s
  pub text-unset :
      (env : Environ) (name : String) (default : Option String)
      → env name ≡ none
      → text env name default ≡ default
  pub flag-unset :
      (env : Environ) (name : String) (b : Bool) → env name ≡ none → flag env name b ≡ some b
  pub integer-unset :
      (env : Environ) (name : String) (n : ℤ) → env name ≡ none → integer env name n ≡ some n

pub record HawkbitSettings : Type 0 where
  pub hawkbit_url : String
  pub hawkbit_user : String
  pub hawkbit_admin_pass : String
  pub internal_api_key : String

abbrev pub default_db_path : String
default_db_path = "/data/embediq.db"

-- `db_path` of app/db.py
abbrev pub db_path : Environ → String
db_path env = getenv env "DB_PATH" default_db_path

-- the name of a field that has an error
abbrev pub named : String → Option String → List String
named name none = name ∷ []
named name (some s) = []

module _ (P : Pydantic) where
  abbrev pub settings_of : (user pass_hash secret path : Option String) → Validated
  settings_of (some user) (some pass_hash) (some secret) (some path) = valid (record {
    admin_user = user;
    admin_pass_hash = pass_hash;
    jwt_secret = secret;
    db_path = path;
  })
  settings_of user pass_hash secret path = invalid (
      named "ADMIN_USER" user
      ++ named "ADMIN_PASS_HASH" pass_hash
      ++ named "JWT_SECRET" secret
      ++ named "DB_PATH" path)

  -- `Settings()`
  unfoldable pub settings_class : Environ → Validated
  settings_class env =
      settings_of (P.text env "ADMIN_USER" (some "admin")) (P.text env "ADMIN_PASS_HASH" none)
        (P.text env "JWT_SECRET" none) (P.text env "DB_PATH" (some default_db_path))

  -- a field of a class whose ValidationError, a ValueError, is not caught
  abbrev pub read_text : Environ → String → String → Outcome String
  read_text env name default = or_raise (P.text env name (some default)) value_error

  unfoldable pub get_hawkbit_settings : Environ → Outcome HawkbitSettings
  get_hawkbit_settings env = do
    url ← read_text env "HAWKBIT_URL" "http://hawkbit:8080"
    user ← read_text env "HAWKBIT_USER" "admin"
    pass ← read_text env "HAWKBIT_ADMIN_PASS" ""
    key ← read_text env "INTERNAL_API_KEY" ""
    returned (record {
      hawkbit_url = url;
      hawkbit_user = user;
      hawkbit_admin_pass = pass;
      internal_api_key = key;
    })

  -- read anew by every call
  unfoldable pub get_bridge_settings : Environ → Outcome BridgeSettings
  get_bridge_settings env = do
    enabled ← or_raise (P.flag env "BRIDGE_ENABLED" true) value_error
    host ← read_text env "MQTT_HOST" "mosquitto"
    port ← or_raise (P.integer env "MQTT_PORT" (pos 1883)) value_error
    username ← read_text env "MQTT_USERNAME" ""
    password ← read_text env "MQTT_PASSWORD" ""
    url ← read_text env "INFLUX_URL" "http://influxdb:8086"
    token ← read_text env "INFLUX_TOKEN" ""
    org ← read_text env "INFLUX_ORG" "embediq"
    bucket ← read_text env "INFLUX_BUCKET" "telemetry"
    loki_url ← read_text env "LOKI_URL" "http://loki:3100"
    returned (record {
      bridge_enabled = enabled;
      mqtt_host = host;
      mqtt_port = port;
      mqtt_username = username;
      mqtt_password = password;
      influx_url = url;
      influx_token = token;
      influx_org = org;
      influx_bucket = bucket;
      loki_url = loki_url;
    })
