-- ===== src/Config/Fields.antt =====
-- What the settings are, for every environment.
use embediq_cloud.Prelude.{
  String, ◌≡◌, refl, true, arith, Option, Option-cases, none, some, inl, inr, ◌+++◌,
}
use embediq_cloud.Prelude.Int.{pos}
use embediq_cloud.Outcome.{Outcome, returned, raised, configuration_error}
use embediq_cloud.Config.{Environ, getenv, Settings, get_settings, get_internal_api_key}
use embediq_cloud.Config.Classes.{
  Pydantic, default_db_path, db_path, settings_of, settings_class, get_hawkbit_settings,
  get_bridge_settings,
}

-- the settings, or the names of the credentials that are not set
abbrev pub settings_answer : Environ → Option String → Option String → Outcome Settings
settings_answer env (some pass_hash) (some secret) = returned (record {
  admin_user = getenv env "ADMIN_USER" "admin";
  admin_pass_hash = pass_hash;
  jwt_secret = secret;
  db_path = db_path env;
})
settings_answer env none (some secret) = raised (
    configuration_error (
      "Missing/invalid required configuration: ADMIN_PASS_HASH. "
      +++ "Set ADMIN_PASS_HASH and JWT_SECRET (see .env.example / run ./install.sh)."))
settings_answer env (some pass_hash) none = raised (
    configuration_error (
      "Missing/invalid required configuration: JWT_SECRET. "
      +++ "Set ADMIN_PASS_HASH and JWT_SECRET (see .env.example / run ./install.sh)."))
settings_answer env none none = raised (
    configuration_error (
      "Missing/invalid required configuration: ADMIN_PASS_HASH, JWT_SECRET. "
      +++ "Set ADMIN_PASS_HASH and JWT_SECRET (see .env.example / run ./install.sh)."))

module _ (P : Pydantic) (env : Environ) where
  -- a field with a default is the variable, or the default
  text-default :
      (name default : String) → P.text env name (some default) ≡ some (getenv env name default)
  text-default name default = elim (Option-cases (env name)) [
    | inl n ↦ ground (arith, n, P.text-unset env name (some default) n)
    | inr (s, n) ↦ ground (arith, n, P.text-set env name s (some default) n)
  ]

  -- a field without one is the variable
  text-required : (name : String) → P.text env name none ≡ env name
  text-required name = elim (Option-cases (env name)) [
    | inl n ↦ ground (arith, n, P.text-unset env name none n)
    | inr (s, n) ↦ ground (arith, n, P.text-set env name s none n)
  ]

  settings_class_lem :
      settings_class P env
      ≡ settings_of P
          (some (getenv env "ADMIN_USER" "admin"))
          (env "ADMIN_PASS_HASH")
          (env "JWT_SECRET")
          (some (db_path env))
  unfolding settings_class
  settings_class_lem = simp (
    text-default "ADMIN_USER" "admin",
    text-default "DB_PATH" default_db_path,
    text-required "ADMIN_PASS_HASH",
    text-required "JWT_SECRET",
  )

  get_settings-answer :
      (h j : Option String)
      → settings_class P env
        ≡ settings_of P (some (getenv env "ADMIN_USER" "admin")) h j (some (db_path env))
      → (get_settings (settings_class P) env none).0 ≡ settings_answer env h j
  unfolding get_settings
  get_settings-answer none none e = rw (e, get_settings) refl
  get_settings-answer none (some j) e = rw (e, get_settings) refl
  get_settings-answer (some h) none e = rw (e, get_settings) refl
  get_settings-answer (some h) (some j) e = rw (e, get_settings) refl

  -- The first call of `get_settings` succeeds exactly where ADMIN_PASS_HASH and JWT_SECRET are
  -- set, to whatever text: the other two fields have their defaults where they are not set.
  -- Elsewhere it raises a RuntimeError whose message is written out, and names the variables that
  -- are not set, in this order.
  pub get_settings_lem :
      (get_settings (settings_class P) env none).0
      ≡ settings_answer env (env "ADMIN_PASS_HASH") (env "JWT_SECRET")
  get_settings_lem =
      get_settings-answer (env "ADMIN_PASS_HASH") (env "JWT_SECRET") settings_class_lem

  -- The settings of Hawkbit can always be read, and hold the same INTERNAL_API_KEY as
  -- `get_internal_api_key` gives.
  get_hawkbit_settings_lem :
      get_hawkbit_settings P env
      ≡ returned (record {
        hawkbit_url = getenv env "HAWKBIT_URL" "http://hawkbit:8080";
        hawkbit_user = getenv env "HAWKBIT_USER" "admin";
        hawkbit_admin_pass = getenv env "HAWKBIT_ADMIN_PASS" "";
        internal_api_key = get_internal_api_key env;
      })
  unfolding get_hawkbit_settings get_internal_api_key
  get_hawkbit_settings_lem = simp (
    text-default "HAWKBIT_URL" "http://hawkbit:8080",
    text-default "HAWKBIT_USER" "admin",
    text-default "HAWKBIT_ADMIN_PASS" "",
    text-default "INTERNAL_API_KEY" "",
  )

  -- Where neither BRIDGE_ENABLED nor MQTT_PORT is set, the settings of the bridge can be read: it is
  -- enabled, on port 1883, and its texts are their variables or their defaults.
  get_bridge_settings_lem :
      env "BRIDGE_ENABLED" ≡ none
      → env "MQTT_PORT" ≡ none
      → get_bridge_settings P env
        ≡ returned (record {
          bridge_enabled = true;
          mqtt_host = getenv env "MQTT_HOST" "mosquitto";
          mqtt_port = pos 1883;
          mqtt_username = getenv env "MQTT_USERNAME" "";
          mqtt_password = getenv env "MQTT_PASSWORD" "";
          influx_url = getenv env "INFLUX_URL" "http://influxdb:8086";
          influx_token = getenv env "INFLUX_TOKEN" "";
          influx_org = getenv env "INFLUX_ORG" "embediq";
          influx_bucket = getenv env "INFLUX_BUCKET" "telemetry";
          loki_url = getenv env "LOKI_URL" "http://loki:3100";
        })
  unfolding get_bridge_settings
  get_bridge_settings_lem flag port = simp (
    P.flag-unset env "BRIDGE_ENABLED" true flag,
    P.integer-unset env "MQTT_PORT" (pos 1883) port,
    text-default "MQTT_HOST" "mosquitto",
    text-default "MQTT_USERNAME" "",
    text-default "MQTT_PASSWORD" "",
    text-default "INFLUX_URL" "http://influxdb:8086",
    text-default "INFLUX_TOKEN" "",
    text-default "INFLUX_ORG" "embediq",
    text-default "INFLUX_BUCKET" "telemetry",
    text-default "LOKI_URL" "http://loki:3100",
  )
