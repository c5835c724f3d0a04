-- ===== src/Tests/Guards.antt =====
-- Requests with and without credentials, and operations on the fleet.
use embediq_cloud.Prelude.{
  ◌≡◌, ◌⊎◌, refl, ◌==◌, true, false, Option, none, some, is_some, List, [], if◌then◌else◌, ◌∷◌,
  arith,
}
use embediq_cloud.Prelude.Int.{pos}
use embediq_cloud.Bridge.Lifecycle.{start_bridge}
use embediq_cloud.Outcome.{returned, is_returned}
use embediq_cloud.Json.{Value, str}
use embediq_cloud.Envelope.{error_body, Response}
use embediq_cloud.Config.{
  Environ, BridgeSettings, assert_internal_key_in_prod, is_production, get_internal_api_key,
  get_settings,
}
use embediq_cloud.Db.{new_file}
use embediq_cloud.Db.Readable.{IsReadable}
use embediq_cloud.Api.{
  Moment, devices_get, device_get, device_post, acl_post, answer, serve, settings,
}
use embediq_cloud.Auth.DeviceAuth.{InternalAclRequest}
use embediq_cloud.Auth.Admin.{require_admin, decode_token}
use embediq_cloud.Api.Guarded.{HasToken, HasKey, IsRefused, admin_endpoints}
use embediq_cloud.Api.Envelopes.{IsEnvelope, answer-IsEnvelope}
use embediq_cloud.Mqtt.Client.{Fails}
use embediq_cloud.Lifespan.{Process, startup}
use embediq_cloud.Lifespan.Closed.{started_guards_internal}
use embediq_cloud.System.{System, started}
use embediq_cloud.System.Run.{here, next, served}
use embediq_cloud.System.Answers.{Reach-answered}
use embediq_cloud.Fleet.{fleet}
use embediq_cloud.Fleet.Refinement.{
  Operation, post, delete, ungroup, desire, report, perform_all, specified_all, AreAllowed,
  fleet-perform_all,
}
use embediq_cloud.Tests.{codec, bcrypt, takes_all, both_ready, door, home, home-IsValid}
use embediq_cloud.Tests.Tokens.{settings as settings_of_tests}
use embediq_cloud.Tests.Runs.{host, moment, signed, unsigned, served_by}

admin_endpoints_example :
    HasToken host (moment 6) signed (started 0)
    ⊎ IsRefused host (moment 6) signed (started 0) (device_post door)
admin_endpoints_example = admin_endpoints host (moment 6) signed (started 0) (device_post door) tt

abbrev registered : System (Option Value)
registered = served_by 6 (device_post door) (started 0)

settings_found : (settings host (moment 7) registered).0 ≡ returned settings_of_tests
unfolding serve get_settings require_admin decode_token
settings_found = refl

Reach-answered_example :
    is_some (answer host (moment 7) signed (device_get "door") registered) ≡ true
Reach-answered_example =
    Reach-answered host both_ready 0 registered (moment 7) signed (device_get "door")
      settings_of_tests (next here (served (moment 6) signed (device_post door))) refl
      settings_found

abbrev refusal : Response
refusal = record { status = 401; body = error_body 401 "missing or malformed Authorization header" }

unsigned_refused : answer host (moment 6) unsigned devices_get (started 0) ≡ some refusal
unfolding answer serve require_admin error_body
unsigned_refused = refl

answer-IsEnvelope_example : IsEnvelope devices_get refusal
answer-IsEnvelope_example =
    answer-IsEnvelope host (moment 6) unsigned devices_get (started 0) refusal
      (λ e. ground (arith, e)) unsigned_refused

abbrev pub never_fails : Fails (Option Value)
never_fails c cs = false

abbrev idle : Process (Option Value)
idle = record { file = new_file; bridge = record { client = false; calls = [] } }

abbrev in_production : Environ
in_production name = if name == "EMBEDIQ_PROFILE" then some " Prod" else none

is_prod : is_production in_production ≡ true
unfolding is_production
is_prod = refl

no_key : get_internal_api_key in_production ≡ ""
unfolding get_internal_api_key
no_key = refl

pub home-IsReadable : IsReadable codec home
home-IsReadable = record { attributes = (refl, tt); shadows = ((refl, refl), tt) }

abbrev requests : List Operation
requests =
    post 5 "salt" door
    ∷ desire 6 "door" (("level", str "low") ∷ [])
    ∷ desire 7 "gate" []
    ∷ report 8 "door" (("level", str "high") ∷ [])
    ∷ ungroup "hall"
    ∷ delete "lamp"
    ∷ []

fleet-perform_all_example :
    (fleet codec (perform_all codec bcrypt takes_all requests home).1
      ≡ specified_all (perform_all codec bcrypt takes_all requests home).0 (fleet codec home))
    × AreAllowed codec bcrypt takes_all requests home
fleet-perform_all_example =
    fleet-perform_all codec bcrypt takes_all requests home home-IsValid home-IsReadable

abbrev keyed : Environ
keyed name =
    if name == "EMBEDIQ_PROFILE"
    then some "production"
    else if name == "INTERNAL_API_KEY"
    then some "k"
    else none

abbrev keyed_moment : Moment
keyed_moment = record (moment 8) { env = keyed }

keyed_is_prod : is_production keyed ≡ true
unfolding is_production
keyed_is_prod = refl

abbrev pub bridge : BridgeSettings
bridge = record {
  bridge_enabled = true;
  mqtt_host = "mosquitto";
  mqtt_port = pos 1883;
  mqtt_username = "bridge";
  mqtt_password = "pass";
  influx_url = "http://influxdb:8086";
  influx_token = "";
  influx_org = "embediq";
  influx_bucket = "telemetry";
  loki_url = "http://loki:3100/";
}

keyed_starts : is_returned (startup never_fails keyed (returned bridge) 0 idle).0 ≡ true
unfolding startup start_bridge assert_internal_key_in_prod
keyed_starts = refl

abbrev no_acl : InternalAclRequest
no_acl = record { username = none; topic = none; acc = none; clientid = none }

started_guards_internal_example :
    HasKey host keyed_moment unsigned (started 0)
    ⊎ IsRefused host keyed_moment unsigned (started 0) (acl_post no_acl)
started_guards_internal_example =
    started_guards_internal host never_fails (returned bridge) 0 idle keyed_moment unsigned
      (started 0) (acl_post no_acl) keyed_starts keyed_is_prod tt
