-- ===== src/Tests/Runs.antt =====
-- A run of the application: the administrator registers a device, it sends its status, the process
-- restarts, and the device's shadow is patched.
use embediq_cloud.Prelude.{ℕ, true, Option, none, some, [], ◌∷◌}
use embediq_cloud.Json.{Value, bool, str, Object, object}
use embediq_cloud.Db.{init_db}
use embediq_cloud.Config.{valid}
use embediq_cloud.Registry.Maintenance.{absent}
use embediq_cloud.Bridge.{on_message}
use embediq_cloud.Api.{Host, Moment, Headers, Endpoint, device_post, desired_patch, serve}
use embediq_cloud.System.{System, started}
use embediq_cloud.System.Run.{here, next, restarted, served, delivered}
use embediq_cloud.System.Invariant.{Reach-IsSound}
use embediq_cloud.Api.Sound.{IsSound}
use embediq_cloud.Tests.{codec, bcrypt, hawkbit, takes_all, both_ready, door}
use embediq_cloud.Tests.Tokens.{jwt, settings}

abbrev pub host : Host
host = record {
  codec = codec;
  bcrypt = bcrypt;
  jwt = jwt;
  server = hawkbit;
  expiry = λ pem. none;
  validate = λ env. valid settings;
  takes = takes_all;
}

abbrev pub moment : ℕ → Moment
moment t = record {
  env = λ name. none;
  cert = absent;
  seconds = t;
  now = t;
  later = t;
  uptime = t;
  salt = "salt";
}

abbrev pub signed : Headers
signed = record { authorization = some "Bearer aa.bb.cc"; x_internal_key = none; user_agent = none }

abbrev pub unsigned : Headers
unsigned = record { authorization = none; x_internal_key = none; user_agent = none }

abbrev pub served_by : ℕ → Endpoint → System (Option Value) → System (Option Value)
served_by t e s = (serve host (moment t) signed e s).1

abbrev colour : Object
colour = ("colour", str "red") ∷ []

abbrev status : Value
status = object (("online", bool true) ∷ [])

abbrev registered : System (Option Value)
registered = served_by 6 (device_post door) (started 0)

abbrev online : System (Option Value)
online = record registered {
  world =
      on_message codec hawkbit both_ready 9 "embediq/door/status" (some status) registered.world;
}

abbrev again : System (Option Value)
again = record online {
  world = record (online.world) { db = init_db 10 (online.world).db };
  failures = [];
  cached = none;
}

abbrev coloured : System (Option Value)
coloured = served_by 12 (desired_patch "door" colour) again

Reach-IsSound_example : IsSound codec coloured
Reach-IsSound_example = Reach-IsSound host both_ready 0 coloured (
    next
      (next
        (next (next here (served (moment 6) signed (device_post door)))
          (delivered 9 "embediq/door/status" (some status)))
        (restarted 10))
      (served (moment 12) signed (desired_patch "door" colour)))
