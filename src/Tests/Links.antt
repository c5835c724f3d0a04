-- ===== src/Tests/Links.antt =====
-- The clients of the broker, and a point of telemetry that is a record.
use embediq_cloud.Prelude.{◌≡◌, refl, true, false, Option, none, some, [], ◌∷◌, ◌⊎◌}
use embediq_cloud.Prelude.Int.{pos}
use embediq_cloud.Outcome.{returned}
use embediq_cloud.Json.{Value, int, str, Object, object, set}
use embediq_cloud.Mqtt.{Message}
use embediq_cloud.Mqtt.Client.{
  Fails, created, username_pw_set, reconnect_delay_set, connect_async, loop_start, published, Link,
  messages, send, publish_on,
}
use embediq_cloud.Mqtt.Client.Kept.{able, publish_on_lem}
use embediq_cloud.Bridge.Lifecycle.{start_bridge, on_connect, stop_bridge}
use embediq_cloud.Bridge.Lifecycle.Laws.{bridge_never_publishes}
use embediq_cloud.Bridge.Backends.{Points}
use embediq_cloud.Tests.{codec}
use embediq_cloud.Tests.Guards.{bridge, never_fails}

-- a broker's name that cannot be used
abbrev no_connection : Fails (Option Value)
no_connection (connect_async host port) cs = true
no_connection c cs = false

abbrev unused : Link (Option Value)
unused = record { client = false; calls = [] }

publish_on_lem_example :
    let m : Message (Option Value) = record {
      topic = "embediq/door/cmd";
      payload = some (object []);
      qos = 1;
      retain = false;
    } in
    let after =
      publish_on codec no_connection (returned bridge) "embediq/door/cmd" [] false unused in
    (publish_on codec never_fails (returned bridge) "embediq/door/cmd" [] false unused ≡ record {
      client = true;
      calls =
          published m
          ∷ loop_start
          ∷ connect_async "mosquitto" (pos 1883)
          ∷ reconnect_delay_set 1 30
          ∷ username_pw_set "bridge" "pass"
          ∷ created
          ∷ [];
    })
    × ((messages after.calls ≡ []) ⊎ (messages after.calls ≡ m ∷ []))
publish_on_lem_example =
    publish_on_lem codec bridge "embediq/door/cmd" [] false never_fails no_connection
      (returned bridge) unused (λ c cs. refl)

abbrev reboot : Message (Option Value)
reboot = record {
  topic = "embediq/door/cmd";
  payload = codec.dumps (str "reboot");
  qos = 1;
  retain = false;
}

taken : able codec never_fails (returned bridge) unused reboot ≡ true
unfolding send
taken = refl

bridge_never_publishes_example :
    (messages ((start_bridge no_connection (returned bridge) unused).1).calls ≡ [])
    × (messages ((on_connect no_connection unused).1).calls ≡ [])
    × (messages (stop_bridge no_connection unused).calls ≡ [])
bridge_never_publishes_example = bridge_never_publishes no_connection (returned bridge) unused

abbrev Entries : Type 0
Entries = Object × Object × Option Value

abbrev points : Points
points = record {
  Point = Entries;
  point = λ name. ([], [], none);
  tag = λ k v p. (set k (str v) p.0, p.1, p.2);
  field = λ k v p. (p.0, set k v p.1, p.2);
  time = λ t p. (p.0, p.1, some t);
  tags = λ p. p.0;
  field_set = λ p. p.1;
  time_of = λ p. p.2;
  point-tags = λ name. refl;
  point-field_set = λ name. refl;
  point-time_of = λ name. refl;
  tag-tags = λ k v p. refl;
  tag-field_set = λ k v p. refl;
  tag-time_of = λ k v p. refl;
  field-tags = λ k v p. refl;
  field-field_set = λ k v p. refl;
  field-time_of = λ k v p. refl;
  time-tags = λ t p. refl;
  time-field_set = λ t p. refl;
  time-time_of = λ t p. refl;
}

abbrev metrics : Object
metrics = ("temp", int (pos 21)) ∷ ("hum", int (pos 40)) ∷ []
