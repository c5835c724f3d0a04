-- ===== src/Tests/Messages.antt =====
-- The bridge on the small file.
use embediq_cloud.Prelude.{◌≡◌, refl, true, none, some, [], ◌∷◌}
use embediq_cloud.Prelude.Int.{pos}
use embediq_cloud.Outcome.{raised, overflow_error}
use embediq_cloud.Json.{str, int, truthy, bool, Object}
use embediq_cloud.Db.{find_state}
use embediq_cloud.Db.Connection.{bind_text}
use embediq_cloud.Bridge.{handle_status, handle_document, route_message}
use embediq_cloud.Bridge.Status.{find-handle_status}
use embediq_cloud.Bridge.Feedback.{requests_after, requests-handle_status}
use embediq_cloud.Bridge.Errors.{Expected, route_message-Expected, handle_status_overflows}
use embediq_cloud.Bridge.Topic.{route_message-device_topic}
use embediq_cloud.Hawkbit.{Server, unreadable_url}
use embediq_cloud.Tests.{codec, hawkbit, both_ready, home_world}

abbrev online : Object
online = ("online", bool true) ∷ ("firmware_version", str "1.2") ∷ []

abbrev huge : Object
huge = ("ip_address", int (pos 9223372036854775808)) ∷ []

find-handle_status_example :
    find_state "lamp" ((handle_status codec hawkbit both_ready 9 "lamp" online home_world).1).db
    ≡ some (record {
      device_id = "lamp";
      online = 1;
      last_seen = some 9;
      ip_address = some "10.0.0.7";
      firmware_version = some "1.2";
    })
unfolding bind_text truthy
find-handle_status_example =
    find-handle_status codec hawkbit both_ready 9 "lamp" online home_world _ none (some "1.2") none
      refl refl refl refl

requests-handle_status_example :
    let (r, w) = handle_status codec hawkbit both_ready 9 "lamp" online home_world in
    w.requests ≡ requests_after codec hawkbit "lamp" online r []
requests-handle_status_example =
    requests-handle_status codec hawkbit both_ready 9 "lamp" online home_world

route_message-Expected_example :
    Expected (route_message codec hawkbit both_ready 9 "embediq/lamp/status" none home_world).0
route_message-Expected_example =
    route_message-Expected codec hawkbit both_ready home_world 9 "embediq/lamp/status" none

handle_status_overflows_example :
    handle_status codec hawkbit both_ready 9 "lamp" huge home_world
    ≡ (raised overflow_error, home_world)
handle_status_overflows_example =
    handle_status_overflows codec hawkbit both_ready home_world 9 "lamp" huge
      (pos 9223372036854775808) refl refl

route_message-device_topic_example :
    route_message codec hawkbit both_ready 9 "embediq/lamp/state/reported" none home_world
    ≡ handle_document codec hawkbit both_ready 9 "lamp" "state/reported" none home_world
route_message-device_topic_example =
    route_message-device_topic codec hawkbit both_ready 9 none "lamp" "state/reported" home_world
      (refl, (refl, (refl, (refl, tt))))

-- a server whose URLs cannot be read
abbrev no_url : Server
no_url r log = unreadable_url

abbrev updated : Object
updated = ("ota_status", str "installed") ∷ []
