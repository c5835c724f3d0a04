-- ===== src/Bridge/Lifecycle.antt =====
-- The connection of app/bridge.py to the broker: start, subscription and stop.
pub mod Laws
use embediq_cloud.Prelude.{ℕ, String, Bool, true, false, List, [], ◌∷◌, if◌then◌else◌}
use embediq_cloud.Outcome.{Outcome, returned, raised}
use embediq_cloud.Config.{BridgeSettings}
use embediq_cloud.Mqtt.Client.{
  Fails, Link, Act, ◌then_do◌, keep, call, new_client, connect, with_settings, subscribe, loop_stop,
  disconnect,
}

-- SUBSCRIBE_TOPIC and QOS
abbrev pub subscribe_topic : String
subscribe_topic = "embediq/+/#"

abbrev pub qos : ℕ
qos = 1

-- `except Exception`
abbrev pub attempted : {T : Type 0} → Act T → Act T
attempted m link = (returned tt, (m link).1)

module _ {T : Type 0} (fails : Fails T) where
  -- `_on_connect`
  unfoldable pub on_connect : Act T
  on_connect = call fails (subscribe subscribe_topic qos)

  -- `settings` is `get_bridge_settings()`. The callbacks are set without a call.
  unfoldable pub start_bridge : Outcome BridgeSettings → Act T
  start_bridge settings =
      with_settings fails settings
        (λ s. new_client fails s then_do attempted (connect fails s) then_do keep)

  abbrev close : Act T
  close = call fails loop_stop then_do call fails disconnect

  unfoldable pub stop_bridge : Link T → Link T
  stop_bridge link = if link.client then record ((close link).1) { client = false } else link
