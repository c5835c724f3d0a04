-- ===== src/Lifespan.antt =====
-- `lifespan` of app/main.py: what happens around the serving of requests.
pub mod Closed
use embediq_cloud.Prelude.{ℕ, Bool, true, false, if◌then◌else◌}
use embediq_cloud.Outcome.{Outcome, returned, raised}
use embediq_cloud.Config.{Environ, BridgeSettings, assert_internal_key_in_prod}
use embediq_cloud.Db.{Db, init_db}
use embediq_cloud.Mqtt.Client.{Fails, Link}
use embediq_cloud.Bridge.Lifecycle.{start_bridge, stop_bridge}

-- the file, and the bridge's client
pub record Process (T : Type 0) : Type 0 where
  pub file : Db T
  pub bridge : Link T

module _ {T : Type 0} (fails : Fails T) where
  -- `if get_bridge_settings().BRIDGE_ENABLED: bridge.start_bridge()`
  abbrev pub start_if_enabled : Outcome BridgeSettings → Process T → Outcome (Unit {0}) × Process T
  start_if_enabled (raised e) p = (raised e, p)
  start_if_enabled (returned s) p =
      if s.bridge_enabled
      then (let (r, link) = start_bridge fails (returned s) p.bridge in
          (r, record p { bridge = link }))
      else (returned tt, p)

  -- before the `yield`; `settings` is what the environment gives `get_bridge_settings()`
  unfoldable pub startup :
      Environ → Outcome BridgeSettings → ℕ → Process T → Outcome (Unit {0}) × Process T
  startup env settings now p = elim (assert_internal_key_in_prod env) [
    | raised e ↦ (raised e, p)
    | returned _ ↦ start_if_enabled settings (record p { file = init_db now p.file })
  ]

  -- the `finally`
  unfoldable pub shutdown : Process T → Process T
  shutdown p = record p { bridge = stop_bridge fails p.bridge }
