-- ===== src/Mqtt/Client.antt =====
-- The client of paho that app/mqtt_pub.py and app/bridge.py each make: the calls on it, and
-- `_get_client` and `publish` of app/mqtt_pub.py with the client that they keep.
pub mod Silent
pub mod Kept
use embediq_cloud.Prelude.{
  ℕ, String, ◌==◌, Bool, true, false, Option, none, some, List, [], ◌∷◌, ◌++◌, if◌then◌else◌,
}
use embediq_cloud.Prelude.Int.{ℤ}
use embediq_cloud.Outcome.{Error, Outcome, returned, raised, runtime_error}
use embediq_cloud.Json.{Object, object, Codec}
use embediq_cloud.Config.{BridgeSettings}
use embediq_cloud.Mqtt.{Message}

-- a call on a client; `created` is its construction
pub data ClientCall (T : Type 0) : Type 0 where
  created : ClientCall T
  username_pw_set : (username password : String) → ClientCall T
  reconnect_delay_set : (min_delay max_delay : ℕ) → ClientCall T
  connect_async : (host : String) (port : ℤ) → ClientCall T
  loop_start loop_stop disconnect : ClientCall T
  subscribe : (topic : String) (qos : ℕ) → ClientCall T
  published : Message T → ClientCall T

-- Whether a call raises after the calls before it, the newest first.
abbrev pub Fails : Type 0 → Type 0
Fails T = ClientCall T → List (ClientCall T) → Bool

-- What a module keeps: whether its `_client` is set, and the calls that returned, the newest first.
pub record Link (T : Type 0) : Type 0 where
  pub client : Bool
  pub calls : List (ClientCall T)

abbrev pub Act : Type 0 → Type 0
Act T = Link T → Outcome (Unit {0}) × Link T

-- the messages among the calls, the newest last
abbrev pub messages : {T : Type 0} → List (ClientCall T) → List (Message T)
messages [] = []
messages (published m ∷ cs) = messages cs ++ m ∷ []
messages (c ∷ cs) = messages cs

module _ {T : Type 0} where
  abbrev pub skip : Act T
  skip link = (returned tt, link)

  infixl 10 ◌then_do◌
  abbrev pub ◌then_do◌ : Act T → Act T → Act T
  ◌then_do◌ m k link =
      let (r, link') = m link in elim r [ returned _ ↦ k link' | raised e ↦ (raised e, link') ]

  -- `_client = client`
  abbrev pub keep : Act T
  keep link = (returned tt, record link { client = true })

module _ {T : Type 0} (fails : Fails T) where
  abbrev pub call : ClientCall T → Act T
  call c link =
      if fails c link.calls
      then (raised runtime_error, link)
      else (returned tt, record link { calls = c ∷ link.calls })

  -- `if settings.MQTT_USERNAME: client.username_pw_set(...)`
  abbrev pub set_credentials : BridgeSettings → Act T
  set_credentials s =
      if s.mqtt_username == "" then skip else call (username_pw_set s.mqtt_username s.mqtt_password)

  -- a new client up to its first connection
  abbrev pub new_client : BridgeSettings → Act T
  new_client s = call created then_do set_credentials s then_do call (reconnect_delay_set 1 30)

  abbrev pub connect : BridgeSettings → Act T
  connect s = call (connect_async s.mqtt_host s.mqtt_port) then_do call loop_start

  abbrev pub with_settings : Outcome BridgeSettings → (BridgeSettings → Act T) → Act T
  with_settings (returned s) f link = f s link
  with_settings (raised e) f link = (raised e, link)

  -- `settings` is `get_bridge_settings()`
  abbrev pub make_client : Outcome BridgeSettings → Act T
  make_client settings = with_settings settings (λ s. new_client s then_do connect s then_do keep)

  unfoldable pub get_client : Outcome BridgeSettings → Act T
  get_client settings link = if link.client then (returned tt, link) else make_client settings link

module _ (C : Codec) (fails : Fails C.Text) where
  -- the body of the `try` of `publish`
  unfoldable pub send : Outcome BridgeSettings → Message C.Text → Act C.Text
  unfolding get_client
  send settings m = get_client fails settings then_do call fails (published m)

  -- `publish`: what is raised is caught
  unfoldable pub publish_on :
      Outcome BridgeSettings → String → Object → Bool → Link C.Text → Link C.Text
  unfolding send
  publish_on settings topic payload retain link =
      (send settings
        (record { topic = topic; payload = C.dumps (object payload); qos = 1; retain = retain })
        link).1
