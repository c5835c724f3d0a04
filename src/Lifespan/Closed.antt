-- ===== src/Lifespan/Closed.antt =====
-- The application fails closed, and leaves no client behind.
use embediq_cloud.Prelude.{
  ℕ, String, ◌==◌, ◌≡◌, ◌≢◌, ◌⊎◌, refl, ap, Bool, true, false, arith, ◌&&◌, if◌then◌else◌,
}
use embediq_cloud.Outcome.{Outcome, returned, raised, configuration_error, is_returned}
use embediq_cloud.Config.{
  Environ, BridgeSettings, assert_internal_key_in_prod, is_production, get_internal_api_key,
  key_message,
}
use embediq_cloud.Mqtt.Client.{Fails}
use embediq_cloud.Bridge.Lifecycle.Laws.{stop_bridge_idempotent}
use embediq_cloud.System.{System}
use embediq_cloud.Api.{Host, Moment, Headers, Endpoint}
use embediq_cloud.Api.Guarded.{HasKey, IsRefused, IsForServices, internal_endpoints}
use embediq_cloud.Lifespan.{Process, startup, shutdown}

refused :
    {A : Type 0} (b : Bool) (key : String) (a : A)
    → b ≡ true
    → key ≡ ""
    → (if b && (key == "") then raised (configuration_error key_message) else returned a)
      ≡ raised (configuration_error key_message)
refused b key a e k = rw (e, k) refl

assert_key_refuses :
    (env : Environ)
    → is_production env ≡ true
    → get_internal_api_key env ≡ ""
    → assert_internal_key_in_prod env ≡ raised (configuration_error key_message)
unfolding assert_internal_key_in_prod
assert_key_refuses env prod key = refused (is_production env) (get_internal_api_key env) tt prod key

module _ {T : Type 0} (fails : Fails T) (env : Environ) (settings : Outcome BridgeSettings)
    (now : ℕ) (p : Process T) where
  -- Under the production profile without a key, the start raises before it touches anything.
  startup_fails_closed :
      is_production env ≡ true
      → get_internal_api_key env ≡ ""
      → startup fails env settings now p ≡ (raised (configuration_error key_message), p)
  unfolding startup
  startup_fails_closed prod key = rw (startup, assert_key_refuses env prod key) refl

  started-has_key :
      is_returned (startup fails env settings now p).0 ≡ true
      → is_production env ≡ true
      → get_internal_api_key env ≢ ""
  started-has_key done prod key = ground (arith, done, startup_fails_closed prod key)

-- An application that has started under the production profile guards the endpoints for the broker
-- and for Hawkbit, for as long as the environment stays: where the key is in neither header, the
-- answer is no success, and the file, the requests to other services, the messages and the failed
-- validations stay as they are.
pub started_guards_internal :
    (h : Host) (fails : Fails (h.codec).Text) (settings : Outcome BridgeSettings) (now : ℕ)
    (p : Process (h.codec).Text) (m : Moment) (headers : Headers) (s : System (h.codec).Text)
    (e : Endpoint)
    → is_returned (startup fails m.env settings now p).0 ≡ true
    → is_production m.env ≡ true
    → IsForServices e
    → HasKey h m headers s ⊎ IsRefused h m headers s e
started_guards_internal h fails settings now p m headers s e done prod g =
    internal_endpoints h m headers s e g (started-has_key fails m.env settings now p done prod)

-- After the shutdown no client of the bridge is kept, and a second shutdown changes nothing.
pub shutdown_lem :
    {T : Type 0} (fails : Fails T) (p : Process T)
    → (((shutdown fails p).bridge).client ≡ false)
      × (shutdown fails (shutdown fails p) ≡ shutdown fails p)
unfolding shutdown
shutdown_lem fails p =
    let (off, same) = stop_bridge_idempotent fails p.bridge in
    (off, ap (λ link. record p { bridge = link }) same)
