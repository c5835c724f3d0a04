-- ===== src/Bridge/Lifecycle/Laws.antt =====
-- The bridge only consumes, and comes and goes with the application.
use embediq_cloud.Prelude.{◌≡◌, refl, Bool, true, false, arith, if◌then◌else◌}
use embediq_cloud.Outcome.{Outcome, returned, raised, is_returned}
use embediq_cloud.Config.{BridgeSettings}
use embediq_cloud.Mqtt.Client.{
  Fails, Link, Act, messages, subscribe, loop_stop, disconnect, new_client, connect, keep,
  ◌then_do◌,
}
use embediq_cloud.Mqtt.Client.Silent.{
  Silent, Silent-call, Silent-then, Silent-keep, Silent-new_client, Silent-connect, Silent-settings,
}
use embediq_cloud.Bridge.Lifecycle.{
  on_connect, start_bridge, stop_bridge, close, attempted, subscribe_topic, qos,
}

module _ {T : Type 0} (fails : Fails T) where
  Silent-attempted : (m : Act T) → Silent m → Silent (attempted m)
  Silent-attempted m k = record { at = λ link. k.at link }

  Silent-close : Silent (close fails)
  Silent-close =
      Silent-then _ _ (Silent-call fails loop_stop refl) (Silent-call fails disconnect refl)

  stopped-messages :
      (b : Bool) (link l : Link T)
      → messages l.calls ≡ messages link.calls
      → messages (if b then record l { client = false } else link).calls ≡ messages link.calls
  stopped-messages true link l e = e
  stopped-messages false link l e = refl

  stopped-client :
      (b : Bool) (link l : Link T)
      → link.client ≡ b
      → (if b then record l { client = false } else link).client ≡ false
  stopped-client true link l e = refl
  stopped-client false link l e = e

  started :
      (s : BridgeSettings) (r : Outcome (Unit {0})) (link : Link T)
      → is_returned r ≡ true
      → let (o, l) = ((λ l. (r, l)) then_do attempted (connect fails s) then_do keep) link in
        (o ≡ returned tt) × (l.client ≡ true)
  started s (returned v) link e = (refl, refl)
  started s (raised x) link e = absurd (ground (arith, e))

  if_false : {A : Type 0} (b : Bool) (x y : A) → b ≡ false → (if b then x else y) ≡ y
  if_false b x y e = rw e refl

  stop_bridge-messages :
      (link : Link T) → messages (stop_bridge fails link).calls ≡ messages link.calls
  unfolding stop_bridge
  stop_bridge-messages link =
      stopped-messages link.client link (close fails link).1 (Silent-close.at link)

  -- The bridge only consumes: neither its start, nor a connection, nor its stop publishes anything,
  -- whatever the library raises.
  pub bridge_never_publishes :
      (settings : Outcome BridgeSettings) (link : Link T)
      → (messages ((start_bridge fails settings link).1).calls ≡ messages link.calls)
        × (messages ((on_connect fails link).1).calls ≡ messages link.calls)
        × (messages (stop_bridge fails link).calls ≡ messages link.calls)
  unfolding start_bridge on_connect
  bridge_never_publishes settings link = (
    (Silent-settings fails settings _ (λ s.
          Silent-then _ _
            (Silent-then _ _ (Silent-new_client fails s)
              (Silent-attempted (connect fails s) (Silent-connect fails s)))
            Silent-keep)).at
        link,
    (Silent-call fails (subscribe subscribe_topic qos) refl).at link,
    stop_bridge-messages link,
  )

  -- Where the settings can be read and a client can be made, the start succeeds and the client is
  -- kept, also if the connection or its thread raises.
  pub start_bridge_kept :
      (s : BridgeSettings) (link : Link T)
      → is_returned (new_client fails s link).0 ≡ true
      → ((start_bridge fails (returned s) link).0 ≡ returned tt)
        × (((start_bridge fails (returned s) link).1).client ≡ true)
  unfolding start_bridge
  start_bridge_kept s link e = started s (new_client fails s link).0 (new_client fails s link).1 e

  -- After a stop no client is kept, also if the library raises, and a second stop changes nothing.
  pub stop_bridge_idempotent :
      (link : Link T)
      → ((stop_bridge fails link).client ≡ false)
        × (stop_bridge fails (stop_bridge fails link) ≡ stop_bridge fails link)
  unfolding stop_bridge
  stop_bridge_idempotent link =
      let closed : Link T → Link T = λ l. (close fails l).1 in
      let off = stopped-client link.client link (closed link) refl in
      (off, if_false (stop_bridge fails link).client _ (stop_bridge fails link) off)
