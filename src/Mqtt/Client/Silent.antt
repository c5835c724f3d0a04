-- ===== src/Mqtt/Client/Silent.antt =====
-- Actions on a client that send no message, one rule for each way to build an action.
use embediq_cloud.Prelude.{
  arith, List, ◌∷◌, ◌≡◌, refl, Bool, true, false, Bool-cases, inl, inr, ◌∙◌, if◌then◌else◌,
}
use embediq_cloud.Outcome.{Outcome, returned, raised}
use embediq_cloud.Config.{BridgeSettings}
use embediq_cloud.Mqtt.Client.{
  ClientCall, created, reconnect_delay_set, loop_start, published, Fails, Act, Link, messages, skip,
  ◌then_do◌, keep, call, set_credentials, new_client, connect, with_settings, make_client,
  get_client,
}

abbrev pub is_message : {T : Type 0} → ClientCall T → Bool
is_message (published m) = true
is_message c = false

-- The messages are as before, whether the action returns or raises.
pub record Silent {T : Type 0} (m : Act T) : Type 0 where
  pub at : (link : Link T) → messages ((m link).1).calls ≡ messages link.calls

module _ {T : Type 0} where
  pub Silent-skip : Silent {T = T} skip
  Silent-skip = record { at = λ link. refl }

  pub Silent-keep : Silent {T = T} keep
  Silent-keep = record { at = λ link. refl }

  pub Silent-if : (b : Bool) (m k : Act T) → Silent m → Silent k → Silent (if b then m else k)
  Silent-if true m k sm sk = sm
  Silent-if false m k sm sk = sk

  -- the same choice at one state
  pub Silent-at_if :
      (b : Bool) (m k : Act T) (link : Link T)
      → Silent m
      → Silent k
      → messages ((if b then m link else k link).1).calls ≡ messages link.calls
  Silent-at_if true m k link sm sk = sm.at link
  Silent-at_if false m k link sm sk = sk.at link

  Silent-continue :
      (r : Outcome (Unit {0})) (k : Act T) (link : Link T)
      → Silent k
      → messages (((λ l. (r, l)) then_do k) link).1.calls ≡ messages link.calls
  Silent-continue (returned v) k link sk = sk.at link
  Silent-continue (raised e) k link sk = refl

  pub Silent-then : (m k : Act T) → Silent m → Silent k → Silent (m then_do k)
  Silent-then m k sm sk = record {
    at = λ link. Silent-continue (m link).0 k (m link).1 sk ∙ sm.at link;
  }

  messages-silent :
      (c : ClientCall T) (cs : List (ClientCall T))
      → is_message c ≡ false
      → messages (c ∷ cs) ≡ messages cs
  messages-silent (published m) cs e = absurd (ground (arith, e))
  messages-silent c cs e = refl

module _ {T : Type 0} (fails : Fails T) where
  pub Silent-call : (c : ClientCall T) → is_message c ≡ false → Silent (call fails c)
  Silent-call c e = record {
    at = λ link. elim (Bool-cases (fails c link.calls)) [
      | inl f ↦ rw f refl
      | inr f ↦ rw f (messages-silent c link.calls e)
    ];
  }

  Silent-credentials : (s : BridgeSettings) → Silent (set_credentials fails s)
  Silent-credentials s = Silent-if _ _ _ Silent-skip (Silent-call _ refl)

  pub Silent-new_client : (s : BridgeSettings) → Silent (new_client fails s)
  Silent-new_client s =
      Silent-then _ _ (Silent-then _ _ (Silent-call created refl) (Silent-credentials s))
        (Silent-call (reconnect_delay_set 1 30) refl)

  pub Silent-connect : (s : BridgeSettings) → Silent (connect fails s)
  Silent-connect s = Silent-then _ _ (Silent-call _ refl) (Silent-call loop_start refl)

  pub Silent-settings :
      (settings : Outcome BridgeSettings) (f : BridgeSettings → Act T)
      → ((s : BridgeSettings) → Silent (f s))
      → Silent (with_settings fails settings f)
  Silent-settings (returned s) f k = record { at = λ link. (k s).at link }
  Silent-settings (raised e) f k = record { at = λ link. refl }

  pub Silent-get_client : (settings : Outcome BridgeSettings) → Silent (get_client fails settings)
  unfolding get_client
  Silent-get_client settings = record {
    at = λ link. Silent-at_if link.client skip (make_client fails settings) link Silent-skip (
        Silent-settings settings _ (λ s.
          Silent-then _ _ (Silent-then _ _ (Silent-new_client s) (Silent-connect s)) Silent-keep));
  }
