-- ===== src/Mqtt/Client/Kept.antt =====
-- The publisher's one client.
use mathlib.Core.List.{append-nil}
use mathlib.Core.Path.{fun_ext}
use embediq_cloud.Prelude.{
  ◌≡◌, ◌∙◌, sym, ap, subst, if◌then◌else◌, ◌⊎◌, refl, inl, inr, String, ◌==◌, Bool, true, false,
  Bool-cases, List, [], ◌∷◌, ◌++◌, arith,
}
use embediq_cloud.Outcome.{Outcome, returned, raised, is_returned}
use embediq_cloud.Json.{Object, object, Codec}
use embediq_cloud.Config.{BridgeSettings}
use embediq_cloud.Mqtt.{Message, publish}
use embediq_cloud.Mqtt.Client.{
  Fails, ClientCall, created, username_pw_set, reconnect_delay_set, connect_async, loop_start,
  with_settings, keep, make_client, Act, Link, ◌then_do◌, published, messages, call, get_client,
  send, publish_on,
}
use embediq_cloud.Mqtt.Client.Silent.{Silent-get_client}

if_true : {A : Type 0} (b : Bool) (x y : A) → b ≡ true → (if b then x else y) ≡ x
if_true b x y e = rw e refl

-- a `publish` after an outcome
abbrev attempt : {T : Type 0} → Fails T → Outcome (Unit {0}) → Message T → Act T
attempt fails r m = (λ l. (r, l)) then_do call fails (published m)

messages-attempt :
    (T : Type 0) (fails : Fails T) (r : Outcome (Unit {0})) (l : Link T) (m : Message T)
    → let (o, l') = attempt fails r m l in
      messages l'.calls ≡ messages l.calls ++ (if is_returned o then m ∷ [] else [])
messages-attempt T fails (raised e) l m = sym (append-nil (messages l.calls))
messages-attempt T fails (returned v) l m = elim (Bool-cases (fails (published m) l.calls)) [
  | inl f ↦ rw f (sym (append-nil (messages l.calls)))
  | inr f ↦ rw f refl
]

-- Where the action returns, the client is kept.
abbrev Sets : {T : Type 0} → Act T → Type 0
Sets {T} m = (link : Link T) → is_returned (m link).0 ≡ true → ((m link).1).client ≡ true

module _ {T : Type 0} (fails : Fails T) where
  Sets-continue : (r : Outcome (Unit {0})) (k : Act T) → Sets k → Sets ((λ l. (r, l)) then_do k)
  Sets-continue (returned v) k sk link e = sk link e
  Sets-continue (raised x) k sk link e = absurd (ground (arith, e))

  Sets-then : (m k : Act T) → Sets k → Sets (m then_do k)
  Sets-then m k sk link e = Sets-continue (m link).0 k sk (m link).1 e

  Sets-settings :
      (settings : Outcome BridgeSettings) (f : BridgeSettings → Act T)
      → ((s : BridgeSettings) → Sets (f s))
      → Sets (with_settings fails settings f)
  Sets-settings (returned s) f k link e = k s link e
  Sets-settings (raised x) f k link e = absurd (ground (arith, e))

  Sets-keep : Sets {T = T} keep
  Sets-keep link e = refl

  Sets-at_if :
      (b : Bool) (link : Link T) (k : Act T)
      → link.client ≡ b
      → Sets k
      → let (r, l) = (if b then (returned tt, link) else k link) in
        is_returned r ≡ true → l.client ≡ true
  Sets-at_if true link k p sk e = p
  Sets-at_if false link k p sk e = sk link e

  Sets-get_client : (settings : Outcome BridgeSettings) → Sets (get_client fails settings)
  unfolding get_client
  Sets-get_client settings link =
      Sets-at_if link.client link (make_client fails settings) refl
        (Sets-settings settings _ (λ s. Sets-then _ keep Sets-keep))

  call-keeps : (c : ClientCall T) (link : Link T) → ((call fails c link).1).client ≡ link.client
  call-keeps c link = elim (Bool-cases (fails c link.calls)) [
    | inl f ↦ rw f refl
    | inr f ↦ rw f refl
  ]

  attempt-client :
      (r : Outcome (Unit {0})) (l : Link T) (m : Message T)
      → is_returned (attempt fails r m l).0 ≡ true
      → (is_returned r ≡ true) × (((attempt fails r m l).1).client ≡ l.client)
  attempt-client (returned v) l m e = (refl, call-keeps (published m) l)
  attempt-client (raised x) l m e = absurd (ground (arith, e))

  call_or_not :
      (c : ClientCall T) (l : Link T)
      → ((call fails c l).1 ≡ l) ⊎ (((call fails c l).1).calls ≡ c ∷ l.calls)
  call_or_not c l = elim (Bool-cases (fails c l.calls)) [
    | inl f ↦ rw f (inl refl)
    | inr f ↦ rw f (inr refl)
  ]

-- the calls that make a client from its settings, the newest first
abbrev pub making : {T : Type 0} → BridgeSettings → List (ClientCall T)
making b =
    loop_start
    ∷ connect_async b.mqtt_host b.mqtt_port
    ∷ reconnect_delay_set 1 30
    ∷ (if b.mqtt_username == ""
        then created ∷ []
        else username_pw_set b.mqtt_username b.mqtt_password ∷ created ∷ [])

module _ (C : Codec) (fails : Fails C.Text) (settings : Outcome BridgeSettings) where
  -- whether a client can be had that takes the message
  abbrev pub able : Link C.Text → Message C.Text → Bool
  able link m = is_returned (send C fails settings m link).0

  -- what `publish` of app/mqtt_pub.py sends, as a call of it alone
  messages-publish_on :
      (topic : String) (payload : Object) (retain : Bool) (link : Link C.Text)
      → messages (publish_on C fails settings topic payload retain link).calls
        ≡ messages link.calls ++ publish C (able link) topic payload retain
  unfolding publish_on send publish
  messages-publish_on topic payload retain link =
      let m : Message C.Text = record {
        topic = topic;
        payload = C.dumps (object payload);
        qos = 1;
        retain = retain;
      } in
      let (r, l) = get_client fails settings link in
      messages-attempt C.Text fails r l m
      ∙ ap (λ x. x ++ (if able link m then m ∷ [] else []))
          ((Silent-get_client fails settings).at link)

  send-reuses :
      (m : Message C.Text) (l : Link C.Text)
      → l.client ≡ true
      → ((send C fails settings m l).1 ≡ l)
        ⊎ (((send C fails settings m l).1).calls ≡ published m ∷ l.calls)
  unfolding send get_client
  send-reuses m l k =
      let kept : get_client fails settings l ≡ (returned tt, l) =
        if_true l.client (returned tt, l) (make_client fails settings l) k in
      subst
        (λ x.
          let last = (attempt fails x.0 m x.1).1 in
          (last ≡ l) ⊎ (last.calls ≡ published m ∷ l.calls))
        (sym kept) (call_or_not fails (published m) l)

  -- After a publish that sent its message, the client is kept: the next publish makes no other call
  -- than its own `publish`.
  publish_on_reuses :
      (m : Message C.Text) (topic : String) (payload : Object) (retain : Bool) (link : Link C.Text)
      → able link m ≡ true
      → let after = (send C fails settings m link).1 in
        let last = publish_on C fails settings topic payload retain after in
        (after.client ≡ true)
        × ((last ≡ after)
            ⊎ (last.calls
                ≡ published (record {
                  topic = topic;
                  payload = C.dumps (object payload);
                  qos = 1;
                  retain = retain;
                })
                  ∷ after.calls))
  unfolding publish_on send get_client
  publish_on_reuses m topic payload retain link e =
      let (r, l) = get_client fails settings link in
      let after = (send C fails settings m link).1 in
      let (made, same) = attempt-client fails r l m e in
      let kept = same ∙ Sets-get_client fails settings link made in (kept, send-reuses _ after kept)

module _ (C : Codec) (b : BridgeSettings) (topic : String) (payload : Object) (retain : Bool) where
  -- the message of a publish
  abbrev message : Message C.Text
  message = record { topic = topic; payload = C.dumps (object payload); qos = 1; retain = retain }

  -- the library, where no call raises
  abbrev calm : Fails C.Text
  calm c cs = false

  publish_on-calm :
      (kept : Bool) (calls : List (ClientCall C.Text))
      → publish_on C calm
          (returned b)
          topic
          payload
          retain
          (record { client = kept; calls = calls })
        ≡ record {
          client = true;
          calls = published message ∷ (if kept then calls else making b ++ calls);
        }
  unfolding publish_on send get_client
  publish_on-calm true calls = refl
  publish_on-calm false calls = elim (Bool-cases (b.mqtt_username == "")) [
    | inl e ↦ ground (arith, e)
    | inr e ↦ ground (arith, e)
  ]

  -- Where the settings of the broker can be read and no call of the library raises, a publish
  -- hands the library its message at QoS 1, with its topic, its payload and its retain flag, and
  -- the client is kept: on the kept client by one call, and without one after a new client has
  -- been made, given the credentials, if any, connected and started. With whatever settings and
  -- whatever calls that raise, a publish sends this message once or nothing.
  pub publish_on_lem :
      (fails other : Fails C.Text) (settings : Outcome BridgeSettings) (link : Link C.Text)
      → ((c : ClientCall C.Text) (cs : List (ClientCall C.Text)) → fails c cs ≡ false)
      → let m : Message C.Text = record {
        topic = topic;
        payload = C.dumps (object payload);
        qos = 1;
        retain = retain;
      } in
        let after = publish_on C other settings topic payload retain link in
        (publish_on C fails (returned b) topic payload retain link ≡ record {
          client = true;
          calls = published m ∷ (if link.client then link.calls else making b ++ link.calls);
        })
        × ((messages after.calls ≡ messages link.calls)
            ⊎ (messages after.calls ≡ messages link.calls ++ m ∷ []))
  unfolding publish
  publish_on_lem fails other settings link quiet =
      let same : calm ≡ fails = fun_ext (λ c. fun_ext (λ cs. sym (quiet c cs))) in
      let sent = messages-publish_on C other settings topic payload retain link in
      (
        subst
            (λ f. publish_on C f (returned b) topic payload retain link ≡ record {
              client = true;
              calls =
                  published message ∷ (if link.client then link.calls else making b ++ link.calls);
            })
            same (publish_on-calm link.client link.calls),
        elim (Bool-cases (able C other settings link message)) [
          | inl e ↦ inr (sent ∙ rw e refl)
          | inr e ↦ inl (sent ∙ rw e (append-nil (messages link.calls)))
        ],
      )
