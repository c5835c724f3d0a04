-- ===== src/Bridge/Topic.antt =====
-- Which device a topic names, and what that means for ids with a slash.
use text.Mathlib.TextLemmas.{append_assoc}
use embediq_cloud.Prelude.{
  ℕ, ◌≡◌, ◌≢◌, refl, ap, ◌∙◌, subst, String, ◌==◌, ◌+++◌, ◌||◌, arith, List, [], ◌∷◌, split, join,
  if◌then◌else◌,
}
use embediq_cloud.Prelude.{
  split-append, split-ne-nil, join-split, NoSlash, AllNoSlash, split-NoSlash,
}
use embediq_cloud.Outcome.{Outcome, returned}
use embediq_cloud.Json.{Codec}
use embediq_cloud.Hawkbit.{Server}
use embediq_cloud.Bridge.{
  Ready, World, ignore, handle_document, route_parts, route_message, is_ignored_channel,
}
use embediq_cloud.Bridge.Others.{SameRows, handle_document-others}

-- f"embediq/{device_id}/{channel}"
abbrev pub device_topic : String → String → String
device_topic k channel = "embediq/" +++ k +++ "/" +++ channel

split-device_topic :
    (k channel : String)
    → NoSlash k
    → split (device_topic k channel) ≡ "embediq" ∷ k ∷ split channel
split-device_topic k channel h =
    ap split (append_assoc "embediq" "/" (k +++ "/" +++ channel))
    ∙ split-append "embediq" (k +++ "/" +++ channel)
        (refl, (refl, (refl, (refl, (refl, (refl, (refl, tt)))))))
    ∙ ap (λ ps. "embediq" ∷ ps) (split-append k channel h)

module _ (C : Codec) (server : Server) (ready : Ready) (now : ℕ) (payload : C.Text) where
  -- the handling of a document on a channel of a device
  abbrev on_channel : String → String → World C.Text → Outcome (Unit {0}) × World C.Text
  on_channel k channel =
      if is_ignored_channel C server ready channel
      then ignore
      else handle_document C server ready now k channel (C.loads payload)

  route_parts_lem :
      (k : String) (ps : List String)
      → ps ≢ []
      → route_parts C server ready now ("embediq" ∷ k ∷ ps) payload ≡ on_channel k (join ps)
  unfolding route_parts
  route_parts_lem k [] h = absurd (h refl)
  route_parts_lem k (c ∷ cs) h = refl

  -- A message on the channel of a device whose id has no slash is handled for that device and that
  -- channel, also where the channel has slashes of its own; cmd and state/desired are ignored.
  pub route_message-device_topic :
      (k channel : String) (w : World C.Text)
      → NoSlash k
      → route_message C server ready now (device_topic k channel) payload w ≡ (
          if (channel == "cmd") || (channel == "state/desired")
          then (returned tt, w)
          else handle_document C server ready now k channel (C.loads payload) w)
  unfolding route_message
  route_message-device_topic k channel w h =
      rw
        (
          split-device_topic k channel h,
          route_parts_lem k (split channel) (split-ne-nil channel),
          join-split,
        )
        (ground arith)

  route_parts-others :
      (j : String) (parts : List String) (w : World C.Text)
      → ¬ NoSlash j
      → AllNoSlash parts
      → SameRows j w.db ((route_parts C server ready now parts payload w).1).db
  unfolding route_parts
  route_parts-others j [] w n h = (refl, refl, refl)
  route_parts-others j (a ∷ []) w n h = (refl, refl, refl)
  route_parts-others j (a ∷ b ∷ []) w n h = (refl, refl, refl)
  route_parts-others j (a ∷ b ∷ c ∷ cs) w n h = ground (
    arith,
    handle_document-others C server ready now j b (λ e. n (subst NoSlash e h.1.0)) w (join (c ∷ cs))
        (C.loads payload),
  )

  -- no message changes a row of a device whose id has a slash
  pub route_message-others :
      (j topic : String) (w : World C.Text)
      → ¬ NoSlash j
      → SameRows j w.db ((route_message C server ready now topic payload w).1).db
  unfolding route_message
  route_message-others j topic w n = route_parts-others j (split topic) w n (split-NoSlash topic)
