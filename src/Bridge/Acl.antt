-- ===== src/Bridge/Acl.antt =====
-- The topics that the broker's check refuses, at the bridge.
use text.Mathlib.TextLemmas.{append_assoc}
use text.Mathlib.TextPositions.{starts_with-append}
use embediq_cloud.Prelude.{
  sym, ℕ, ◌≡◌, refl, inl, inr, String, ◌==◌, eq_iff, ◌+++◌, true, false, Bool-cases, some, List, [],
  ◌∷◌, arith, split, join, join-split,
}
use embediq_cloud.Outcome.{returned, raised, http_exception}
use embediq_cloud.Json.{Codec}
use embediq_cloud.Auth.DeviceAuth.{InternalAclRequest, internal_acl, starts_with_namespace}
use embediq_cloud.Hawkbit.{Server}
use embediq_cloud.Bridge.{Ready, World, route_parts, route_message}

allowed_embediq : (rest : String) → starts_with_namespace ("embediq" +++ "/" +++ rest) ≡ true
allowed_embediq rest =
    rw (sym (append_assoc "embediq" "/" rest)) (starts_with-append "embediq/" rest)

module _ (C : Codec) (server : Server) (ready : Ready) (now : ℕ) (payload : C.Text) where
  parts_denied :
      (parts : List String) (w : World C.Text)
      → starts_with_namespace (join parts) ≡ false
      → route_parts C server ready now parts payload w ≡ (returned tt, w)
  unfolding route_parts
  parts_denied [] w e = refl
  parts_denied (a ∷ []) w e = refl
  parts_denied (a ∷ b ∷ []) w e = refl
  parts_denied (a ∷ b ∷ c ∷ cs) w e = elim (Bool-cases (a == "embediq")) [
    | inl y ↦
        let root = (eq_iff a "embediq").0 y in
        let allowed = allowed_embediq (join (b ∷ c ∷ cs)) in cc (rw root at e)
    | inr n ↦ rw n refl
  ]

  -- A topic that the broker's check of topics refuses is ignored by the bridge.
  pub route_message_denied :
      (topic : String) (body : InternalAclRequest) (w : World C.Text)
      → body.topic ≡ some topic
      → internal_acl body ≡ raised (http_exception 403 "topic not permitted")
      → route_message C server ready now topic payload w ≡ (returned tt, w)
  unfolding route_message internal_acl
  route_message_denied topic body w t e =
      parts_denied (split topic) w (rw (join-split topic) (ground (arith, rw t at e)))
