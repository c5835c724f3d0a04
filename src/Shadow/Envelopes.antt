-- ===== src/Shadow/Envelopes.antt =====
-- The shadow endpoints answer by `ok`.
use embediq_cloud.Prelude.{ℕ, refl, Bool, String}
use embediq_cloud.Outcome.{Outcome, returned, raised}
use embediq_cloud.Json.{Codec, Object}
use embediq_cloud.Envelope.{IsOk}
use embediq_cloud.Db.{Db}
use embediq_cloud.Mqtt.{Message}
use embediq_cloud.Shadow.{get_shadow, shadow_reply, patch_desired, patched_reply}

module _ (C : Codec) where
  shadow_reply-IsOk : (r : Outcome (Object × Object)) → IsOk (shadow_reply C r)
  shadow_reply-IsOk (returned (d, r)) = (_, refl)
  shadow_reply-IsOk (raised e) = tt

  pub get_shadow-IsOk : (k : String) (db : Db C.Text) → IsOk (get_shadow C k db).0
  unfolding get_shadow
  get_shadow-IsOk k db = shadow_reply-IsOk _

module _ (C : Codec) (takes : Message C.Text → Bool) where
  patched_reply-IsOk : (k : String) (r : Outcome Object) → IsOk (patched_reply C takes k r).0
  patched_reply-IsOk k (returned d) = (_, refl)
  patched_reply-IsOk k (raised e) = tt

  pub patch_desired-IsOk :
      (now : ℕ) (k : String) (delta : Object) (db : Db C.Text)
      → IsOk (patch_desired C takes now k delta db).0
  unfolding patch_desired
  patch_desired-IsOk now k delta db = patched_reply-IsOk k _
