-- ===== src/Routes/Unreachable.antt =====
-- The ids that neither a path nor a topic can name.
use embediq_cloud.Prelude.{ℕ, String, ◌≢◌, some, List, [], ◌∷◌, ◌++◌, NoSlash}
use embediq_cloud.Json.{Codec}
use embediq_cloud.Hawkbit.{Server}
use embediq_cloud.Bridge.{Ready, World, route_message}
use embediq_cloud.Bridge.Others.{SameRows}
use embediq_cloud.Bridge.Topic.{route_message-others}
use embediq_cloud.Routes.Patterns.{IsPlain, ArePlain}
use embediq_cloud.Routes.{Method, Handler, Router, routes, dispatch}
use embediq_cloud.Routes.Reached.{dispatch-ArePlain}

ArePlain-IsPlain :
    (before after : List String) (k : String) → ArePlain (before ++ k ∷ after) → IsPlain k
ArePlain-IsPlain [] after k h = h.0
ArePlain-IsPlain (a ∷ before) after k h = ArePlain-IsPlain before after k h.1

module _ (R : Router) where
  -- no path names an id that is empty or holds a slash
  unaddressed :
      (k : String)
      → ¬ IsPlain k
      → (method : Method) (path : String) (h : Handler) (before after : List String)
      → dispatch R routes method path ≢ some (h, before ++ k ∷ after)
  unaddressed k rough method path h before after e =
      rough (ArePlain-IsPlain before after k (dispatch-ArePlain R method path h _ e))

  -- An id with a slash is out of reach of paths and topics. No request, of any method to any path,
  -- gives it to a function as an argument of the path; and no message, on whatever topic, changes
  -- the row of its device, of its state or of its shadow.
  pub slash_id_unreachable :
      (C : Codec) (server : Server) (ready : Ready) (k : String)
      → ¬ NoSlash k
      → ((method : Method) (path : String) (h : Handler) (before after : List String)
          → dispatch R routes method path ≢ some (h, before ++ k ∷ after))
        × ((now : ℕ) (topic : String) (payload : C.Text) (w : World C.Text)
            → SameRows k w.db ((route_message C server ready now topic payload w).1).db)
  slash_id_unreachable C server ready k slash = (
    unaddressed k (λ plain. slash plain.1),
    λ now topic payload w. route_message-others C server ready now payload k topic w slash,
  )
