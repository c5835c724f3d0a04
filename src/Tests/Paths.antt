-- ===== src/Tests/Paths.antt =====
-- Requests by their paths.
use mathlib.Core.List.Memᴰ
use embediq_cloud.Prelude.{ℕ, arith, ◌≡◌, ◌≢◌, refl, String, Option, some, List, [], ◌∷◌, ◌++◌}
use embediq_cloud.Routes.{Method, Handler, Route, post, login_route, routes, dispatch}
use embediq_cloud.Routes.Reached.{routes_reached}
use embediq_cloud.Routes.Unreachable.{slash_id_unreachable}
use embediq_cloud.Json.{Value}
use embediq_cloud.Bridge.{World, route_message}
use embediq_cloud.Bridge.Others.{SameRows}
use embediq_cloud.Tests.{codec, hawkbit, both_ready}
use embediq_cloud.Routes.Matcher.{matcher}
use embediq_cloud.Ui

abbrev to_login : Route
to_login = record { method = post; path = "/api/v1/auth/login"; handler = login_route }

routes_reached_example : dispatch matcher routes post "/api/v1/auth/login" ≡ some (login_route, [])
unfolding routes
routes_reached_example = routes_reached matcher to_login [] (Memᴰ.head refl) tt refl

slash_id_unreachable_example :
    ((method : Method) (path : String) (h : Handler) (before after : List String)
      → dispatch matcher routes method path ≢ some (h, before ++ "a/b" ∷ after))
    × ((now : ℕ) (topic : String) (payload : Option Value) (w : World (Option Value))
        → SameRows "a/b" w.db ((route_message codec hawkbit both_ready now topic payload w).1).db)
slash_id_unreachable_example =
    slash_id_unreachable matcher codec hawkbit both_ready "a/b" (λ h. ground (arith, h))
