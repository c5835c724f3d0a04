-- ===== src/Tests/Shadows.antt =====
-- The shadow endpoints on the small file.
use embediq_cloud.Prelude.{◌≡◌, refl, String, true, or_else, none, some, [], ◌∷◌, ◌↔◌}
use embediq_cloud.Prelude.Int.{pos}
use embediq_cloud.Outcome.{returned}
use embediq_cloud.Json.{null, str, int, Object, object, lookup, update}
use embediq_cloud.Json.Dict.{last}
use embediq_cloud.Json.Equality.{IsJson}
use embediq_cloud.Envelope.{ok}
use embediq_cloud.Bridge.{handle_reported}
use embediq_cloud.Bridge.Reported.{get_shadow-handle_reported}
use embediq_cloud.Shadow.{compute_delta, get_shadow, patch_desired}
use embediq_cloud.Shadow.Delta.{Agrees, absent_null_omitted, compute_delta-eq-nil_iff}
use embediq_cloud.Fleet.{shadow_of}
use embediq_cloud.Shadow.Replies.{patch_desired_lem}
use embediq_cloud.Tests.{codec, takes_all, home, home_world}

abbrev level : Object
level = ("level", int (pos 3)) ∷ []

abbrev colour : Object
colour = ("colour", str "red") ∷ []

level-IsJson : IsJson (object level)
level-IsJson = ((refl, tt), (tt, tt))

absent_null_omitted_example : lookup "level" (compute_delta (("level", null) ∷ []) colour) ≡ none
absent_null_omitted_example =
    absent_null_omitted "level" (("level", null) ∷ []) colour (refl, tt) refl refl

compute_delta-eq-nil_iff_example : (compute_delta level level ≡ []) ↔ Agrees level level
compute_delta-eq-nil_iff_example = compute_delta-eq-nil_iff level level (refl, tt)

patch_desired_lem_example :
    let (reply, db, sent) = patch_desired codec takes_all 9 "lamp" colour home in
    (reply
      ≡ returned (
          object (
            ("data", object (("desired", object (update level colour)) ∷ []))
            ∷ ("error", null)
            ∷ [])))
    × (shadow_of codec "lamp" db ≡ some (update level colour, []))
    × (sent
        ≡ record {
          topic = "embediq/lamp/state/desired";
          payload = some (object (update level colour));
          qos = 1;
          retain = true;
        }
          ∷ [])
    × ((key : String)
        → lookup key (update level colour) ≡ or_else (last key colour) (lookup key level))
patch_desired_lem_example =
    patch_desired_lem codec takes_all 9 "lamp" colour level [] home refl refl

get_shadow-handle_reported_example :
    let report = update [] (compute_delta level []) in
    (get_shadow codec "lamp" ((handle_reported codec 9 "lamp" report home_world).1).db).0
    ≡ returned (
        ok (
          object
            (("desired", object level) ∷ ("reported", object report) ∷ ("delta", object []) ∷ [])))
get_shadow-handle_reported_example =
    get_shadow-handle_reported codec 9 "lamp" level [] home_world refl refl level-IsJson
