-- ===== src/Bridge/Backends/Requests.antt =====
-- What reaches InfluxDB and Loki.
use text.Mathlib.TextLemmas.{cons-append}
use embediq_cloud.Prelude.{
  ◌≡◌, refl, ◌∙◌, sym, ap, subst, String, ◌+++◌, Option, none, some, [], ◌∷◌, arith,
}
use embediq_cloud.Prelude.Strip.{rstrip}
use embediq_cloud.Outcome.{Outcome, returned}
use embediq_cloud.Json.{Value, null, str, Object, lookup, update, set}
use embediq_cloud.Json.Dict.{HasUniqueKeys, lookup-update, last-eq-lookup}
use embediq_cloud.Config.{BridgeSettings}
use embediq_cloud.Bridge.Backends.{
  Points, with_fields, with_time, build_telemetry_point, is_slash, push_url, Backends, get_loki,
}

-- the time of a telemetry message, if it has one
abbrev pub given_time : Value → Option Value
given_time null = none
given_time ts = some ts

module _ (P : Points) where
  with_fields-field_set :
      (metrics : Object) (p : P.Point)
      → P.field_set (with_fields P metrics p) ≡ update (P.field_set p) metrics
  with_fields-field_set [] p = refl
  with_fields-field_set ((k, v) ∷ metrics) p =
      with_fields-field_set metrics (P.field k v p)
      ∙ ap (λ d. update d metrics) (P.field-field_set k v p)

  with_fields-tags : (metrics : Object) (p : P.Point) → P.tags (with_fields P metrics p) ≡ P.tags p
  with_fields-tags [] p = refl
  with_fields-tags ((k, v) ∷ metrics) p =
      with_fields-tags metrics (P.field k v p) ∙ P.field-tags k v p

  with_fields-time_of :
      (metrics : Object) (p : P.Point) → P.time_of (with_fields P metrics p) ≡ P.time_of p
  with_fields-time_of [] p = refl
  with_fields-time_of ((k, v) ∷ metrics) p =
      with_fields-time_of metrics (P.field k v p) ∙ P.field-time_of k v p

  with_time_lem :
      (ts : Value) (p : P.Point)
      → P.time_of p ≡ none
      → (P.tags (with_time P ts p) ≡ P.tags p)
        × (P.field_set (with_time P ts p) ≡ P.field_set p)
        × (P.time_of (with_time P ts p) ≡ given_time ts)
  with_time_lem null p e = (refl, refl, e)
  with_time_lem ts p e = (P.time-tags ts p, P.time-field_set ts p, P.time-time_of ts p)

  -- The point of a telemetry message whose metrics have distinct keys is tagged by the device alone,
  -- has exactly the metrics as fields, and the time of the message where it has one.
  build_telemetry_point_lem :
      (device_id : String) (ts : Value) (metrics : Object)
      → HasUniqueKeys metrics
      → let p = build_telemetry_point P device_id ts metrics in
        (P.tags p ≡ ("device_id", str device_id) ∷ [])
        × ((k : String) → lookup k (P.field_set p) ≡ lookup k metrics)
        × (P.time_of p ≡ given_time ts)
  unfolding build_telemetry_point
  build_telemetry_point_lem device_id ts metrics unique =
      let start = P.point "telemetry" in
      let tagged = P.tag "device_id" device_id start in
      let filled = with_fields P metrics tagged in
      let no_time : P.time_of filled ≡ none =
        with_fields-time_of metrics tagged
        ∙ P.tag-time_of "device_id" device_id start
        ∙ P.point-time_of "telemetry" in
      let (tags, fields, time) = with_time_lem ts filled no_time in
      let entries : P.field_set filled ≡ update [] metrics =
        with_fields-field_set metrics tagged
        ∙ ap (λ d. update d metrics)
            (P.tag-field_set "device_id" device_id start ∙ P.point-field_set "telemetry") in
      (
        tags
            ∙ with_fields-tags metrics tagged
            ∙ P.tag-tags "device_id" device_id start
            ∙ ap (set "device_id" (str device_id)) (P.point-tags "telemetry"),
        λ k.
            ap (lookup k) (fields ∙ entries)
            ∙ ground (arith, lookup-update k [] metrics, last-eq-lookup k metrics unique),
        time,
      )

rstrip_slash : (url : String) → rstrip is_slash (url +++ "/") ≡ rstrip is_slash url
rstrip_slash String.[] = refl
rstrip_slash (String.◌∷◌ c s) = rw (cons-append c s "/") (ground (arith, rstrip_slash s))

push_url_slash : (url : String) → push_url (url +++ "/") ≡ push_url url
push_url_slash url = ap (λ t. t +++ "/loki/api/v1/push") (rstrip_slash url)

-- The address of Loki does not depend on slashes at the end of the configured one. It is fixed at
-- the first use: later settings do not change it.
pub get_loki_fixed :
    (s : BridgeSettings) (settings : Outcome BridgeSettings) (b : Backends)
    → b.loki ≡ none
    → let (r, b') = get_loki (returned s) b in
      (r ≡ returned (push_url (s.loki_url +++ "/"))) × (get_loki settings b' ≡ (r, b'))
unfolding get_loki
get_loki_fixed s settings b n =
    let url = push_url s.loki_url in
    let made : get_loki (returned s) b ≡ (returned url, record b { loki = some url }) =
      rw (get_loki, n) refl in
    subst (λ x. (x.0 ≡ returned (push_url (s.loki_url +++ "/"))) × (get_loki settings x.1 ≡ x))
      (sym made) (ap returned (sym (push_url_slash s.loki_url)), refl)
