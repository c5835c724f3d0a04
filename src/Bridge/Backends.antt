-- ===== src/Bridge/Backends.antt =====
-- The two backends of app/bridge.py: what they ask of InfluxDB and of Loki. The library
-- influxdb_client is a parameter; `httpx.post` is the request that is made.
pub mod Requests
use Prim.Native.String
use Prim.Native.Char.{code}
use embediq_cloud.Prelude.{
  ℕ, ◌≡◌, String, ◌+++◌, Bool, true, false, Option, none, some, List, [], ◌∷◌, nat_eq,
  if◌then◌else◌,
}
use embediq_cloud.Prelude.Strip.{rstrip}
use embediq_cloud.Outcome.{Outcome, returned, raised, runtime_error}
use embediq_cloud.Json.{Value, null, str, Object, object, list, set}
use embediq_cloud.Config.{BridgeSettings}

-- The class `Point` of influxdb_client.
pub record Points : Type 1 where
  pub Point : Type 0
  pub point : String → Point
  pub tag : String → String → Point → Point
  pub field : String → Value → Point → Point
  pub time : Value → Point → Point
  -- what a point carries
  pub tags : Point → Object
  pub field_set : Point → Object
  pub time_of : Point → Option Value
  -- each call sets one entry and leaves the others
  pub point-tags : (name : String) → tags (point name) ≡ []
  pub point-field_set : (name : String) → field_set (point name) ≡ []
  pub point-time_of : (name : String) → time_of (point name) ≡ none
  pub tag-tags : (k v : String) (p : Point) → tags (tag k v p) ≡ set k (str v) (tags p)
  pub tag-field_set : (k v : String) (p : Point) → field_set (tag k v p) ≡ field_set p
  pub tag-time_of : (k v : String) (p : Point) → time_of (tag k v p) ≡ time_of p
  pub field-tags : (k : String) (v : Value) (p : Point) → tags (field k v p) ≡ tags p
  pub field-field_set :
      (k : String) (v : Value) (p : Point) → field_set (field k v p) ≡ set k v (field_set p)
  pub field-time_of : (k : String) (v : Value) (p : Point) → time_of (field k v p) ≡ time_of p
  pub time-tags : (t : Value) (p : Point) → tags (time t p) ≡ tags p
  pub time-field_set : (t : Value) (p : Point) → field_set (time t p) ≡ field_set p
  pub time-time_of : (t : Value) (p : Point) → time_of (time t p) ≡ some t

module _ (P : Points) where
  -- `for key, value in metrics.items()`
  abbrev pub with_fields : Object → P.Point → P.Point
  with_fields [] p = p
  with_fields ((key, value) ∷ metrics) p = with_fields metrics (P.field key value p)

  -- `if ts is not None`
  abbrev pub with_time : Value → P.Point → P.Point
  with_time null p = p
  with_time ts p = P.time ts p

  unfoldable pub build_telemetry_point : String → Value → Object → P.Point
  build_telemetry_point device_id ts metrics =
      with_time ts (with_fields metrics (P.tag "device_id" device_id (P.point "telemetry")))

-- `InfluxBackend`
pub record InfluxBackend : Type 0 where
  pub bucket : String
  pub org : String

-- a call of the library's `write`
pub record PointWrite (Point : Type 0) : Type 0 where
  pub bucket : String
  pub org : String
  pub point : Point

module _ (P : Points) where
  -- `write`, which catches what the library raises: what it hands to the library
  unfoldable pub write : InfluxBackend → String → Value → Object → PointWrite P.Point
  unfolding build_telemetry_point
  write backend device_id ts metrics = record {
    bucket = backend.bucket;
    org = backend.org;
    point = build_telemetry_point P device_id ts metrics;
  }

abbrev pub is_slash : ℕ → Bool
is_slash c = nat_eq c 47

-- `LOKI_URL.rstrip("/") + "/loki/api/v1/push"`
abbrev pub push_url : String → String
push_url loki_url = rstrip is_slash loki_url +++ "/loki/api/v1/push"

-- a request of `httpx.post`
pub record Post : Type 0 where
  pub url : String
  pub body : Value

-- `push` at the time `now` in nanoseconds, written out; what `httpx` raises is caught
unfoldable pub push : String → String → String → String → String → Post
push url now device_id level message = record {
  url = url;
  body = object (
      (
        "streams",
        list (
            object (
              ("stream", object (("device_id", str device_id) ∷ ("level", str level) ∷ []))
              ∷ ("values", list (list (str now ∷ str message ∷ []) ∷ []))
              ∷ [])
            ∷ []),
      )
      ∷ []);
}

-- The module's `influx` and `loki`, which are made at the first use.
pub record Backends : Type 0 where
  pub influx : Option InfluxBackend
  pub loki : Option String

-- `_influx`; `made` is whether the library makes its client
unfoldable pub get_influx :
    Bool → Outcome BridgeSettings → Backends → Outcome InfluxBackend × Backends
get_influx made settings b = elim b.influx [
  | some backend ↦ (returned backend, b)
  | none ↦ elim settings [
    | raised e ↦ (raised e, b)
    | returned s ↦
        let backend : InfluxBackend = record { bucket = s.influx_bucket; org = s.influx_org } in
        if made
        then (returned backend, record b { influx = some backend })
        else (raised runtime_error, b)
  ]
]

-- `_loki`
unfoldable pub get_loki : Outcome BridgeSettings → Backends → Outcome String × Backends
get_loki settings b = elim b.loki [
  | some url ↦ (returned url, b)
  | none ↦ elim settings [
    | raised e ↦ (raised e, b)
    | returned s ↦ let url = push_url s.loki_url in (returned url, record b { loki = some url })
  ]
]
