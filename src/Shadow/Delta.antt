-- ===== src/Shadow/Delta.antt =====
-- `compute_delta` against its description.
use mathlib.Core.Option.{some-injective}
use embediq_cloud.Prelude.{
  ◌≡◌, refl, ap, String, ◌==◌, eq_iff, eq_refl, true, Option, none, some, [], ◌∷◌, arith, inl, inr,
  Bool-cases, subst, ◌↔◌, if◌then◌else◌,
}
use embediq_cloud.Json.{Value, null, Object, object, to_fields, lookup, get, update, py_eq}
use embediq_cloud.Json.Dict.{HasUniqueKeys, fields-to_fields, last-eq-lookup, lookup-update}
use embediq_cloud.Json.Equality.{IsJson, AllFields, py_eq_refl}
use embediq_cloud.Shadow.{compute_delta}

-- an entry that differs from what is reported under its key
abbrev pub kept : Object → String → Option Value → Option Value
kept reported k none = none
kept reported k (some v) = if py_eq (get k reported) v then none else some v

-- Where the keys of `desired` are distinct, the delta has, under each key, the desired value if that differs from what `reported.get` gives
-- for the key, and nothing otherwise.
pub lookup-compute_delta :
    (k : String) (desired reported : Object)
    → HasUniqueKeys desired
    → lookup k (compute_delta desired reported) ≡ kept reported k (lookup k desired)
unfolding compute_delta
lookup-compute_delta k [] reported h = refl
lookup-compute_delta k ((j, v) ∷ desired) reported h =
    ground (arith, lookup-compute_delta k desired reported h.1, eq_iff j k)

-- Where the keys of `desired` are distinct, a desired null under a key that is not reported is not
-- in the delta.
pub absent_null_omitted :
    (k : String) (desired reported : Object)
    → HasUniqueKeys desired
    → lookup k desired ≡ some null
    → lookup k reported ≡ none
    → lookup k (compute_delta desired reported) ≡ none
unfolding py_eq
absent_null_omitted k desired reported h e n =
    ground (arith, lookup-compute_delta k desired reported h)

-- `reported` agrees with `desired` on every key of `desired`
abbrev pub Agrees : Object → Object → Type 0
Agrees desired reported =
    (k : String) (v : Value) → lookup k desired ≡ some v → py_eq (get k reported) v ≡ true

compute_delta-of_Agrees :
    (desired reported : Object)
    → HasUniqueKeys desired
    → Agrees desired reported
    → compute_delta desired reported ≡ []
unfolding compute_delta
compute_delta-of_Agrees [] reported h a = refl
compute_delta-of_Agrees ((j, v) ∷ desired) reported h a = ground (
  arith,
  a j v,
  eq_refl j,
  compute_delta-of_Agrees desired reported h.1 (Agrees-tail j v desired reported h.0 a),
)
  where
    Agrees-tail :
        (j : String) (v : Value) (desired reported : Object)
        → lookup j desired ≡ none
        → Agrees ((j, v) ∷ desired) reported
        → Agrees desired reported
    Agrees-tail j v desired reported e a k w f = ground (arith, a k w, eq_iff j k)

-- Where the keys of `desired` are distinct, the delta is empty exactly when `reported` agrees with
-- `desired`: `reported.get` gives an equal value for each of its keys.
pub compute_delta-eq-nil_iff :
    (desired reported : Object)
    → HasUniqueKeys desired
    → (compute_delta desired reported ≡ []) ↔ Agrees desired reported
compute_delta-eq-nil_iff desired reported h = (
  λ e k v f. ground (arith, lookup-compute_delta k desired reported h, ap (lookup k) e),
  compute_delta-of_Agrees desired reported h,
)

compute_delta-HasUniqueKeys :
    (desired reported : Object)
    → HasUniqueKeys desired
    → HasUniqueKeys (compute_delta desired reported)
unfolding compute_delta
compute_delta-HasUniqueKeys [] reported h = tt
compute_delta-HasUniqueKeys ((j, v) ∷ desired) reported h = ground (
  arith,
  compute_delta-HasUniqueKeys desired reported h.1,
  lookup-compute_delta j desired reported h.1,
)

IsJson-lookup :
    (k : String) (v : Value) (d : Object) → AllFields (to_fields d) → lookup k d ≡ some v → IsJson v
IsJson-lookup k v [] h e = cc
IsJson-lookup k v ((j, w) ∷ d) h e = elim (Bool-cases (j == k)) [
  | inl same ↦ subst IsJson (some-injective w v (ground arith)) h.0
  | inr other ↦ IsJson-lookup k v d h.1 (ground arith)
]

-- A device that merges the delta into what it reports, and reports the result, leaves no delta.
pub compute_delta-update_self :
    (desired reported : Object)
    → IsJson (object desired)
    → compute_delta desired (update reported (compute_delta desired reported)) ≡ []
compute_delta-update_self desired reported h =
    let unique : HasUniqueKeys desired = rw (fields-to_fields desired) at h.0 in
    let delta = compute_delta desired reported in
    compute_delta-of_Agrees desired _ unique λ k v e. ground (
      arith,
      lookup-update k reported delta,
      last-eq-lookup k delta (compute_delta-HasUniqueKeys desired reported unique),
      lookup-compute_delta k desired reported unique,
      py_eq_refl v (IsJson-lookup k v desired h.1 e),
    )
