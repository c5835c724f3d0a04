-- ===== src/Json/Dict.antt =====
-- Laws of the dictionary operations.
use embediq_cloud.Prelude.{
  ◌≡◌, refl, String, ◌==◌, eq_iff, Option, none, some, [], ◌∷◌, arith, or_else, if◌then◌else◌,
}
use embediq_cloud.Json.{obj, object, Codec, Value, Object, lookup, set, update, fields, to_fields}

pub fields-to_fields : (d : Object) → fields (to_fields d) ≡ d
fields-to_fields [] = refl
fields-to_fields ((k, v) ∷ d) = ground (arith, fields-to_fields d)

lookup-set :
    (k j : String) (v : Value) (d : Object)
    → lookup j (set k v d) ≡ (if k == j then some v else lookup j d)
lookup-set k j v [] = refl
lookup-set k j v ((i, w) ∷ d) =
    ground (arith, lookup-set k j v d, eq_iff k j, eq_iff i k, eq_iff i j)

-- the last entry under a key, which is the one that `update` leaves
abbrev pub last : String → Object → Option Value
last k [] = none
last k ((j, v) ∷ d) = or_else (last k d) (if j == k then some v else none)

pub lookup-update :
    (k : String) (d delta : Object)
    → lookup k (update d delta) ≡ or_else (last k delta) (lookup k d)
lookup-update k d [] = refl
lookup-update k d ((j, v) ∷ delta) =
    ground (arith, lookup-update k (set j v d) delta, lookup-set j k v d)

-- the keys are distinct, as in every dict
abbrev pub HasUniqueKeys : Object → Type 0
HasUniqueKeys [] = Unit
HasUniqueKeys ((k, _) ∷ d) = (lookup k d ≡ none) × HasUniqueKeys d

pub last-eq-lookup : (k : String) (d : Object) → HasUniqueKeys d → last k d ≡ lookup k d
last-eq-lookup k [] h = refl
last-eq-lookup k ((j, v) ∷ d) h = ground (arith, last-eq-lookup k d h.1, eq_iff j k)

set-HasUniqueKeys :
    (k : String) (v : Value) (d : Object) → HasUniqueKeys d → HasUniqueKeys (set k v d)
set-HasUniqueKeys k v [] h = (refl, tt)
set-HasUniqueKeys k v ((j, w) ∷ d) h =
    ground (arith, set-HasUniqueKeys k v d h.1, lookup-set k j v d, eq_iff j k, eq_iff k j)

pub update-HasUniqueKeys : (d delta : Object) → HasUniqueKeys d → HasUniqueKeys (update d delta)
update-HasUniqueKeys d [] h = h
update-HasUniqueKeys d ((k, v) ∷ delta) h =
    update-HasUniqueKeys (set k v d) delta (set-HasUniqueKeys k v d h)

module _ (C : Codec) where
  -- a document that holds a dict
  abbrev pub dict_of : C.Text → Option Object
  dict_of t = elim (C.loads t) [ some (obj fs) ↦ some (fields fs) | _ ↦ none ]

  pub dict_of-dumps : (d : Object) → dict_of (C.dumps (object d)) ≡ some d
  dict_of-dumps d = ground (arith, C.loads-dumps (object d), fields-to_fields d)
