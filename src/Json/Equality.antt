-- ===== src/Json/Equality.antt =====
-- Python's `==` on JSON values is reflexive on values whose dicts have distinct keys.
use embediq_cloud.Prelude.{◌≡◌, refl, String, eq_iff, eq_refl, true, false, none, some, ◌∷◌, arith}
use embediq_cloud.Prelude.Int.{ℤ, pos, negsuc, eq_ℤ, scale}
use embediq_cloud.Json.{
  Value, null, bool, int, float, str, arr, obj, Items, no_items, item, Fields, no_entries, entry,
  fields, Object, lookup, py_eq, py_eq_items, py_eq_fields,
}
use embediq_cloud.Json.Dict.{HasUniqueKeys}

-- every dict in the value has distinct keys
abbrev mutual
  pub IsJson : Value → Type 0
  IsJson (arr xs) = AllItems xs
  IsJson (obj fs) = HasUniqueKeys (fields fs) × AllFields fs
  IsJson _ = Unit

  pub AllItems : Items → Type 0
  AllItems no_items = Unit
  AllItems (item x xs) = IsJson x × AllItems xs

  pub AllFields : Fields → Type 0
  AllFields no_entries = Unit
  AllFields (entry k v fs) = IsJson v × AllFields fs

eq_ℤ_refl : (a : ℤ) → eq_ℤ a a ≡ true
eq_ℤ_refl (pos a) = ground arith
eq_ℤ_refl (negsuc a) = ground arith

-- each entry of `fs` stands in `d` under its key
abbrev Within : Fields → Object → Type 0
Within no_entries d = Unit
Within (entry k v fs) d = (lookup k d ≡ some v) × Within fs d

Within-cons :
    (k : String) (v : Value) (fs : Fields) (d : Object)
    → lookup k (fields fs) ≡ none
    → Within fs d
    → Within fs ((k, v) ∷ d)
Within-cons k v no_entries d e h = tt
Within-cons k v (entry j w fs) d e h = ground (arith, Within-cons k v fs d, eq_iff j k, eq_iff k j)

Within-self : (fs : Fields) → HasUniqueKeys (fields fs) → Within fs (fields fs)
Within-self no_entries h = tt
Within-self (entry k v fs) h =
    ground (arith, eq_refl k, Within-cons k v fs (fields fs) h.0 (Within-self fs h.1))

mutual
  unfolding py_eq

  refl_value : (v : Value) → IsJson v → py_eq v v ≡ true
  refl_value null h = refl
  refl_value (bool true) h = refl
  refl_value (bool false) h = refl
  refl_value (int n) h = eq_ℤ_refl (scale n 0)
  refl_value (float m k) h = eq_ℤ_refl (scale m k)
  refl_value (str s) h = eq_refl s
  refl_value (arr xs) h = refl_items xs h
  refl_value (obj fs) h = ground (arith, refl_fields fs (fields fs) h.1 (Within-self fs h.0))

  refl_items : (xs : Items) → AllItems xs → py_eq_items xs xs ≡ true
  refl_items no_items h = refl
  refl_items (item x xs) h = ground (arith, refl_value x h.0, refl_items xs h.1)

  refl_fields : (fs : Fields) (d : Object) → AllFields fs → Within fs d → py_eq_fields fs d ≡ true
  refl_fields no_entries d h w = refl
  refl_fields (entry k v fs) d h w = ground (arith, refl_value v h.0, refl_fields fs d h.1 w.1)

pub py_eq_refl : (v : Value) → IsJson v → py_eq v v ≡ true
py_eq_refl v h = refl_value v h
