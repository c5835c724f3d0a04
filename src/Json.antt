-- ===== src/Json.antt =====
-- The values of Python's `json`, and the dictionaries and comparisons that the handlers make of
-- them. A finite float is `m / 2^k`; NaN and the infinities are left out. A dict is its entries in
-- the order of insertion.
pub mod Dict
pub mod Equality
use embediq_cloud.Prelude.{
  ℕ, ◌≡◌, Bool, true, false, not, ◌&&◌, String, ◌==◌, Option, none, some, List, [], ◌∷◌, length,
  nat_eq, if◌then◌else◌,
}
use embediq_cloud.Prelude.Int.{ℤ, pos, eq_ℤ, scale, is_zero}

mutual
  pub data Value : Type 0 where
    null : Value
    bool : Bool → Value
    int : ℤ → Value
    float : ℤ → ℕ → Value
    str : String → Value
    arr : Items → Value
    obj : Fields → Value

  pub data Fields : Type 0 where
    no_entries : Fields
    entry : String → Value → Fields → Fields

  pub data Items : Type 0 where
    no_items : Items
    item : Value → Items → Items

-- `dict[str, Any]`
abbrev pub Object : Type 0
Object = List (String × Value)

abbrev pub fields : Fields → Object
fields no_entries = []
fields (entry k v fs) = (k, v) ∷ fields fs

abbrev pub to_fields : Object → Fields
to_fields [] = no_entries
to_fields ((k, v) ∷ d) = entry k v (to_fields d)

abbrev pub object : Object → Value
object d = obj (to_fields d)

abbrev pub to_items : List Value → Items
to_items [] = no_items
to_items (v ∷ vs) = item v (to_items vs)

abbrev pub list : List Value → Value
list vs = arr (to_items vs)

-- `d.get(key)`, with `none` for a missing key
abbrev pub lookup : String → Object → Option Value
lookup k [] = none
lookup k ((j, v) ∷ d) = if j == k then some v else lookup k d

-- `d.get(key)`, with Python's `None` for a missing key
abbrev pub get : String → Object → Value
get k d = elim (lookup k d) [ none ↦ null | some v ↦ v ]

-- `d[key] = value`: a key that is there keeps its place
abbrev pub set : String → Value → Object → Object
set k v [] = (k, v) ∷ []
set k v ((j, w) ∷ d) = if j == k then (j, v) ∷ d else (j, w) ∷ set k v d

-- `d.update(delta)`
abbrev pub update : Object → Object → Object
update d [] = d
update d ((k, v) ∷ delta) = update (set k v d) delta

-- A number is `m / 2^k`; `True` and `False` are the numbers 1 and 0.
abbrev as_number : Value → Option (ℤ × ℕ)
as_number (bool b) = some (pos (if b then 1 else 0), 0)
as_number (int n) = some (n, 0)
as_number (float m k) = some (m, k)
as_number _ = none

abbrev number_eq : Option (ℤ × ℕ) → Option (ℤ × ℕ) → Bool
number_eq (some (a, j)) (some (b, k)) = eq_ℤ (scale a k) (scale b j)
number_eq _ _ = false

-- `found(v)` on the value of a key, and false on a missing key
abbrev on_found : (Value → Bool) → Option Value → Bool
on_found p none = false
on_found p (some v) = p v

-- Python's `v == w`
unfoldable mutual
  pub py_eq : Value → Value → Bool
  py_eq null null = true
  py_eq (str s) (str t) = s == t
  py_eq (arr xs) (arr ys) = py_eq_items xs ys
  py_eq (obj fs) (obj gs) =
      nat_eq (length (fields fs)) (length (fields gs)) && py_eq_fields fs (fields gs)
  py_eq v w = number_eq (as_number v) (as_number w)

  pub py_eq_items : Items → Items → Bool
  py_eq_items no_items no_items = true
  py_eq_items (item x xs) (item y ys) = py_eq x y && py_eq_items xs ys
  py_eq_items _ _ = false

  -- every entry has an equal one under its key
  pub py_eq_fields : Fields → Object → Bool
  py_eq_fields no_entries d = true
  py_eq_fields (entry k v fs) d = on_found (py_eq v) (lookup k d) && py_eq_fields fs d

-- Python's `bool(v)`
unfoldable pub truthy : Value → Bool
truthy null = false
truthy (bool b) = b
truthy (int n) = not (is_zero n)
truthy (float m k) = not (is_zero m)
truthy (str s) = not (s == "")
truthy (arr no_items) = false
truthy (arr (item v vs)) = true
truthy (obj no_entries) = false
truthy (obj (entry k v fs)) = true

-- `v == "text"`
abbrev pub is_text : String → Value → Bool
is_text t (str s) = s == t
is_text t _ = false

-- `v is None`
abbrev pub is_null : Value → Bool
is_null null = true
is_null _ = false

-- Reading and printing text is the library's work. `Text` is a JSON document.
pub record Codec : Type 1 where
  pub Text : Type 0
  pub dumps : Value → Text
  -- `none` is the `ValueError` of a malformed document
  pub loads : Text → Option Value
  -- a document reads back as the value that was written
  pub loads-dumps : (v : Value) → loads (dumps v) ≡ some v
  -- `str(v)`, which is `v` at a string
  pub py_str : Value → String
  pub py_str-str : (s : String) → py_str (str s) ≡ s
  -- the text that a number becomes in a TEXT column of SQLite
  pub column_text : Value → String
