-- ===== src/Prelude/Table.antt =====
-- A SQL table with a TEXT key: its rows in the order of insertion, and the statements on them.
use Prim.Native.Nat.{Ordering}
use Prim.Native.String.{String, compare}
use mathlib.Core.Logic.{inl, inr}
use mathlib.Core.Bool.{Bool, true, false}
use mathlib.Core.Path.{◌≡◌, refl, subst}
use mathlib.Core.Option
use mathlib.Core.Option.{Option, none, some, some-injective}
use mathlib.Core.List.{map, List, [], ◌∷◌, ◌++◌}
use native.Mathlib.Omega.{arith}
use text.Mathlib.Text.{◌==◌}
use text.Mathlib.TextEquality.{eq_iff}
use embediq_cloud.Prelude.Lists.{count, All}
use embediq_cloud.Prelude.Tests.{Bool-cases, or_else, if◌then◌else◌}

-- the binary order of texts
abbrev at_most : String → String → Bool
at_most a b = elim (compare a b) [ Ordering.gt ↦ false | _ ↦ true ]

module _ {R : Type 0} (key : R → String) where
  -- SELECT ... WHERE key = k, the first row
  abbrev pub find : String → List R → Option R
  find k [] = none
  find k (r ∷ rs) = if key r == k then some r else find k rs

  -- UPDATE ... WHERE key = k
  abbrev pub update : String → (R → R) → List R → List R
  update k f [] = []
  update k f (r ∷ rs) = (if key r == k then f r else r) ∷ update k f rs

  -- DELETE ... WHERE key = k
  abbrev pub delete : String → List R → List R
  delete k [] = []
  delete k (r ∷ rs) = let rest = delete k rs in if key r == k then rest else r ∷ rest

  -- ORDER BY key
  insert_row : R → List R → List R
  insert_row r [] = r ∷ []
  insert_row r (x ∷ rs) = if at_most (key r) (key x) then r ∷ x ∷ rs else x ∷ insert_row r rs

  unfoldable pub order_by : List R → List R
  unfolding insert_row
  order_by [] = []
  order_by (r ∷ rs) = insert_row r (order_by rs)

  -- no key stands in two rows
  abbrev pub HasUniqueKeys : List R → Type 0
  HasUniqueKeys [] = Unit
  HasUniqueKeys (r ∷ rs) = (find (key r) rs ≡ none) × HasUniqueKeys rs

module _ {R : Type 0} (key : R → String) where
  pub find-append :
      (k : String) (rs : List R) (r : R)
      → find key k (rs ++ r ∷ []) ≡ or_else (find key k rs) (if key r == k then some r else none)
  find-append k [] r = refl
  find-append k (x ∷ rs) r = ground (arith, find-append k rs r)

  find-key : (k : String) (rs : List R) (r : R) → find key k rs ≡ some r → key r ≡ k
  find-key k [] r e = cc
  find-key k (x ∷ rs) r e = ground (arith, find-key k rs r, eq_iff (key x) k)

  pub find-delete :
      (k j : String) (rs : List R)
      → find key j (delete key k rs) ≡ (if k == j then none else find key j rs)
  find-delete k j [] = ground arith
  find-delete k j (x ∷ rs) =
      ground (arith, find-delete k j rs, eq_iff (key x) k, eq_iff (key x) j, eq_iff k j)

  pub delete-HasUniqueKeys :
      (k : String) (rs : List R) → HasUniqueKeys key rs → HasUniqueKeys key (delete key k rs)
  delete-HasUniqueKeys k [] h = tt
  delete-HasUniqueKeys k (x ∷ rs) h =
      ground (arith, delete-HasUniqueKeys k rs h.1, find-delete k (key x) rs)

  pub append-HasUniqueKeys :
      (rs : List R) (r : R)
      → HasUniqueKeys key rs
      → find key (key r) rs ≡ none
      → HasUniqueKeys key (rs ++ r ∷ [])
  append-HasUniqueKeys [] r h e = (refl, tt)
  append-HasUniqueKeys (x ∷ rs) r h e = ground (
    arith,
    append-HasUniqueKeys rs r h.1,
    find-append (key x) rs r,
    eq_iff (key x) (key r),
    eq_iff (key r) (key x),
  )

-- a write that leaves the keys alone
module _ {R : Type 0} (key : R → String) (f : R → R) (keeps : (r : R) → key (f r) ≡ key r) where
  pub find-update :
      (k j : String) (rs : List R)
      → find key j (update key k f rs)
        ≡ (if k == j then Option.map f (find key j rs) else find key j rs)
  find-update k j [] = ground arith
  find-update k j (x ∷ rs) =
      ground (arith, find-update k j rs, keeps x, eq_iff (key x) k, eq_iff (key x) j, eq_iff k j)

  pub update-HasUniqueKeys :
      (k : String) (rs : List R) → HasUniqueKeys key rs → HasUniqueKeys key (update key k f rs)
  update-HasUniqueKeys k [] h = tt
  update-HasUniqueKeys k (x ∷ rs) h =
      ground
        (arith, update-HasUniqueKeys k rs h.1, find-update k (key x) rs, keeps x, eq_iff (key x) k)

module _ {R : Type 0} (key : R → String) {V : Type 0} (f : R → V) (p : V → Bool) where
  count-insert_row :
      (r : R) (rs : List R) → count p (map f (insert_row key r rs)) ≡ count p (map f (r ∷ rs))
  unfolding insert_row
  count-insert_row r [] = refl
  count-insert_row r (x ∷ rs) = ground (arith, count-insert_row r rs)

  -- ORDER BY keeps each row, as often as it is there
  pub count-order_by : (rs : List R) → count p (map f (order_by key rs)) ≡ count p (map f rs)
  unfolding order_by
  count-order_by [] = refl
  count-order_by (r ∷ rs) = ground (arith, count-insert_row r (order_by key rs), count-order_by rs)

module _ {R : Type 0} (key : R → String) (P : R → Type 0) where
  pub All-find : (k : String) (rs : List R) (r : R) → All P rs → find key k rs ≡ some r → P r
  All-find k [] r h e = cc
  All-find k (x ∷ rs) r h e = elim (Bool-cases (key x == k)) [
    | inl y ↦ subst P (some-injective x r (rw y at e)) h.0
    | inr n ↦ All-find k rs r h.1 (rw n at e)
  ]

  pub All-delete : (k : String) (rs : List R) → All P rs → All P (delete key k rs)
  All-delete k [] h = tt
  All-delete k (r ∷ rs) h = elim (Bool-cases (key r == k)) [
    | inl y ↦ rw y (All-delete k rs h.1)
    | inr n ↦ rw n (h.0, All-delete k rs h.1)
  ]

  pub All-update :
      (k : String) (f : R → R) (rs : List R)
      → ((r : R) → P r → P (f r))
      → All P rs
      → All P (update key k f rs)
  All-update k f [] g h = tt
  All-update k f (r ∷ rs) g h = elim (Bool-cases (key r == k)) [
    | inl y ↦ rw y (g r h.0, All-update k f rs g h.1)
    | inr n ↦ rw n (h.0, All-update k f rs g h.1)
  ]
