-- ===== src/Scripts/Headers/Sound.antt =====
-- What the check of the headers accepts.
use Prim.Native.Char.{Char, code}
use Prim.Native.String.{◌++◌}
use text.Mathlib.TextLemmas.{nil-append, cons-append}
use embediq_cloud.Prelude.{
  has_feed, String, ◌≡◌, ◌↔◌, refl, Bool, true, false, ◌||◌, List, [], ◌∷◌, All, is_some, nat_eq,
  arith,
}
use embediq_cloud.Prelude.Strip.{after_prefix}
use embediq_cloud.Scripts.Headers.{
  required, splitlines, first, join_lines, contains, missing, failures, main,
}

abbrev feed : Char
feed = "\n"

-- no line feed in the text
abbrev NoFeed : String → Type 0
NoFeed String.[] = Unit
NoFeed (String.◌∷◌ c s) = (nat_eq (code c) 10 ≡ false) × NoFeed s

no_feed : (s : String) → has_feed s ≡ false → NoFeed s
no_feed String.[] e = tt
no_feed (String.◌∷◌ c s) e = (ground (arith, e), no_feed s (ground (arith, e)))

-- a prefix without a line feed ends before the first one
prefix-line :
    (r a b : String)
    → NoFeed r
    → is_some (after_prefix r (a ++ ("\n" ++ b))) ≡ is_some (after_prefix r a)
prefix-line String.[] a b h = refl
prefix-line (String.◌∷◌ p r) String.[] b h =
    rw (nil-append ("\n" ++ b)) (rw (cons-append feed "" b) (ground (arith, h.0)))
prefix-line (String.◌∷◌ p r) (String.◌∷◌ c a) b h =
    rw (cons-append c a ("\n" ++ b)) (ground (arith, prefix-line r a b h.1))

-- some line has the text
abbrev pub has_line : String → List String → Bool
has_line r [] = false
has_line r (l ∷ ls) = contains r l || has_line r ls

module _ (p : Char) (r : String) (h : NoFeed (String.◌∷◌ p r)) where
  contains-line :
      (a b : String)
      → contains (String.◌∷◌ p r) (a ++ ("\n" ++ b))
        ≡ contains (String.◌∷◌ p r) a || contains (String.◌∷◌ p r) b
  contains-line String.[] b =
      rw (nil-append ("\n" ++ b))
        (rw (cons-append feed "" b) (rw (nil-append b) (ground (arith, h.0))))
  contains-line (String.◌∷◌ c a) b =
      let here = prefix-line (String.◌∷◌ p r) (String.◌∷◌ c a) b h in
      rw (cons-append c a ("\n" ++ b))
        (ground (arith, rw (cons-append c a ("\n" ++ b)) at here, contains-line a b))

  contains-join_lines :
      (ls : List String) → contains (String.◌∷◌ p r) (join_lines ls) ≡ has_line (String.◌∷◌ p r) ls
  contains-join_lines [] = refl
  contains-join_lines (l ∷ []) = ground arith
  contains-join_lines (l ∷ m ∷ ls) =
      ground (arith, contains-line l (join_lines (m ∷ ls)), contains-join_lines (m ∷ ls))

contains-header :
    (c : Char) (s : String)
    → has_feed (String.◌∷◌ c s) ≡ false
    → (ls : List String) → contains (String.◌∷◌ c s) (join_lines ls) ≡ has_line (String.◌∷◌ c s) ls
contains-header c s e ls = contains-join_lines c s (no_feed (String.◌∷◌ c s) e) ls

-- each required text stands in one of the first eight lines
abbrev pub IsHeaded : String → Type 0
IsHeaded text = All (λ r. has_line r (first 8 (splitlines text)) ≡ true) required

missing-eq-nil_iff : (text : String) → (missing text ≡ []) ↔ IsHeaded text
missing-eq-nil_iff text =
    let ls = first 8 (splitlines text) in
    let a = contains-header "@" "author  Ritesh Anand" refl ls in
    let b = contains-header "@" "company embediq.com | ritzylab.com" refl ls in
    let c = contains-header "S" "PDX-License-Identifier: Apache-2.0" refl ls in
    ground (arith, a, b, c)

failures-eq-nil_iff :
    (files : List (String × String)) → (failures files ≡ []) ↔ All (λ f. IsHeaded f.1) files
failures-eq-nil_iff [] = ground arith
failures-eq-nil_iff ((path, text) ∷ files) =
    ground (arith, missing-eq-nil_iff text, failures-eq-nil_iff files)

pub main-eq-zero_iff :
    (files : List (String × String)) → (main files ≡ 0) ↔ All (λ f. IsHeaded f.1) files
unfolding main
main-eq-zero_iff files = ground (arith, failures-eq-nil_iff files)
