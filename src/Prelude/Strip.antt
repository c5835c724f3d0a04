-- ===== src/Prelude/Strip.antt =====
-- Python's `str` methods that look at characters: prefixes, white space and lower case.
use Prim.Native.Char.{code}
use Prim.Native.Nat.{ℕ, ◌+◌}
use Prim.Native.String.{String, [], ◌∷◌, ◌++◌}
use mathlib.Core.Path.{◌≡◌, refl}
use mathlib.Core.Bool.{Bool, true, false, ◌&&◌, ◌||◌}
use mathlib.Core.Option.{Option, none, some}
use native.Mathlib.Omega.{arith}
use text.Mathlib.TextLemmas.{nil-append, cons-append}
use embediq_cloud.Prelude.Tests.{nat_eq, leb, if◌then◌else◌}

-- `c in range(lo, hi + 1)`
abbrev between : ℕ → ℕ → ℕ → Bool
between lo hi c = leb lo c && leb c hi

-- `c.isspace()`, by the code point
abbrev pub is_space : ℕ → Bool
is_space c =
    between 9 13 c
    || between 28 32 c
    || nat_eq c 133
    || nat_eq c 160
    || nat_eq c 5760
    || between 8192 8202 c
    || between 8232 8233 c
    || nat_eq c 8239
    || nat_eq c 8287
    || nat_eq c 12288

-- The characters that `int` skips at the ends of a text: the white space of C, and what
-- `c.isspace()` holds of outside ASCII.
abbrev pub is_int_space : ℕ → Bool
is_int_space c = between 9 13 c || nat_eq c 32 || (leb 128 c && is_space c)

abbrev is_empty : String → Bool
is_empty [] = true
is_empty (c ∷ s) = false

-- The text without the characters that pass, from its start and from its end.
abbrev pub lstrip : (ℕ → Bool) → String → String
lstrip p [] = []
lstrip p (c ∷ s) = let rest = lstrip p s in if p (code c) then rest else c ∷ s

abbrev pub rstrip : (ℕ → Bool) → String → String
rstrip p [] = []
rstrip p (c ∷ s) = let rest = rstrip p s in if p (code c) && is_empty rest then [] else c ∷ rest

-- the code of the lower case of an ASCII letter
abbrev pub lower_code : ℕ → ℕ
lower_code c = if between b'A' b'Z' c then c + 32 else c

-- `s.strip()`
abbrev pub strip : String → String
strip s = rstrip is_space (lstrip is_space s)

-- `s.removeprefix(p)` where `s.startswith(p)`, and nothing elsewhere
abbrev pub after_prefix : String → String → Option String
after_prefix [] s = some s
after_prefix (p ∷ ps) [] = none
after_prefix (p ∷ ps) (c ∷ s) = if nat_eq (code p) (code c) then after_prefix ps s else none

pub after_prefix-append : (p s : String) → after_prefix p (p ++ s) ≡ some s
after_prefix-append [] s = rw nil-append refl
after_prefix-append (c ∷ p) s = rw (cons-append c p s) (ground (arith, after_prefix-append p s))

-- no character is white space
abbrev pub NoSpace : String → Type 0
NoSpace [] = Unit
NoSpace (c ∷ s) = (is_space (code c) ≡ false) × NoSpace s

lstrip-NoSpace : (s : String) → NoSpace s → lstrip is_space s ≡ s
lstrip-NoSpace [] h = refl
lstrip-NoSpace (c ∷ s) h = rw (h.0) refl

rstrip-NoSpace : (s : String) → NoSpace s → rstrip is_space s ≡ s
rstrip-NoSpace [] h = refl
rstrip-NoSpace (c ∷ s) h = rw (h.0) (rw (rstrip-NoSpace s h.1) refl)

pub strip-NoSpace : (s : String) → NoSpace s → strip s ≡ s
strip-NoSpace s h = rw (lstrip-NoSpace s h) (rstrip-NoSpace s h)
