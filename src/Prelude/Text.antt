-- ===== src/Prelude/Text.antt =====
-- Texts character by character, where the program does more with them than compare.
use Prim.Native.Char.{Char, code}
use Prim.Native.String.{String, [], ◌∷◌, ◌++◌}
use mathlib.Core.List.{List}
use mathlib.Core.Path.{◌≡◌, refl, sym, ap, ap₂, ◌∙◌}
use mathlib.Core.Logic.{◌≢◌, inl, inr}
use mathlib.Core.Bool.{Bool, true, false, ◌||◌}
use native.Mathlib.Omega.{arith}
use text.Mathlib.TextEquality.{codes_equal}
use text.Mathlib.TextLemmas.{nil-append, cons-append}
use embediq_cloud.Prelude.Tests.{nat_eq, if◌then◌else◌, Bool-cases}

-- the concatenation of texts
infixr 65 ◌+++◌
abbrev pub ◌+++◌ : String → String → String
s +++ t = s ++ t

abbrev push_head : Char → List String → List String
push_head c List.[] = List.◌∷◌ (c ∷ []) List.[]
push_head c (List.◌∷◌ p ps) = List.◌∷◌ (c ∷ p) ps

-- `s.split("/")`
abbrev pub split : String → List String
split [] = List.◌∷◌ "" List.[]
split (c ∷ s) =
    let rest = split s in if nat_eq (code c) b'/' then List.◌∷◌ "" rest else push_head c rest

-- `"/".join(parts)`
abbrev pub join : List String → String
join List.[] = ""
join (List.◌∷◌ p List.[]) = p
join (List.◌∷◌ p (List.◌∷◌ q ps)) = p ++ ("/" ++ join (List.◌∷◌ q ps))

abbrev pub NoSlash : String → Type 0
NoSlash [] = Unit
NoSlash (c ∷ s) = (nat_eq (code c) b'/' ≡ false) × NoSlash s

-- The parts of a split hold no slash.
abbrev pub AllNoSlash : List String → Type 0
AllNoSlash List.[] = Unit
AllNoSlash (List.◌∷◌ p ps) = NoSlash p × AllNoSlash ps

push_head-NoSlash :
    (c : Char) (ps : List String)
    → nat_eq (code c) b'/' ≡ false
    → AllNoSlash ps
    → AllNoSlash (push_head c ps)
push_head-NoSlash c List.[] e h = ((e, tt), tt)
push_head-NoSlash c (List.◌∷◌ p ps) e h = ((e, h.0), h.1)

pub split-NoSlash : (s : String) → AllNoSlash (split s)
split-NoSlash [] = (tt, tt)
split-NoSlash (c ∷ s) = elim (Bool-cases (nat_eq (code c) b'/')) [
  | inl e ↦ rw e (tt, split-NoSlash s)
  | inr e ↦ rw e (push_head-NoSlash c (split s) e (split-NoSlash s))
]

-- The text before the first slash is a part.
pub split-append : (s t : String) → NoSlash s → split (s ++ ("/" ++ t)) ≡ List.◌∷◌ s (split t)
split-append [] t h = rw (nil-append, cons-append, nil-append) refl
split-append (c ∷ s) t h = rw (cons-append c s ("/" ++ t)) (rw (h.0, split-append s t h.1) refl)

push_head-ne-nil : (c : Char) (ps : List String) → push_head c ps ≢ List.[]
push_head-ne-nil c List.[] e = cc
push_head-ne-nil c (List.◌∷◌ p ps) e = cc

pub split-ne-nil : (s : String) → split s ≢ List.[]
split-ne-nil [] e = cc
split-ne-nil (c ∷ s) e = elim (Bool-cases (nat_eq (code c) b'/')) [
  | inl h ↦ cc (rw h at e)
  | inr h ↦ push_head-ne-nil c (split s) (rw h at e)
]

join-push_head : (c : Char) (ps : List String) → join (push_head c ps) ≡ c ∷ join ps
join-push_head c List.[] = refl
join-push_head c (List.◌∷◌ p List.[]) = refl
join-push_head c (List.◌∷◌ p (List.◌∷◌ q ps)) = cons-append c p ("/" ++ join (List.◌∷◌ q ps))

abbrev slash : Char
slash = "/"

join-slash : (ps : List String) → ps ≢ List.[] → join (List.◌∷◌ "" ps) ≡ slash ∷ join ps
join-slash List.[] h = absurd (h refl)
join-slash (List.◌∷◌ p ps) h = rw (nil-append, cons-append, nil-append) refl

is_slash : (c : Char) → nat_eq (code c) b'/' ≡ true → c ≡ slash
is_slash c h = codes_equal c slash (ground arith)

-- `"/".join(s.split("/")) == s`
pub join-split : (s : String) → join (split s) ≡ s
join-split [] = refl
join-split (c ∷ s) = elim (Bool-cases (nat_eq (code c) b'/')) [
  | inl h ↦ rw h (
      join-slash (split s) (split-ne-nil s)
      ∙ ap₂ (λ x y. x ∷ y) (sym (is_slash c h)) (join-split s))
  | inr h ↦ rw h (join-push_head c (split s) ∙ ap (λ y. c ∷ y) (join-split s))
]

-- a line feed in the text
abbrev pub has_feed : String → Bool
has_feed [] = false
has_feed (c ∷ s) = nat_eq (code c) 10 || has_feed s
