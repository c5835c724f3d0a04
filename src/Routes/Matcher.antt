-- ===== src/Routes/Matcher.antt =====
-- A matcher that does what the framework's documentation says: segment by segment.
use mathlib.Core.Option
use embediq_cloud.Prelude.{
  String, ◌==◌, eq_iff, eq_refl, ◌≡◌, refl, sym, ap, subst, ◌∙◌, Bool-cases, Option, Option-cases,
  none, some, List, [], ◌∷◌, arith, split, join, split-NoSlash, join-split, AllNoSlash, inl, inr,
  if◌then◌else◌,
}
use embediq_cloud.Routes.Patterns.{
  IsPlain, Segment, literal, parameter, segments, ArePlain, FitsSegments, filled,
}
use embediq_cloud.Routes.{Router}
use embediq_cloud.Routes.Reached.{split-filled_path}

matched : List Segment → List String → Option (List String)
matched [] [] = some []
matched [] (s ∷ ss) = none
matched (x ∷ p) [] = none
matched (literal s ∷ p) (t ∷ ss) = let rest = matched p ss in if s == t then rest else none
matched (parameter ∷ p) (t ∷ ss) =
    let rest = matched p ss in if t == "" then none else Option.map (λ args. t ∷ args) rest

matched-filled :
    (p : List Segment) (args : List String)
    → FitsSegments p args
    → matched p (filled p args) ≡ some args
unfolding matched
matched-filled [] [] k = refl
matched-filled [] (a ∷ args) k = absurd k
matched-filled (literal s ∷ p) args k = ground (arith, eq_refl s, matched-filled p args k)
matched-filled (parameter ∷ p) [] k = absurd k
matched-filled (parameter ∷ p) (a ∷ args) k =
    ground (arith, eq_iff a "", k.0.0, matched-filled p args k.1)

some_eq : (a b : List String) → some a ≡ some b → a ≡ b
some_eq a b e = cc

filled-matched :
    (p : List Segment) (ss args : List String)
    → AllNoSlash ss
    → matched p ss ≡ some args
    → FitsSegments p args × (ss ≡ filled p args) × ArePlain args
unfolding matched
filled-matched [] [] args h e =
    subst (λ x. FitsSegments [] x × (◌≡◌ {A = List String} [] []) × ArePlain x) (some_eq [] args e)
      (tt, refl, tt)
filled-matched [] (s ∷ ss) args h e = cc
filled-matched (literal s ∷ p) [] args h e = cc
filled-matched (parameter ∷ p) [] args h e = cc
filled-matched (literal s ∷ p) (t ∷ ss) args h e = elim (Bool-cases (s == t)) [
  | inl g ↦
      let (k, f, plain) = filled-matched p ss args h.1 (ground (arith, e, g)) in
      (k, ground (arith, f, g, eq_iff s t), plain)
  | inr g ↦ absurd (ground (arith, e, g))
]
filled-matched (parameter ∷ p) (t ∷ ss) args h e = elim (Bool-cases (t == "")) [
  | inl g ↦ absurd (ground (arith, e, g))
  | inr g ↦ elim (Option-cases (matched p ss)) [
    | inl n ↦ absurd (ground (arith, e, g, n))
    | inr (a, n) ↦
        let (k, f, plain) = filled-matched p ss a h.1 n in
        let is_plain : IsPlain t = (ground (arith, g, eq_iff t ""), h.0) in
        subst
          (λ x. FitsSegments (parameter ∷ p) x × (t ∷ ss ≡ filled (parameter ∷ p) x) × ArePlain x)
          (some_eq (t ∷ a) args (ground (arith, e, g, n)))
          ((is_plain, k), ap (λ x. t ∷ x) f, (is_plain, plain))
  ]
]

pub matcher : Router
matcher = record {
  match = λ pattern path. matched (segments pattern) (split path);
  match-filled = λ pattern args k.
      rw (split-filled_path pattern args k) (matched-filled (segments pattern) args k);
  match-ArePlain = λ pattern path args e.
      (filled-matched (segments pattern) (split path) args (split-NoSlash path) e).2;
  filled-match = λ pattern path args feed e.
      let (k, f, plain) =
        filled-matched (segments pattern) (split path) args (split-NoSlash path) e in
      (k, sym (join-split path) ∙ ap join f);
}
