-- ===== src/Scripts/Sections/Sound.antt =====
-- What the check of the sections accepts: the patterns as relations, in which each repetition may
-- stop anywhere.
use Prim.Native.Char.{Char, code}
use embediq_cloud.Prelude.{
  ℕ, String, ◌≡◌, ◌↔◌, refl, Bool, Bool-cases, true, false, ◌&&◌, List, [], ◌∷◌, ◌++◌, All, nat_eq,
  leb, arith, inl, inr,
}
use embediq_cloud.Prelude.Strip.{lstrip, is_space}
use embediq_cloud.Scripts.Sections.{
  Pattern, required, is_hash, same, at_boundary, word_matches, spaces_match, heading_matches,
  search_from, missing, named, failures, main,
}

-- the text starts with a lower-case letter
abbrev starts_letter : String → Bool
starts_letter String.[] = false
starts_letter (String.◌∷◌ d w) = leb b'a' (code d) && leb (code d) b'z'

letter-not_space :
    (c d : ℕ) → leb b'a' d ≡ true → leb d b'z' ≡ true → same c d ≡ true → is_space c ≡ false
letter-not_space c d lo hi e = ground (arith, lo, hi, e)

letter-not_hash :
    (c d : ℕ) → leb b'a' d ≡ true → leb d b'z' ≡ true → same c d ≡ true → is_hash c ≡ false
letter-not_hash c d lo hi e = ground (arith, lo, hi, e)

space-not_hash : (c : ℕ) → is_space c ≡ true → is_hash c ≡ false
space-not_hash c e = ground (arith, e)

module _ (is_alnum : ℕ → Bool) (p : Pattern) where
  -- the rest of the word, and `\b`
  pub data InWord : String → String → Type 0 where
    end : {s : String} → (p.bounded ≡ true → at_boundary is_alnum s ≡ true) → InWord "" s
    letter :
        {c d : Char} {w s : String}
        → same (code c) (code d) ≡ true
        → InWord w s
        → InWord (String.◌∷◌ d w) (String.◌∷◌ c s)

  -- `\s*word`
  pub data InSpaces : String → Type 0 where
    space :
        {c : Char} {s : String} → is_space (code c) ≡ true → InSpaces s → InSpaces (String.◌∷◌ c s)
    word : {s : String} → InWord p.word s → InSpaces s

  -- `#+\s*word`
  pub data InHashes : String → Type 0 where
    hash :
        {c : Char} {s : String} → is_hash (code c) ≡ true → InHashes s → InHashes (String.◌∷◌ c s)
    last_hash :
        {c : Char} {s : String} → is_hash (code c) ≡ true → InSpaces s → InHashes (String.◌∷◌ c s)

  -- at the start of this line, or of a later one
  pub data InText : Bool → String → Type 0 where
    here : {s : String} → InHashes s → InText true s
    later :
        {b : Bool} {c : Char} {s : String}
        → InText (nat_eq (code c) 10) s
        → InText b (String.◌∷◌ c s)

  word_matches-InWord : (w s : String) → word_matches is_alnum p w s ≡ true → InWord w s
  word_matches-InWord String.[] s e = end (λ b. ground (arith, e, b))
  word_matches-InWord (String.◌∷◌ d w) String.[] e = cc
  word_matches-InWord (String.◌∷◌ d w) (String.◌∷◌ c s) e =
      letter (ground (arith, e)) (word_matches-InWord w s (ground (arith, e)))

  InWord-word_matches : (w s : String) → InWord w s → word_matches is_alnum p w s ≡ true
  InWord-word_matches w s (end b) = ground (arith, b)
  InWord-word_matches w s (letter e m) = ground (arith, e, InWord-word_matches _ _ m)

  spaces_match-InSpaces : (s : String) → spaces_match is_alnum p s ≡ true → InSpaces s
  spaces_match-InSpaces String.[] e = word (word_matches-InWord p.word "" e)
  spaces_match-InSpaces (String.◌∷◌ c s) e = elim (Bool-cases (is_space (code c))) [
    | inl h ↦ space h (spaces_match-InSpaces s (rw h at e))
    | inr h ↦ word (word_matches-InWord p.word (String.◌∷◌ c s) (rw h at e))
  ]

  heading_matches-InHashes : (s : String) → heading_matches is_alnum p s ≡ true → InHashes s
  heading_matches-InHashes String.[] e = cc
  heading_matches-InHashes (String.◌∷◌ c String.[]) e =
      last_hash (ground (arith, e)) (spaces_match-InSpaces "" (ground (arith, e)))
  heading_matches-InHashes (String.◌∷◌ c (String.◌∷◌ d s)) e =
      elim (Bool-cases (is_hash (code d))) [
        | inl h ↦
            hash (ground (arith, e))
              (heading_matches-InHashes (String.◌∷◌ d s) (ground (arith, h, rw h at e)))
        | inr h ↦
            last_hash (ground (arith, e))
              (spaces_match-InSpaces (String.◌∷◌ d s) (ground (arith, rw h at e)))
      ]

  search-InText : (b : Bool) (s : String) → search_from is_alnum p b s ≡ true → InText b s
  search-InText b String.[] e = cc
  search-InText true (String.◌∷◌ c s) e =
      elim (Bool-cases (heading_matches is_alnum p (String.◌∷◌ c s))) [
        | inl h ↦ here (heading_matches-InHashes (String.◌∷◌ c s) h)
        | inr h ↦ later (search-InText (nat_eq (code c) 10) s (ground (arith, e, h)))
      ]
  search-InText false (String.◌∷◌ c s) e = later (search-InText (nat_eq (code c) 10) s e)

module _ (is_alnum : ℕ → Bool) (p : Pattern) (low : starts_letter p.word ≡ true) where
  -- the word starts with no space and no hash
  InWord-unstripped :
      (w s : String)
      → starts_letter w ≡ true
      → InWord is_alnum p w s
      → (lstrip is_space s ≡ s) × (lstrip is_hash s ≡ s)
  InWord-unstripped w s l (end b) = cc
  InWord-unstripped w s l (letter {c} {d} e m) = (
    rw (letter-not_space (code c) (code d) (ground (arith, l)) (ground (arith, l)) e) refl,
    rw (letter-not_hash (code c) (code d) (ground (arith, l)) (ground (arith, l)) e) refl,
  )

  InSpaces-spaces_match : (s : String) → InSpaces is_alnum p s → spaces_match is_alnum p s ≡ true
  InSpaces-spaces_match s (space e m) = rw e (InSpaces-spaces_match _ m)
  InSpaces-spaces_match s (word m) =
      rw ((InWord-unstripped p.word s low m).0) (InWord-word_matches is_alnum p p.word s m)

  InSpaces-unstripped : (s : String) → InSpaces is_alnum p s → lstrip is_hash s ≡ s
  InSpaces-unstripped s (space {c} e m) = rw (space-not_hash (code c) e) refl
  InSpaces-unstripped s (word m) = (InWord-unstripped p.word s low m).1

  one_more :
      (c : Char) (s : String)
      → is_hash (code c) ≡ true
      → heading_matches is_alnum p s ≡ true
      → heading_matches is_alnum p (String.◌∷◌ c s) ≡ true
  one_more c String.[] e h = cc
  one_more c (String.◌∷◌ d s) e h =
      let k : is_hash (code d) ≡ true = ground (arith, h) in rw e (rw k (rw k at h))

  found_here :
      (s : String) → heading_matches is_alnum p s ≡ true → search_from is_alnum p true s ≡ true
  found_here String.[] h = cc
  found_here (String.◌∷◌ c s) h = ground (arith, h)

  InHashes-heading_matches :
      (s : String) → InHashes is_alnum p s → heading_matches is_alnum p s ≡ true
  InHashes-heading_matches s (hash {c} {s = t} e m) = one_more c t e (InHashes-heading_matches t m)
  InHashes-heading_matches s (last_hash {s = t} e m) =
      rw e (rw (InSpaces-unstripped t m) (InSpaces-spaces_match t m))

  InText-search :
      (b : Bool) (s : String) → InText is_alnum p b s → search_from is_alnum p b s ≡ true
  InText-search b s (here m) = found_here s (InHashes-heading_matches s m)
  InText-search b s (later m) = ground (arith, InText-search _ _ m)

  -- the search decides whether a line has the heading
  search_iff :
      (text : String) → (search_from is_alnum p true text ≡ true) ↔ InText is_alnum p true text
  search_iff text = (search-InText is_alnum p true text, InText-search true text)

module _ (is_alnum : ℕ → Bool) where
  -- each required section has a heading
  abbrev pub HasSections : String → Type 0
  HasSections text = All (λ r. InText is_alnum r.1 true text) required

  missing-eq-nil_iff :
      (text : String) (ps : List (String × Pattern))
      → All (λ r. starts_letter r.1.word ≡ true) ps
      → (missing is_alnum text ps ≡ []) ↔ All (λ r. InText is_alnum r.1 true text) ps
  missing-eq-nil_iff text [] low = ground arith
  missing-eq-nil_iff text ((name, p) ∷ ps) low =
      ground (arith, search_iff is_alnum p low.0 text, missing-eq-nil_iff text ps low.1)

  named-append-nil_iff :
      (path : String) (names : List String) (rest : List (String × String))
      → (named path names ++ rest ≡ []) ↔ ((names ≡ []) × (rest ≡ []))
  named-append-nil_iff path [] rest = ground arith
  named-append-nil_iff path (n ∷ ns) rest = (λ e. cc, λ h. cc)

  failures-eq-nil_iff :
      (files : List (String × String))
      → (failures is_alnum files ≡ []) ↔ All (λ f. HasSections f.1) files
  failures-eq-nil_iff [] = ground arith
  failures-eq-nil_iff ((path, text) ∷ files) =
      let (a, b) =
        named-append-nil_iff path (missing is_alnum text required) (failures is_alnum files) in
      let (c, d) = missing-eq-nil_iff text required (refl, (refl, (refl, (refl, (refl, tt))))) in
      let (f, g) = failures-eq-nil_iff files in (λ e. (c (a e).0, f (a e).1), λ h. b (d h.0, g h.1))

  pub main-passes_iff :
      (files : List (String × String))
      → (main is_alnum files ≡ 0) ↔ All (λ f. HasSections f.1) files
  unfolding main
  main-passes_iff files = ground (arith, failures-eq-nil_iff files)
