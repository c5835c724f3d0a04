-- ===== src/Scripts/Sections.antt =====
-- scripts/check_doc_sections.py. The files that `rglob` finds are given with their texts, as
-- `read_text` gives them. Which characters outside ASCII are alphanumeric is a parameter.
pub mod Sound
use Prim.Native.Char.{code}
use Prim.Native.String
use embediq_cloud.Prelude.{
  ℕ, String, Bool, true, false, not, ◌||◌, ◌&&◌, List, [], ◌∷◌, ◌++◌, nat_eq, leb, if◌then◌else◌,
}
use embediq_cloud.Prelude.Strip.{lstrip, is_space, lower_code}

-- r"(?im)^#+\s*word\b", or without the "\b"
pub record Pattern : Type 0 where
  pub word : String
  pub bounded : Bool

-- `REQUIRED`
abbrev pub required : List (String × Pattern)
required =
    ("why", record { word = "why"; bounded = true })
    ∷ ("what", record { word = "what"; bounded = true })
    ∷ ("where it impacts", record { word = "where"; bounded = true })
    ∷ ("how it impacts", record { word = "how"; bounded = true })
    ∷ ("caveats & edges", record { word = "caveat"; bounded = false })
    ∷ []

abbrev pub is_hash : ℕ → Bool
is_hash c = nat_eq c b'#'

-- Two characters under `(?i)`: the words have no letter with a further form outside ASCII.
abbrev pub same : ℕ → ℕ → Bool
same c d = nat_eq (lower_code c) d

-- the path with each section that is missing
abbrev pub named : String → List String → List (String × String)
named path [] = []
named path (r ∷ rs) = (path, r) ∷ named path rs

module _ (is_alnum : ℕ → Bool) where
  -- `\w`
  abbrev pub is_word : ℕ → Bool
  is_word c =
      (leb b'0' c && leb c b'9')
      || (leb b'a' (lower_code c) && leb (lower_code c) b'z')
      || nat_eq c b'_'
      || (leb 128 c && is_alnum c)

  -- `\b` behind a letter
  abbrev pub at_boundary : String → Bool
  at_boundary String.[] = true
  at_boundary (String.◌∷◌ c s) = not (is_word (code c))

  module _ (p : Pattern) where
    abbrev pub word_matches : String → String → Bool
    word_matches String.[] s = not p.bounded || at_boundary s
    word_matches (String.◌∷◌ d w) String.[] = false
    word_matches (String.◌∷◌ d w) (String.◌∷◌ c s) = same (code c) (code d) && word_matches w s

    abbrev pub spaces_match : String → Bool
    spaces_match s = word_matches p.word (lstrip is_space s)

    abbrev pub heading_matches : String → Bool
    heading_matches String.[] = false
    heading_matches (String.◌∷◌ c s) = is_hash (code c) && spaces_match (lstrip is_hash s)

    -- `re.search(pattern, text)`; `start` is whether a line starts here
    abbrev pub search_from : Bool → String → Bool
    search_from start String.[] = false
    search_from start (String.◌∷◌ c s) =
        (start && heading_matches (String.◌∷◌ c s)) || search_from (nat_eq (code c) 10) s

  abbrev pub missing : String → List (String × Pattern) → List String
  missing text [] = []
  missing text ((name, p) ∷ ps) =
      let rest = missing text ps in if not (search_from p true text) then name ∷ rest else rest

  abbrev pub failures : List (String × String) → List (String × String)
  failures [] = []
  failures ((path, text) ∷ files) = named path (missing text required) ++ failures files

  -- the exit status, on the files of the two roots
  unfoldable pub main : List (String × String) → ℕ
  main files = elim (failures files) [ [] ↦ 0 | f ∷ fs ↦ 1 ]
