-- ===== src/Routes/Patterns.antt =====
-- Patterns of paths, segment by segment.
use Prim.Native.Char.{code}
use embediq_cloud.Prelude.{String, ◌≢◌, List, [], ◌∷◌, nat_eq, split, join, NoSlash, if◌then◌else◌}

-- a literal text, or a parameter in braces
pub data Segment : Type 0 where
  literal : String → Segment
  parameter : Segment

abbrev pub segment : String → Segment
segment String.[] = literal ""
segment (String.◌∷◌ c s) = if nat_eq (code c) b'{' then parameter else literal (String.◌∷◌ c s)

abbrev pub segments_of : List String → List Segment
segments_of [] = []
segments_of (s ∷ ss) = segment s ∷ segments_of ss

-- the segments of a pattern
abbrev pub segments : String → List Segment
segments pattern = segments_of (split pattern)

-- a text that is not empty and has no slash
abbrev pub IsPlain : String → Type 0
IsPlain s = (s ≢ "") × NoSlash s

abbrev pub ArePlain : List String → Type 0
ArePlain [] = Unit
ArePlain (a ∷ args) = IsPlain a × ArePlain args

-- one plain text for each parameter
abbrev pub FitsSegments : List Segment → List String → Type 0
FitsSegments [] [] = Unit
FitsSegments [] (a ∷ args) = ⊥
FitsSegments (literal s ∷ p) args = FitsSegments p args
FitsSegments (parameter ∷ p) [] = ⊥
FitsSegments (parameter ∷ p) (a ∷ args) = IsPlain a × FitsSegments p args

abbrev pub Fits : String → List String → Type 0
Fits pattern args = FitsSegments (segments pattern) args

-- the parameters replaced by the arguments
abbrev pub filled : List Segment → List String → List String
filled [] args = []
filled (literal s ∷ p) args = s ∷ filled p args
filled (parameter ∷ p) [] = []
filled (parameter ∷ p) (a ∷ args) = a ∷ filled p args

abbrev pub filled_path : String → List String → String
filled_path pattern args = join (filled (segments pattern) args)
