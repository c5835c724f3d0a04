-- ===== src/Scripts/Headers.antt =====
-- scripts/check_headers.py. The files that `rglob` finds are given with their texts, as `read_text`
-- gives them: it has turned each carriage return into a line feed.
pub mod Sound
use Prim.Native.Char.{Char, code}
use Prim.Native.String
use embediq_cloud.Prelude.{
  ℕ, zero, suc, String, ◌+++◌, Bool, true, false, not, ◌||◌, Option, none, some, List, [], ◌∷◌,
  ◌++◌, filter, is_some, nat_eq, leb, ◌&&◌, if◌then◌else◌,
}
use embediq_cloud.Prelude.Strip.{after_prefix}

-- `REQUIRED`
abbrev pub required : List String
required =
    "@author  Ritesh Anand" ∷ "@company embediq.com | ritzylab.com"
    ∷ "SPDX-License-Identifier: Apache-2.0" ∷ []

-- where `str.splitlines` ends a line
abbrev is_break : ℕ → Bool
is_break c =
    (leb 10 c && leb c 13)
    || (leb 28 c && leb c 30)
    || nat_eq c 133
    || nat_eq c 8232
    || nat_eq c 8233

abbrev push_head : Char → List String → List String
push_head c [] = String.◌∷◌ c "" ∷ []
push_head c (l ∷ ls) = String.◌∷◌ c l ∷ ls

-- `text.splitlines()`
abbrev pub splitlines : String → List String
splitlines String.[] = []
splitlines (String.◌∷◌ c s) =
    let rest = splitlines s in if is_break (code c) then "" ∷ rest else push_head c rest

-- `lines[:n]`
abbrev pub first : ℕ → List String → List String
first zero ls = []
first (suc n) [] = []
first (suc n) (l ∷ ls) = l ∷ first n ls

-- `"\n".join(lines)`
abbrev pub join_lines : List String → String
join_lines [] = ""
join_lines (l ∷ []) = l
join_lines (l ∷ m ∷ ls) = l +++ "\n" +++ join_lines (m ∷ ls)

-- `r in text`
abbrev pub contains : String → String → Bool
contains r String.[] = is_some (after_prefix r "")
contains r (String.◌∷◌ c s) = is_some (after_prefix r (String.◌∷◌ c s)) || contains r s

abbrev pub header_of : String → String
header_of text = join_lines (first 8 (splitlines text))

abbrev pub missing : String → List String
missing text = filter (λ r. not (contains r (header_of text))) required

-- the paths with what they miss
abbrev pub failures : List (String × String) → List (String × List String)
failures [] = []
failures ((path, text) ∷ files) = elim (missing text) [
  | [] ↦ failures files
  | r ∷ rs ↦ (path, r ∷ rs) ∷ failures files
]

-- the exit status, on the files of the three roots
unfoldable pub main : List (String × String) → ℕ
main files = elim (failures files) [ [] ↦ 0 | f ∷ fs ↦ 1 ]
