-- ===== src/Scripts/Passing.antt =====
-- What both checks of the repository accept.
use embediq_cloud.Prelude.{ℕ, Bool, String, ◌≡◌, ◌↔◌, All, List}
use embediq_cloud.Scripts.Headers
use embediq_cloud.Scripts.Headers.Sound.{IsHeaded, main-eq-zero_iff}
use embediq_cloud.Scripts.Sections
use embediq_cloud.Scripts.Sections.Sound.{HasSections, main-passes_iff}

-- check_headers.py exits with 0 exactly where each of its files has each required text within one of
-- its first eight lines. check_doc_sections.py exits with 0 exactly where each of its files has, for
-- each of the five patterns, a line that starts with one or more hashes, then white space or none,
-- then the word in any case, with no further letter, digit or underscore behind it where the
-- pattern says so.
pub checks_pass_iff :
    (is_alnum : ℕ → Bool) (sources documents : List (String × String))
    → ((Headers.main sources ≡ 0) ↔ All (λ f. IsHeaded f.1) sources)
      × ((Sections.main is_alnum documents ≡ 0) ↔ All (λ f. HasSections is_alnum f.1) documents)
checks_pass_iff is_alnum sources documents =
    (main-eq-zero_iff sources, main-passes_iff is_alnum documents)
