-- ===== src/Tests/Checks.antt =====
-- The checks of the repository on one file each.
use embediq_cloud.Prelude.{ℕ, String, ◌≡◌, ◌↔◌, refl, Bool, false, All, List, [], ◌∷◌}
use embediq_cloud.Scripts.Headers
use embediq_cloud.Scripts.Headers.Sound.{IsHeaded}
use embediq_cloud.Scripts.Sections
use embediq_cloud.Scripts.Sections.Sound.{HasSections}
use embediq_cloud.Scripts.Passing.{checks_pass_iff}

abbrev sources : List (String × String)
sources = ("app/a.py", "# a\n# @author  Ritesh Anand\nimport os\n") ∷ []

abbrev documents : List (String × String)
documents = ("docs/adr/1.md", "# Why\n\n## What it does\n") ∷ []

abbrev ascii_only : ℕ → Bool
ascii_only c = false

-- three sections are missing
missing_three :
    Sections.missing ascii_only "# Why\n\n## What it does\n" Sections.required
    ≡ "where it impacts" ∷ "how it impacts" ∷ "caveats & edges" ∷ []
missing_three = refl

checks_pass_iff_example :
    ((Headers.main sources ≡ 0) ↔ All (λ f. IsHeaded f.1) sources)
    × ((Sections.main ascii_only documents ≡ 0) ↔ All (λ f. HasSections ascii_only f.1) documents)
checks_pass_iff_example = checks_pass_iff ascii_only sources documents
