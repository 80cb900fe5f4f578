-- ===== src/Validate/Tests.antt =====
-- The theorems on allowed labels at concrete labels. An expression is the text that it matches.
use appuio_cloud_agent.Base.{String, ◌≡◌, ◌↔◌, [], ◌∷◌, none, Dict, All, ◌==◌}
use appuio_cloud_agent.Kube.{first_only, ok}
use appuio_cloud_agent.Validate.{Regexps, AllowedLabels, validate}
use appuio_cloud_agent.Validate.Laws.{Accepts, validate-Accepts_iff}

abbrev exact_regexps : Regexps
exact_regexps = record {
  Regexp = String;
  compile = λ s. ok s;
  match_string = λ r s. r == s;
  show = λ r. r;
}

abbrev labels : AllowedLabels exact_regexps
labels = record { allowed = record { k = "a"; v = "1" } ∷ record { k = "b"; v = "2" } ∷ [] }

abbrev good : Dict String
good = ("b", "2") ∷ ("a", "1") ∷ []

validate-Accepts_iff_example :
    (validate exact_regexps first_only labels good ≡ none)
    ↔ All (λ p. Accepts exact_regexps labels p.0 p.1) good
validate-Accepts_iff_example = validate-Accepts_iff exact_regexps first_only labels good
