-- ===== src/Tests/Vocabulary.antt =====
-- The theorems on the vocabulary, applied.
use project008_soundtech_ass.Prelude.{◌≡◌, ◌≢◌, ◌↔◌, true, false, some, List, [], ◌∷◌, contains}
use project008_soundtech_ass.Prelude.Text.{Text, codes, text_eq}
use project008_soundtech_ass.Prelude.Dict.{Dict}
use project008_soundtech_ass.Classifier.Vocabulary.{SetEntry, expand}
use project008_soundtech_ass.Classifier.Vocabulary.Circle.{Walked, returned, check_cycle}
use project008_soundtech_ass.Classifier.Vocabulary.Circle.Refused.{LeadsTo, check_cycle-LeadsTo}
use project008_soundtech_ass.Classifier.Vocabulary.Checks.{dry_run_set, set_checks}
use project008_soundtech_ass.Classifier.Vocabulary.Checks.Agree.{
  first_problems, set_checks-dry_run_set,
}
use project008_soundtech_ass.Classifier.Vocabulary.Reach.{Leads, expand-Leads}

abbrev set_of : Text → List Text → List Text → SetEntry
set_of key kinds sets = record {
  key = key;
  label = key;
  kinds = kinds;
  sets = sets;
  origin = codes "default";
  shadows_default = false;
  deleted = false;
}

-- two sets in a circle, each with a kind of its own
abbrev circle : Dict Text SetEntry
circle =
    (codes "band", set_of (codes "band") (codes "drums" ∷ []) (codes "front" ∷ []))
    ∷ (codes "front", set_of (codes "front") (codes "vocals" ∷ []) (codes "band" ∷ []))
    ∷ []

abbrev known : List Text
known = codes "drums" ∷ codes "vocals" ∷ []

expand-Leads_example :
    (found : List Text) × (expand (λ s. s) known circle (codes "band") ≡ some found)
    × ((contains found (codes "vocals") ≡ true) ↔ (
        (contains known (codes "vocals") ≡ true)
        × ((path : List Text) × Leads (λ s. s) known circle (codes "vocals") path (codes "band"))))
expand-Leads_example = expand-Leads (λ s. s) known circle (codes "band") (codes "vocals")

check_cycle-LeadsTo_example :
    (w : Walked) × (check_cycle (λ s. s) circle (codes "band") (codes "front" ∷ []) ≡ some w)
    × ((w ≢ returned) ↔ (
        (name : Text) × (contains (codes "front" ∷ []) name ≡ true)
        × ((way : List Text) × LeadsTo (λ s. s) circle (codes "band") way name)))
check_cycle-LeadsTo_example =
    check_cycle-LeadsTo (λ s. s) circle (codes "band") (codes "front" ∷ [])

abbrev visible : List Text
visible = codes "band" ∷ codes "front" ∷ []

set_checks-dry_run_set_example :
    set_checks
      (λ s. s)
      known
      visible
      circle
      (codes "front")
      (codes "vocals" ∷ [])
      (codes "band" ∷ [])
    ≡ first_problems (
        dry_run_set
          (λ s. s)
          known
          visible
          circle
          (codes "front")
          (codes "vocals" ∷ [])
          (codes "band" ∷ []))
set_checks-dry_run_set_example =
    set_checks-dry_run_set (λ s. s) known visible circle (codes "front") (codes "vocals" ∷ [])
      (codes "band" ∷ [])
