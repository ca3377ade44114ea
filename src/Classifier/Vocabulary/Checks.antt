-- ===== src/Classifier/Vocabulary/Checks.antt =====
-- The dry runs of wing_parser/classifier/vocabulary_checks.py, and the checks that `put_set` and `put_term`
-- of vocabulary.py make before they write.
pub mod Agree
use project008_soundtech_ass.Prelude.{
  ℕ, Bool, Option, none, some, List, [], ◌∷◌, ◌++◌, Result, ok, err, ◌>>=◌,
}
use project008_soundtech_ass.Prelude.Text.{Text}
use project008_soundtech_ass.Prelude.Dict.{Dict}
use project008_soundtech_ass.Classifier.Vocabulary.{
  SetEntry, VocabularyError, cycle, check_kinds, check_sets, term_shape_problem,
}
use project008_soundtech_ass.Classifier.Vocabulary.Circle.{Walked, returned, raised, check_cycle}

-- the message of an exception that is caught
abbrev pub problem_of : Result VocabularyError Unit → List VocabularyError
problem_of (ok _) = []
problem_of (err e) = e ∷ []

-- what `check_cycle` raises; none if it has no fuel
abbrev pub cycle_check : Option Walked → Option (Result VocabularyError Unit)
cycle_check none = none
cycle_check (some returned) = some (ok tt)
cycle_check (some (raised path)) = some (err (cycle path))

-- one check after the other
abbrev pub after_check :
    Result VocabularyError Unit
    → Option (Result VocabularyError Unit)
    → Option (Result VocabularyError Unit)
after_check (err e) next = some (err e)
after_check (ok _) next = next

abbrev pub problems_of : Option (Result VocabularyError Unit) → Option (List VocabularyError)
problems_of none = none
problems_of (some r) = some (problem_of r)

-- The cycle is looked for only if there is no other problem.
abbrev pub with_cycle :
    List VocabularyError → Option (List VocabularyError) → Option (List VocabularyError)
with_cycle [] cycles = cycles
with_cycle (p ∷ ps) cycles = some (p ∷ ps)

module _ (fold : Text → Text) (known visible : List Text) where
  -- `_kind_and_set_problems`
  unfoldable pub kind_and_set_problems : Text → List Text → List Text → List VocabularyError
  unfolding check_kinds check_sets
  kind_and_set_problems key kinds set_keys =
      problem_of (check_kinds key kinds known) ++ problem_of (check_sets fold key set_keys visible)

  -- `dry_run_term`
  unfoldable pub dry_run_term : Text → List Text → List Text → Bool → List VocabularyError
  unfolding kind_and_set_problems term_shape_problem
  dry_run_term key kinds set_keys ignore = elim (term_shape_problem key kinds set_keys ignore) [
    | some shape ↦ shape ∷ []
    | none ↦ kind_and_set_problems key kinds set_keys
  ]

  -- what `put_term` raises before it writes
  unfoldable pub term_checks : Text → List Text → List Text → Bool → Result VocabularyError Unit
  unfolding term_shape_problem check_kinds check_sets
  term_checks key kinds set_keys ignore = elim (term_shape_problem key kinds set_keys ignore) [
    | some shape ↦ err shape
    | none ↦ check_kinds key kinds known >>= λ _. check_sets fold key set_keys visible
  ]

  module _ (sets : Dict Text SetEntry) where
    -- `dry_run_set`
    unfoldable pub dry_run_set : Text → List Text → List Text → Option (List VocabularyError)
    unfolding kind_and_set_problems check_cycle
    dry_run_set key kinds set_keys =
        with_cycle (kind_and_set_problems key kinds set_keys)
          (problems_of (cycle_check (check_cycle fold sets key set_keys)))

    -- what `put_set` raises before it writes
    unfoldable pub set_checks : Text → List Text → List Text → Option (Result VocabularyError Unit)
    unfolding check_kinds check_sets check_cycle
    set_checks key kinds set_keys = after_check (check_kinds key kinds known) (
        after_check (check_sets fold key set_keys visible)
          (cycle_check (check_cycle fold sets key set_keys)))
