-- ===== src/Classifier/Vocabulary/Checks/Agree.antt =====
-- A dry run tells what the write would raise.
use project008_soundtech_ass.Prelude.{
  ◌≡◌, refl, Bool, Option, none, some, List, [], ◌∷◌, ◌++◌, Result, ok, err, ◌>>=◌,
}
use project008_soundtech_ass.Prelude.Text.{Text}
use project008_soundtech_ass.Prelude.Dict.{Dict}
use project008_soundtech_ass.Classifier.Vocabulary.{
  SetEntry, VocabularyError, check_kinds, check_sets, term_shape_problem,
}
use project008_soundtech_ass.Classifier.Vocabulary.Circle.{check_cycle}
use project008_soundtech_ass.Classifier.Vocabulary.Checks.{
  problem_of, problems_of, cycle_check, after_check, with_cycle, kind_and_set_problems,
  dry_run_term, term_checks, dry_run_set, set_checks,
}

-- The first problem is what is raised.
abbrev pub first_problem : List VocabularyError → Result VocabularyError Unit
first_problem [] = ok tt
first_problem (p ∷ ps) = err p

abbrev pub first_problems : Option (List VocabularyError) → Option (Result VocabularyError Unit)
first_problems none = none
first_problems (some problems) = some (first_problem problems)

in_order :
    (a b : Result VocabularyError Unit) (c : Option (Result VocabularyError Unit))
    → after_check a (after_check b c)
      ≡ first_problems (with_cycle (problem_of a ++ problem_of b) (problems_of c))
in_order (err e) b c = refl
in_order (ok _) (err e) c = refl
in_order (ok _) (ok _) none = refl
in_order (ok _) (ok _) (some (ok tt)) = refl
in_order (ok _) (ok _) (some (err e)) = refl

two_in_order :
    (a b : Result VocabularyError Unit)
    → (a >>= λ _. b) ≡ first_problem (problem_of a ++ problem_of b)
two_in_order (err e) b = refl
two_in_order (ok _) (ok tt) = refl
two_in_order (ok _) (err e) = refl

module _ (fold : Text → Text) (known visible : List Text) where
  -- What `put_term` raises is the first problem of the dry run, and it raises nothing if there is none.
  term_checks-dry_run_term :
      (key : Text) (kinds set_keys : List Text) (ignore : Bool)
      → term_checks fold known visible key kinds set_keys ignore
        ≡ first_problem (dry_run_term fold known visible key kinds set_keys ignore)
  unfolding term_checks dry_run_term kind_and_set_problems
  term_checks-dry_run_term key kinds set_keys ignore =
      go (term_shape_problem key kinds set_keys ignore)
    where
      go :
          (shape : Option VocabularyError)
          → (elim shape [
            | some s ↦ err s
            | none ↦ check_kinds key kinds known >>= λ _. check_sets fold key set_keys visible
          ])
            ≡ first_problem (elim shape [
              | some s ↦ s ∷ []
              | none ↦
                  problem_of (check_kinds key kinds known)
                  ++ problem_of (check_sets fold key set_keys visible)
            ])
      go none = two_in_order (check_kinds key kinds known) (check_sets fold key set_keys visible)
      go (some s) = refl

  -- What `put_set` raises is the first problem of the dry run, and it raises nothing if there is none.
  pub set_checks-dry_run_set :
      (sets : Dict Text SetEntry) (key : Text) (kinds set_keys : List Text)
      → set_checks fold known visible sets key kinds set_keys
        ≡ first_problems (dry_run_set fold known visible sets key kinds set_keys)
  unfolding set_checks dry_run_set kind_and_set_problems
  set_checks-dry_run_set sets key kinds set_keys =
      in_order (check_kinds key kinds known) (check_sets fold key set_keys visible)
        (cycle_check (check_cycle fold sets key set_keys))
