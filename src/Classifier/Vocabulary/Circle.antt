-- ===== src/Classifier/Vocabulary/Circle.antt =====
-- `check_cycle` of wing_parser/classifier/vocabulary_checks.py, before a set is written.
pub mod Refused
use project008_soundtech_ass.Prelude.{
  ℕ, zero, suc, Bool, true, false, Option, none, some, List, [], ◌∷◌, ◌++◌, contains, ◌==◌, length,
  map, if◌then◌else◌,
}
use project008_soundtech_ass.Prelude.Text.{Text, text_eq}
use project008_soundtech_ass.Prelude.Dict.{Dict, lookup, keys}
use project008_soundtech_ass.Classifier.Vocabulary.{SetEntry}

-- How a walk ends: it comes back, or it raises a `CycleError` with the path.
pub data Walked : Type 0 where
  returned : Walked
  raised : List Text → Walked

-- The loop over nested sets; none if a call has no fuel.
unfoldable pub each_nested : (Text → Option Walked) → List Text → Option Walked
each_nested call [] = some returned
each_nested call (name ∷ more) =
    let rest = each_nested call more in
    elim (call name) [
      | none ↦ none
      | some (raised path) ↦ some (raised path)
      | some returned ↦ rest
    ]

module _ (fold : Text → Text) (sets : Dict Text SetEntry) where
  -- `walk(current, path, seen)` for the set `goal`
  unfoldable pub walk_cycle : ℕ → Text → Text → List Text → List Text → Option Walked
  unfolding each_nested lookup
  walk_cycle zero goal current path seen = none
  walk_cycle (suc fuel) goal current path seen =
      if current == goal
      then some (raised (path ++ current ∷ []))
      else if contains seen current
      then some returned
      else (elim (lookup current sets) [
        | none ↦ some returned
        | some entry ↦
            if entry.deleted
            then some returned
            else each_nested
                (λ name. walk_cycle fuel goal (fold name) (path ++ current ∷ []) (current ∷ seen))
                entry.sets
      ])

  -- the key of a set as it is shown
  unfoldable pub display : Text → Text → Text
  unfolding lookup
  display key folded =
      if folded == fold key
      then key
      else (elim (lookup folded sets) [ none ↦ folded | some entry ↦ entry.key ])

  abbrev pub display_path : Text → Option Walked → Option Walked
  display_path key none = none
  display_path key (some returned) = some returned
  display_path key (some (raised path)) = some (raised (map (display key) path))

  -- `check_cycle`: one more than the number of sets is enough fuel.
  unfoldable pub check_cycle : Text → List Text → Option Walked
  unfolding walk_cycle each_nested display
  check_cycle key nested_sets = display_path key (
      each_nested
        (λ name. walk_cycle (suc (length (keys sets))) (fold key) (fold name) (fold key ∷ []) [])
        nested_sets)
