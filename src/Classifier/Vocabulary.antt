-- ===== src/Classifier/Vocabulary.antt =====
-- wing_parser/classifier/vocabulary.py and vocabulary_checks.py: the sets and terms of the cue sheet, the
-- kinds that a set expands to, and the checks of a term. `fold` is the identity of a key.
pub mod Ends
pub mod Added
pub mod Reach
pub mod Circle
pub mod Checks
use project008_soundtech_ass.Prelude.{
  ℕ, zero, suc, Bool, true, false, ◌&&◌, ◌||◌, not, Option, none, some, List, [], ◌∷◌, ◌++◌,
  contains, length, filter_by, if◌then◌else◌, Result, ok, err,
}
use project008_soundtech_ass.Prelude.Text.{Text, text_eq}
use project008_soundtech_ass.Prelude.Dict.{Dict, lookup, keys}

pub record SetEntry : Type 0 where
  pub key : Text
  pub label : Text
  pub kinds : List Text
  pub sets : List Text
  pub origin : Text
  pub shadows_default : Bool
  pub deleted : Bool

pub record TermEntry : Type 0 where
  pub key : Text
  pub kinds : List Text
  pub sets : List Text
  pub ignore : Bool
  pub match_ : Text
  pub origin : Text
  pub shadows_default : Bool
  pub deleted : Bool

-- what the matcher is given: keywords.Term
pub record Term : Type 0 where
  pub key : Text
  pub kinds : List Text
  pub ignored : Bool
  pub match_ : Text

-- `UnknownKindError`, `UnknownSetError`, `CycleError` with its path, and the two `ValueError`s on the shape of a term.
pub data VocabularyError : Type 0 where
  unknown_kinds : Text → List Text → VocabularyError
  unknown_sets : Text → List Text → VocabularyError
  cycle : List Text → VocabularyError
  ignored_with_kinds : Text → VocabularyError
  empty_term : Text → VocabularyError

-- Kinds that are not there yet are appended, one after the other.
unfoldable pub add_kinds : List Text → List Text → List Text
add_kinds kinds [] = kinds
add_kinds kinds (kind ∷ more) =
    let kept = add_kinds kinds more in
    let added = add_kinds (kinds ++ kind ∷ []) more in if contains kinds kind then kept else added

-- The loop over the nested sets, with the expansion of one set as a function.
unfoldable pub add_nested : (Text → Option (List Text)) → List Text → List Text → Option (List Text)
unfolding add_kinds
add_nested expand kinds [] = some kinds
add_nested expand kinds (nested ∷ more) = elim (expand nested) [
  | none ↦ none
  | some found ↦ add_nested expand (add_kinds kinds found) more
]

unfoldable pub check_kinds : Text → List Text → List Text → Result VocabularyError Unit
check_kinds key kinds known = elim (filter_by (λ k. not (contains known k)) kinds) [
  | [] ↦ ok tt
  | (k ∷ more) ↦ err (unknown_kinds key (k ∷ more))
]

abbrev pub is_none_of : List Text → Bool
is_none_of [] = true
is_none_of (x ∷ xs) = false

unfoldable pub term_shape_problem : Text → List Text → List Text → Bool → Option VocabularyError
term_shape_problem key kinds sets ignore =
    if ignore && not (is_none_of kinds && is_none_of sets)
    then some (ignored_with_kinds key)
    else if not ignore && is_none_of kinds && is_none_of sets
    then some (empty_term key)
    else none

module _ (fold : Text → Text) where
  unfoldable pub check_sets : Text → List Text → List Text → Result VocabularyError Unit
  check_sets key set_keys visible =
      elim (filter_by (λ s. not (contains visible (fold s))) set_keys) [
        | [] ↦ ok tt
        | (s ∷ more) ↦ err (unknown_sets key (s ∷ more))
      ]

  module _ (known : List Text) (sets : Dict Text SetEntry) where
    -- What `expand_set` does with an entry that it finds; `expand` is the call for a nested set.
    unfoldable pub expand_entry : (Text → Option (List Text)) → SetEntry → Option (List Text)
    unfolding add_nested
    expand_entry expand entry = elim (add_nested expand [] entry.sets) [
      | none ↦ none
      | some kinds ↦ some (add_kinds kinds (filter_by (contains known) entry.kinds))
    ]

    -- `expand_set`, on fuel: none if it runs out.
    unfoldable pub expand_set : ℕ → Text → List Text → Option (List Text)
    unfolding expand_entry lookup
    expand_set zero key visiting = none
    expand_set (suc fuel) key visiting = elim (lookup (fold key) sets) [
      | none ↦ some []
      | some entry ↦
          if entry.deleted || contains visiting (fold key)
          then some []
          else expand_entry (λ nested. expand_set fuel nested (fold key ∷ visiting)) entry
    ]

    -- `expand_set(key)`: one more than the number of sets is enough fuel.
    unfoldable pub expand : Text → Option (List Text)
    unfolding expand_set
    expand key = expand_set (suc (length (keys sets))) key []

    -- The loop of `effective` over the visible terms.
    unfoldable pub effective : List TermEntry → Option (List Term)
    unfolding add_nested expand
    effective [] = some []
    effective (term ∷ more) =
        let rest = effective more in
        if not (is_none_of (filter_by (λ k. not (contains known k)) term.kinds))
        then rest
        else (elim (add_nested expand term.kinds term.sets) [
          | none ↦ none
          | some kinds ↦ elim rest [
            | none ↦ none
            | some terms ↦ some (
                record {
                  key = term.key;
                  kinds = kinds;
                  ignored = term.ignore;
                  match_ = term.match_;
                }
                ∷ terms)
          ]
        ])
