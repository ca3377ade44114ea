-- ===== src/Classifier/Vocabulary/Ends.antt =====
-- The expansion of a set ends, on cycles too.
use project008_soundtech_ass.Prelude.{
  ℕ, zero, suc, ◌<◌, ◌≤◌, ◌≡◌, refl, true, false, ◌||◌, not, Option, Option-cases, some, List, [],
  ◌∷◌, contains, length, filter_by, arith, Bool-cases, inl, inr,
}
use project008_soundtech_ass.Prelude.Text.{Text, text_eq}
use project008_soundtech_ass.Prelude.Dict.{Dict, lookup, keys, contains-keys}
use project008_soundtech_ass.Classifier.Vocabulary.{
  SetEntry, add_kinds, add_nested, expand_entry, expand_set, expand,
}

-- how many keys are not visited
unfoldable pub room : List Text → List Text → ℕ
room visiting ks = length (filter_by (λ k. not (contains visiting k)) ks)

room-cons-le : (k : Text) (visiting ks : List Text) → room (k ∷ visiting) ks ≤ room visiting ks
unfolding room
room-cons-le k visiting [] = omega arith
room-cons-le k visiting (j ∷ ks) = ground (arith, room-cons-le k visiting ks)

-- A visit takes room.
pub room-cons-lt :
    (k : Text) (visiting ks : List Text)
    → contains ks k ≡ true
    → contains visiting k ≡ false
    → room (k ∷ visiting) ks < room visiting ks
unfolding room
room-cons-lt k visiting [] c n = absurd (cc)
room-cons-lt k visiting (j ∷ ks) c n =
    ground (arith, room-cons-le k visiting ks, room-cons-lt k visiting ks)

pub room_none : (ks : List Text) → room [] ks ≡ length ks
unfolding room
room_none [] = refl
room_none (k ∷ ks) = ground (arith, room_none ks)

add_nested_ends :
    (call : Text → Option (List Text)) (kinds names : List Text)
    → ((name : Text) → (found : List Text) × (call name ≡ some found))
    → (found : List Text) × (add_nested call kinds names ≡ some found)
unfolding add_nested
add_nested_ends call kinds [] h = (kinds, refl)
add_nested_ends call kinds (name ∷ more) h =
    let (found, e) = h name in
    let (all_, rest) = add_nested_ends call (add_kinds kinds found) more h in
    (all_, ground (arith, e, rest))

module _ (fold : Text → Text) (known : List Text) (sets : Dict Text SetEntry) where
  expand_set_ends :
      (fuel : ℕ) (key : Text) (visiting : List Text)
      → room visiting (keys sets) < fuel
      → (found : List Text) × (expand_set fold known sets fuel key visiting ≡ some found)
  unfolding expand_set expand_entry
  expand_set_ends zero key visiting l = absurd (omega arith)
  expand_set_ends (suc fuel) key visiting l = elim (Option-cases (lookup (fold key) sets)) [
    | inl n ↦ ([], ground (arith, n))
    | inr (entry, e) ↦ elim (Bool-cases (entry.deleted || contains visiting (fold key))) [
      | inl y ↦ ([], ground (arith, e, y))
      | inr n ↦
          let less =
            room-cons-lt (fold key) visiting (keys sets)
              (ground (arith, e, contains-keys sets (fold key))) (ground arith) in
          let (found, r) =
            add_nested_ends (λ name. expand_set fold known sets fuel name (fold key ∷ visiting)) []
              entry.sets
              (λ name. expand_set_ends fuel name (fold key ∷ visiting) (omega (arith, less, l))) in
          (add_kinds found (filter_by (contains known) entry.kinds), ground (arith, e, n, r))
    ]
  ]

  -- One more than the number of sets is enough fuel to expand a set, whether or not the sets name one
  -- another in a circle.
  pub expand_ends : (key : Text) → (found : List Text) × (expand fold known sets key ≡ some found)
  unfolding expand
  expand_ends key =
      expand_set_ends (suc (length (keys sets))) key [] (omega (arith, room_none (keys sets)))
