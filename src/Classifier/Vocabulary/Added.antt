-- ===== src/Classifier/Vocabulary/Added.antt =====
-- What the loops of an expansion add.
use project008_soundtech_ass.Prelude.{
  ◌≡◌, refl, Bool, true, ◌&&◌, ◌||◌, ◌⊎◌, Option, Option-cases, some, List, [], ◌∷◌, ◌++◌, contains,
  contains-append, filter_by, arith, Bool-cases, inl, inr, ◌==◌, ==→eq, ==_refl,
}
use project008_soundtech_ass.Prelude.Text.{Text, text_eq}
use project008_soundtech_ass.Classifier.Vocabulary.{add_kinds, add_nested}

pub contains-add_kinds :
    (kinds more : List Text) (k : Text)
    → contains (add_kinds kinds more) k ≡ (contains kinds k || contains more k)
unfolding add_kinds
contains-add_kinds kinds [] k = ground arith
contains-add_kinds kinds (m ∷ more) k = ground (
  arith,
  contains-add_kinds kinds more k,
  contains-add_kinds (kinds ++ m ∷ []) more k,
  contains-append kinds (m ∷ []) k,
  ==→eq k m,
)

pub contains-filter :
    (p : Text → Bool) (xs : List Text) (a : Text)
    → contains (filter_by p xs) a ≡ (contains xs a && p a)
contains-filter p [] a = refl
contains-filter p (x ∷ xs) a = ground (arith, contains-filter p xs a, ==→eq a x)

-- What was there stays.
add_nested_kept :
    (call : Text → Option (List Text)) (kinds names out : List Text) (k : Text)
    → add_nested call kinds names ≡ some out
    → contains kinds k ≡ true
    → contains out k ≡ true
unfolding add_nested
add_nested_kept call kinds [] out k e c = ground arith
add_nested_kept call kinds (n ∷ names) out k e c = elim (Option-cases (call n)) [
  | inl m ↦ absurd (ground arith)
  | inr (found, f) ↦
      add_nested_kept call (add_kinds kinds found) names out k (ground arith)
        (ground (arith, contains-add_kinds kinds found k))
]

-- What the call for a name gives is there.
pub add_nested_found :
    (call : Text → Option (List Text)) (kinds names out : List Text) (k name : Text)
    (given : List Text)
    → add_nested call kinds names ≡ some out
    → contains names name ≡ true
    → call name ≡ some given
    → contains given k ≡ true
    → contains out k ≡ true
unfolding add_nested
add_nested_found call kinds [] out k name given e n g c = absurd (cc)
add_nested_found call kinds (m ∷ names) out k name given e n g c = elim (Option-cases (call m)) [
  | inl none_ ↦ absurd (ground arith)
  | inr (found, f) ↦ elim (Bool-cases (name == m)) [
    | inl y ↦
        add_nested_kept call (add_kinds kinds found) names out k (ground arith)
          (ground (arith, contains-add_kinds kinds found k, ==→eq name m y))
    | inr other ↦
        add_nested_found call (add_kinds kinds found) names out k name given (ground arith)
          (ground arith) g c
  ]
]

-- All that is there was there, or comes from a call.
pub add_nested_only :
    (call : Text → Option (List Text)) (kinds names out : List Text) (k : Text)
    → add_nested call kinds names ≡ some out
    → contains out k ≡ true
    → (contains kinds k ≡ true)
      ⊎ ((name : Text) × (given : List Text) × (contains names name ≡ true)
          × (call name ≡ some given)
          × (contains given k ≡ true))
unfolding add_nested
add_nested_only call kinds [] out k e c = inl (ground arith)
add_nested_only call kinds (n ∷ names) out k e c = elim (Option-cases (call n)) [
  | inl m ↦ absurd (ground arith)
  | inr (found, f) ↦
      elim (add_nested_only call (add_kinds kinds found) names out k (ground arith) c) [
        | inr (name, given, m, g, i) ↦ inr (name, given, ground arith, g, i)
        | inl kept ↦ elim (Bool-cases (contains kinds k)) [
          | inl y ↦ inl y
          | inr fresh ↦ inr (
            n,
            found,
            ground (arith, ==_refl n),
            f,
            ground (arith, contains-add_kinds kinds found k),
          )
        ]
      ]
]

-- A loop that ends has an answer of each call.
pub add_nested_each :
    (call : Text → Option (List Text)) (kinds names out : List Text) (name : Text)
    → add_nested call kinds names ≡ some out
    → contains names name ≡ true
    → (given : List Text) × (call name ≡ some given)
unfolding add_nested
add_nested_each call kinds [] out name e n = absurd (cc)
add_nested_each call kinds (m ∷ names) out name e n = elim (Option-cases (call m)) [
  | inl none_ ↦ absurd (ground arith)
  | inr (found, f) ↦ elim (Bool-cases (name == m)) [
    | inl y ↦ (found, ground (arith, f, ==→eq name m y))
    | inr other ↦
        add_nested_each call (add_kinds kinds found) names out name (ground arith) (ground arith)
  ]
]
