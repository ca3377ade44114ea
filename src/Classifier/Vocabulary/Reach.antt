-- ===== src/Classifier/Vocabulary/Reach.antt =====
-- The expansion of a set is the known kinds of the sets it leads to.
use mathlib.Core.Path.{subst}
use project008_soundtech_ass.Prelude.{
  ℕ, zero, suc, ◌≤◌, ◌≡◌, refl, sym, true, false, ◌||◌, ◌↔◌, Option-cases, some, List, [], ◌∷◌,
  contains, length, filter_by, arith, Bool-cases, inl, inr, ◌==◌, ==→eq, ==_refl, All,
}
use project008_soundtech_ass.Prelude.Text.{Text, text_eq}
use project008_soundtech_ass.Prelude.Dict.{Dict, lookup, keys}
use project008_soundtech_ass.Classifier.Vocabulary.{
  SetEntry, add_nested, expand_entry, expand_set, expand,
}
use project008_soundtech_ass.Classifier.Vocabulary.Ends.{expand_ends}
use project008_soundtech_ass.Classifier.Vocabulary.Added.{
  contains-add_kinds, contains-filter, add_nested_found, add_nested_only, add_nested_each,
}

pub All-cons-visiting :
    (set : Text) (visiting path : List Text)
    → contains path set ≡ false
    → All (λ k. contains visiting k ≡ false) path
    → All (λ k. contains (set ∷ visiting) k ≡ false) path
All-cons-visiting set visiting [] n a = tt
All-cons-visiting set visiting (k ∷ path) n (f, fs) = (
  ground (arith, f, n, ==→eq k set, ==_refl set),
  All-cons-visiting set visiting path (ground arith) fs,
)

module _ (fold : Text → Text) (known : List Text) (sets : Dict Text SetEntry) where
  -- The set leads to the kind along the sets of the path: each is visible, and the last has the kind.
  pub data Leads (kind : Text) : List Text → Text → Type 0 where
    own :
        (set : Text) (entry : SetEntry)
        → lookup set sets ≡ some entry
        → entry.deleted ≡ false
        → contains entry.kinds kind ≡ true
        → Leads kind (set ∷ []) set
    nested :
        (set name : Text) (entry : SetEntry) (path : List Text)
        → lookup set sets ≡ some entry
        → entry.deleted ≡ false
        → contains entry.sets name ≡ true
        → Leads kind path (fold name)
        → Leads kind (set ∷ path) set

  -- Each kind of an expansion is known, and the set leads to it.
  expand_set-Leads :
      (fuel : ℕ) (key : Text) (visiting found : List Text) (kind : Text)
      → expand_set fold known sets fuel key visiting ≡ some found
      → contains found kind ≡ true
      → (contains known kind ≡ true) × ((path : List Text) × Leads kind path (fold key))
  unfolding expand_set expand_entry
  expand_set-Leads zero key visiting found kind e c = absurd (cc)
  expand_set-Leads (suc fuel) key visiting found kind e c =
      elim (Option-cases (lookup (fold key) sets)) [
        | inl n ↦ absurd (ground arith)
        | inr (entry, l) ↦ elim (Bool-cases (entry.deleted || contains visiting (fold key))) [
          | inl y ↦ absurd (ground arith)
          | inr n ↦
              let call =
                λ (name : Text). expand_set fold known sets fuel name (fold key ∷ visiting) in
              elim (Option-cases (add_nested call [] entry.sets)) [
                | inl none_ ↦ absurd (ground arith)
                | inr (kinds, a) ↦ elim (Bool-cases (contains kinds kind)) [
                  | inr fresh ↦
                      let mine =
                        contains-add_kinds kinds (filter_by (contains known) entry.kinds) kind in
                      let filtered = contains-filter (contains known) entry.kinds kind in
                      (
                        ground arith,
                        (fold key ∷ [], own (fold key) entry l (ground arith) (ground arith)),
                      )
                  | inl there ↦ elim (add_nested_only call [] entry.sets kinds kind a there) [
                    | inl h ↦ absurd (cc)
                    | inr (name, given, m, g, i) ↦
                        let (k, (path, p)) =
                          expand_set-Leads fuel name (fold key ∷ visiting) given kind g i in
                        (
                          k,
                          (fold key ∷ path, nested (fold key) name entry path l (ground arith) m p),
                        )
                  ]
                ]
              ]
        ]
      ]

  -- a part of the path that starts at one of its sets
  Suffix : Text → List Text → Text → Type 0
  Suffix kind path set =
      (rest : List Text) × Leads kind rest set
      × (length rest ≤ length path)
      × ((visiting : List Text)
          → All (λ k. contains visiting k ≡ false) path
          → All (λ k. contains visiting k ≡ false) rest)

  suffix :
      (kind : Text) (path : List Text) (start set : Text)
      → Leads kind path start
      → contains path set ≡ true
      → Suffix kind path set
  unfolding Suffix
  suffix kind [] start set l c = elim l [ ]
  suffix kind (_ ∷ _) _ set (own s entry l d h) c =
      let same = ==→eq set s (ground arith) in
      (
        s ∷ [],
        subst (Leads kind (s ∷ [])) (sym same) (own s entry l d h),
        omega arith,
        λ visiting a. a,
      )
  suffix kind (_ ∷ _) _ set (nested s name entry path l d m p) c = elim (Bool-cases (set == s)) [
    | inl y ↦ (
      s ∷ path,
      subst (Leads kind (s ∷ path)) (sym (==→eq set s y)) (nested s name entry path l d m p),
      omega arith,
      λ visiting a. a,
    )
    | inr other ↦
        let (rest, q, le, kept) = suffix kind path (fold name) set p (ground arith) in
        (rest, q, omega (arith, le), λ visiting a. kept visiting a.1)
  ]

  -- A known kind at the end of a path that avoids what is visited is found.
  Leads-expand_set :
      (bound fuel : ℕ) (key set : Text) (visiting found path : List Text) (kind : Text)
      → fold key ≡ set
      → length path ≤ bound
      → expand_set fold known sets fuel key visiting ≡ some found
      → All (λ k. contains visiting k ≡ false) path
      → contains known kind ≡ true
      → Leads kind path set
      → contains found kind ≡ true
  unfolding expand_set expand_entry Suffix
  Leads-expand_set bound zero key set visiting found path kind i b e a k l = absurd (cc)
  Leads-expand_set zero (suc fuel) key set visiting found [] kind i b e a k l = elim l [ ]
  Leads-expand_set zero (suc fuel) key set visiting found (_ ∷ path) kind i b e a k l =
      absurd (omega (arith, b))
  Leads-expand_set (suc bound) (suc fuel) key _ visiting found [] kind i b e a k l = elim l [ ]
  Leads-expand_set (suc bound) (suc fuel) key _ visiting found (_ ∷ _) kind i b e (a, _) k
        (own set entry l d h) =
      let call = λ (name : Text). expand_set fold known sets fuel name (fold key ∷ visiting) in
      elim (Option-cases (add_nested call [] entry.sets)) [
        | inl none_ ↦ absurd (ground (arith, i, l, d, a))
        | inr (kinds, n) ↦ ground (
          arith,
          i,
          l,
          d,
          a,
          n,
          contains-add_kinds kinds (filter_by (contains known) entry.kinds) kind,
          contains-filter (contains known) entry.kinds kind,
        )
      ]
  Leads-expand_set (suc bound) (suc fuel) key _ visiting found (_ ∷ path) kind i b e (a, fs) k
        (nested set name entry _ l d m p) =
      elim (Bool-cases (contains path set)) [
        | inl y ↦
            let (rest, q, le, kept) = suffix kind path (fold name) set p y in
            Leads-expand_set bound (suc fuel) key set visiting found rest kind i
              (omega (arith, le, b)) e (kept visiting fs) k q
        | inr n ↦
            let call =
              λ (other : Text). expand_set fold known sets fuel other (fold key ∷ visiting) in
            elim (Option-cases (add_nested call [] entry.sets)) [
              | inl none_ ↦ absurd (ground (arith, i, l, d, a))
              | inr (kinds, r) ↦
                  let (given, g) = add_nested_each call [] entry.sets kinds name r m in
                  let here =
                    Leads-expand_set bound fuel name (fold name) (fold key ∷ visiting) given path
                      kind refl (omega (arith, b)) g
                      (All-cons-visiting (fold key) visiting path (ground (arith, i, n)) fs) k p in
                  let there =
                    add_nested_found call [] entry.sets kinds kind name given r m g here in
                  ground (
                    arith,
                    i,
                    l,
                    d,
                    a,
                    r,
                    there,
                    contains-add_kinds kinds (filter_by (contains known) entry.kinds) kind,
                  )
            ]
      ]

  all_unvisited : (path : List Text) → All (λ k. contains {A = Text} [] k ≡ false) path
  all_unvisited [] = tt
  all_unvisited (k ∷ path) = (refl, all_unvisited path)

  -- Whatever circles the sets make, the expansion of a set ends, and a kind is in it exactly if the kind is
  -- known and some path of visible sets leads from the set to one that has the kind.
  pub expand-Leads :
      (key kind : Text)
      → (found : List Text) × (expand fold known sets key ≡ some found)
        × ((contains found kind ≡ true)
            ↔ ((contains known kind ≡ true) × ((path : List Text) × Leads kind path (fold key))))
  unfolding expand
  expand-Leads key kind =
      let (found, e) = expand_ends fold known sets key in
      (
        found,
        e,
        (
          (λ c. expand_set-Leads (suc (length (keys sets))) key [] found kind e c),
          (λ (k, (path, l)).
              Leads-expand_set (length path) (suc (length (keys sets))) key (fold key) [] found path
                kind refl (omega arith) e (all_unvisited path) k l),
        ),
      )
