-- ===== src/Classifier/Vocabulary/Circle/Refused.antt =====
-- A set is refused exactly if its nested sets lead back to it.
use mathlib.Core.Path.{subst}
use project008_soundtech_ass.Prelude.{
  ℕ, zero, suc, ◌<◌, ◌≤◌, ◌≡◌, ◌≢◌, refl, sym, true, false, ◌↔◌, Option, Option-cases, some, List,
  [], ◌∷◌, ◌++◌, contains, length, arith, Bool-cases, inl, inr, ◌==◌, ==→eq, ==_refl, All, map,
}
use project008_soundtech_ass.Prelude.Text.{Text, text_eq}
use project008_soundtech_ass.Prelude.Dict.{Dict, lookup, keys, contains-keys}
use project008_soundtech_ass.Classifier.Vocabulary.{SetEntry}
use project008_soundtech_ass.Classifier.Vocabulary.Ends.{room, room-cons-lt, room_none}
use project008_soundtech_ass.Classifier.Vocabulary.Reach.{All-cons-visiting}
use project008_soundtech_ass.Classifier.Vocabulary.Circle.{
  Walked, returned, raised, each_nested, walk_cycle, display, display_path, check_cycle,
}

each_nested_ends :
    (call : Text → Option Walked) (names : List Text)
    → ((name : Text) → (w : Walked) × (call name ≡ some w))
    → (w : Walked) × (each_nested call names ≡ some w)
unfolding each_nested
each_nested_ends call [] h = (returned, refl)
each_nested_ends call (name ∷ more) h = go (h name) (each_nested_ends call more h)
  where
    go :
        (w : Walked) × (call name ≡ some w)
        → (w : Walked) × (each_nested call more ≡ some w)
        → (w : Walked) × (each_nested call (name ∷ more) ≡ some w)
    go (raised path, e) _ = (raised path, ground (arith, e))
    go (returned, e) (w, r) = (w, ground (arith, e, r))

-- A loop that raises has a call that raises.
each_nested_raised :
    (call : Text → Option Walked) (names path : List Text)
    → each_nested call names ≡ some (raised path)
    → (name : Text) × (given : List Text) × (contains names name ≡ true)
      × (call name ≡ some (raised given))
unfolding each_nested
each_nested_raised call [] path e = absurd (cc)
each_nested_raised call (name ∷ more) path e = elim (Option-cases (call name)) [
  | inl n ↦ absurd (ground arith)
  | inr (raised given, g) ↦ (name, given, ground (arith, ==_refl name), g)
  | inr (returned, g) ↦
      let (other, given, m, r) = each_nested_raised call more path (ground arith) in
      (other, given, ground (arith, m), r)
]

-- A loop that comes back has calls that come back.
each_nested_returned :
    (call : Text → Option Walked) (names : List Text) (name : Text)
    → each_nested call names ≡ some returned
    → contains names name ≡ true
    → call name ≡ some returned
unfolding each_nested
each_nested_returned call [] name e c = absurd (cc)
each_nested_returned call (m ∷ names) name e c = elim (Option-cases (call m)) [
  | inl n ↦ absurd (ground arith)
  | inr (raised given, g) ↦ absurd (ground arith)
  | inr (returned, g) ↦ elim (Bool-cases (name == m)) [
    | inl y ↦ ground (arith, g, ==→eq name m y)
    | inr other ↦ each_nested_returned call names name (ground arith) (ground arith)
  ]
]

module _ (fold : Text → Text) (sets : Dict Text SetEntry) where
  -- The path of visible sets leads from the set to the goal.
  pub data LeadsTo (goal : Text) : List Text → Text → Type 0 where
    here : LeadsTo goal [] goal
    step :
        (set name : Text) (entry : SetEntry) (path : List Text)
        → lookup set sets ≡ some entry
        → entry.deleted ≡ false
        → contains entry.sets name ≡ true
        → LeadsTo goal path (fold name)
        → LeadsTo goal (set ∷ path) set

  walk_cycle_ends :
      (fuel : ℕ) (goal current : Text) (path seen : List Text)
      → room seen (keys sets) < fuel
      → (w : Walked) × (walk_cycle fold sets fuel goal current path seen ≡ some w)
  unfolding walk_cycle
  walk_cycle_ends zero goal current path seen l = absurd (omega arith)
  walk_cycle_ends (suc fuel) goal current path seen l = elim (Bool-cases (current == goal)) [
    | inl y ↦ (raised (path ++ current ∷ []), rw y refl)
    | inr n ↦ elim (Bool-cases (contains seen current)) [
      | inl y ↦ (returned, rw (n, y) refl)
      | inr m ↦ elim (Option-cases (lookup current sets)) [
        | inl k ↦ (returned, rw (n, m, k) refl)
        | inr (entry, k) ↦ elim (Bool-cases entry.deleted) [
          | inl d ↦ (returned, rw (n, m, k, d) refl)
          | inr d ↦
              let less =
                room-cons-lt current seen (keys sets)
                  (ground (arith, k, contains-keys sets current)) m in
              let (w, r) =
                each_nested_ends
                  (λ name.
                    walk_cycle fold sets fuel goal (fold name) (path ++ current ∷ [])
                      (current ∷ seen))
                  entry.sets
                  (λ name.
                    walk_cycle_ends fuel goal (fold name) (path ++ current ∷ []) (current ∷ seen)
                      (omega (arith, less, l))) in
              (w, rw (n, m, k, d) r)
        ]
      ]
    ]
  ]

  walk_cycle_raised :
      (fuel : ℕ) (goal current : Text) (path seen given : List Text)
      → walk_cycle fold sets fuel goal current path seen ≡ some (raised given)
      → (way : List Text) × LeadsTo goal way current
  unfolding walk_cycle
  walk_cycle_raised zero goal current path seen given e = absurd (cc)
  walk_cycle_raised (suc fuel) goal current path seen given e =
      elim (Bool-cases (current == goal)) [
        | inl y ↦ ([], subst (LeadsTo goal []) (sym (==→eq current goal y)) here)
        | inr n ↦ elim (Bool-cases (contains seen current)) [
          | inl y ↦ absurd (ground arith)
          | inr m ↦ elim (Option-cases (lookup current sets)) [
            | inl k ↦ absurd (ground arith)
            | inr (entry, k) ↦ elim (Bool-cases entry.deleted) [
              | inl d ↦ absurd (ground arith)
              | inr d ↦
                  let call = λ (name : Text).
                    walk_cycle fold sets fuel goal (fold name) (path ++ current ∷ [])
                      (current ∷ seen) in
                  let (name, inner, c, r) =
                    each_nested_raised call entry.sets given (ground arith) in
                  let (way, l) =
                    walk_cycle_raised fuel goal (fold name) (path ++ current ∷ []) (current ∷ seen)
                      inner r in
                  (current ∷ way, step current name entry way k d c l)
            ]
          ]
        ]
      ]

  -- a part of the path that starts at one of its sets
  Rest : Text → List Text → Text → Type 0
  Rest goal path set =
      (rest : List Text) × LeadsTo goal rest set
      × (length rest ≤ length path)
      × ((seen : List Text)
          → All (λ k. contains seen k ≡ false) path
          → All (λ k. contains seen k ≡ false) rest)

  LeadsTo-Rest :
      (goal : Text) (path : List Text) (start set : Text)
      → LeadsTo goal path start
      → contains path set ≡ true
      → Rest goal path set
  unfolding Rest
  LeadsTo-Rest goal [] start set l c = absurd (cc)
  LeadsTo-Rest goal (_ ∷ _) _ set (step s name entry path l d m p) c =
      elim (Bool-cases (set == s)) [
        | inl y ↦ (
          s ∷ path,
          subst (LeadsTo goal (s ∷ path)) (sym (==→eq set s y)) (step s name entry path l d m p),
          omega arith,
          λ seen a. a,
        )
        | inr other ↦
            let (rest, q, le, kept) = LeadsTo-Rest goal path (fold name) set p (ground arith) in
            (rest, q, omega (arith, le), λ seen a. kept seen a.1)
      ]

  -- A walk that comes back missed no path that avoids what it has seen.
  walk_cycle_returned :
      (bound fuel : ℕ) (goal current : Text) (path seen way : List Text)
      → length way ≤ bound
      → walk_cycle fold sets fuel goal current path seen ≡ some returned
      → All (λ k. contains seen k ≡ false) way
      → ¬ LeadsTo goal way current
  unfolding walk_cycle Rest
  walk_cycle_returned bound zero goal current path seen way b e a l = cc
  walk_cycle_returned bound (suc fuel) goal _ path seen _ b e a here = ground (arith, ==_refl goal)
  walk_cycle_returned zero (suc fuel) goal _ path seen (_ ∷ _) b e a
        (step set name entry way l d m p) =
      omega (arith, b)
  walk_cycle_returned (suc bound) (suc fuel) goal _ path seen (_ ∷ _) b e a
        (step set name entry way l d m p) =
      elim (Bool-cases (set == goal)) [
        | inl y ↦ ground arith
        | inr n ↦ elim (Bool-cases (contains way set)) [
          | inl y ↦
              let (rest, q, le, kept) = LeadsTo-Rest goal way (fold name) set p y in
              walk_cycle_returned bound (suc fuel) goal set path seen rest (omega (arith, le, b)) e
                (kept seen a.1) q
          | inr w ↦
              let call = λ (other : Text).
                walk_cycle fold sets fuel goal (fold other) (path ++ set ∷ []) (set ∷ seen) in
              walk_cycle_returned bound fuel goal (fold name) (path ++ set ∷ []) (set ∷ seen) way
                (omega (arith, b))
                (each_nested_returned call entry.sets name (ground (arith, l, d, a.0, n)) m)
                (All-cons-visiting set seen way w a.1) p
        ]
      ]

  all_unseen : (path : List Text) → All (λ k. contains {A = Text} [] k ≡ false) path
  all_unseen [] = tt
  all_unseen (k ∷ path) = (refl, all_unseen path)

  -- The check of a set ends, whatever circles there are already; it raises exactly if a path of visible
  -- sets leads from one of the nested sets back to the set.
  pub check_cycle-LeadsTo :
      (key : Text) (nested_sets : List Text)
      → (w : Walked) × (check_cycle fold sets key nested_sets ≡ some w)
        × ((w ≢ returned) ↔ (
            (name : Text) × (contains nested_sets name ≡ true)
            × ((way : List Text) × LeadsTo (fold key) way (fold name))))
  unfolding check_cycle
  check_cycle-LeadsTo key nested_sets =
      let (w, e) = each_nested_ends call nested_sets (λ name.
        walk_cycle_ends (suc (length (keys sets))) (fold key) (fold name) (fold key ∷ []) []
          (omega (arith, room_none (keys sets)))) in
      finish w e
    where
      call : Text → Option Walked
      call name =
          walk_cycle fold sets (suc (length (keys sets))) (fold key) (fold name) (fold key ∷ []) []

      finish :
          (w : Walked)
          → each_nested call nested_sets ≡ some w
          → (w : Walked) × (display_path fold sets key (each_nested call nested_sets) ≡ some w)
            × ((w ≢ returned) ↔ (
                (name : Text) × (contains nested_sets name ≡ true)
                × ((way : List Text) × LeadsTo (fold key) way (fold name))))
      finish returned e = (
        returned,
        ground (arith, e),
        (
          (λ n. absurd (n refl)),
          (λ (name, c, (way, l)) _.
              walk_cycle_returned (length way) (suc (length (keys sets))) (fold key) (fold name)
                (fold key ∷ []) [] way (omega arith)
                (each_nested_returned call nested_sets name e c) (all_unseen way) l),
        ),
      )
      finish (raised path) e = (
        raised (map (display fold sets key) path),
        ground (arith, e),
        (
          (λ _.
              let (name, given, c, r) = each_nested_raised call nested_sets path e in
              (
                name,
                c,
                walk_cycle_raised (suc (length (keys sets))) (fold key) (fold name) (fold key ∷ [])
                    [] given r,
              )),
          (λ _ e. cc),
        ),
      )
