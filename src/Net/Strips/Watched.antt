-- ===== src/Net/Strips/Watched.antt =====
-- Each strip that the walk found is watched on each key of its family.
use project008_soundtech_ass.Prelude.{
  ℕ, ◌≡◌, refl, ap, sym, ◌∙◌, Bool, true, false, ◌||◌, Option, none, some, List, [], ◌∷◌, ◌++◌,
  ◌==◌, contains, contains-append, ==_refl, ==→eq, eqb, eqb→eq, eqb_refl, ok, arith, Option-cases,
  Bool-cases, inl, inr,
}
use project008_soundtech_ass.Prelude.Text.{Text, text_eq}
use project008_soundtech_ass.Prelude.Dict.{Dict, lookup, insert, lookup-insert}
use project008_soundtech_ass.Net.Strips.{
  families, WatchList, add_number, numbers_of, present_from, address_of, key_addresses,
  strip_addresses, family_addresses, unknown_in, build_watch_list,
}

-- the number is in the set
abbrev has : ℕ → List ℕ → Bool
has n [] = false
has n (m ∷ ms) = eqb n m || has n ms

has-add_number : (n m : ℕ) (ms : List ℕ) → has n (add_number m ms) ≡ (eqb n m || has n ms)
unfolding add_number
has-add_number n m [] = refl
has-add_number n m (k ∷ ks) = ground (arith, has-add_number n m ks)

or_right : (a : Bool) {b : Bool} → b ≡ true → (a || b) ≡ true
or_right true h = refl
or_right false h = h

or_left : (b : Bool) {a : Bool} → a ≡ true → (a || b) ≡ true
or_left b h = ground arith

module _ (strip_of : Text → Option (Text × ℕ)) where
  present_from-keeps :
      (present : Dict Text (List ℕ)) (leaves : List Text) (f : Text) (n : ℕ)
      → has n (numbers_of f present) ≡ true
      → has n (numbers_of f (present_from strip_of present leaves)) ≡ true
  unfolding present_from
  present_from-keeps present [] f n h = h
  present_from-keeps present (a ∷ more) f n h = elim (Option-cases (strip_of a)) [
    | inl e ↦ ground (arith, present_from-keeps present more f n h)
    | inr ((g, m), e) ↦
        let next = insert g (add_number m (numbers_of g present)) present in
        ground (
          arith,
          present_from-keeps next more f n,
          lookup-insert f g (add_number m (numbers_of g present)) present,
          has-add_number n m (numbers_of g present),
          ==→eq f g,
        )
  ]

  present_from-has :
      (present : Dict Text (List ℕ)) (leaves : List Text) (a f : Text) (n : ℕ)
      → contains leaves a ≡ true
      → strip_of a ≡ some (f, n)
      → has n (numbers_of f (present_from strip_of present leaves)) ≡ true
  unfolding present_from
  present_from-has present [] a f n h e = absurd (cc)
  present_from-has present (b ∷ more) a f n h e = elim (Bool-cases (a == b)) [
    | inl y ↦
        let next = insert f (add_number n (numbers_of f present)) present in
        here y (
          present_from-keeps next more f n (
            ground (
              arith,
              lookup-insert f f (add_number n (numbers_of f present)) present,
              has-add_number n n (numbers_of f present),
              ==_refl f,
              eqb_refl n,
            )))
    | inr y ↦ elim (Option-cases (strip_of b)) [
      | inl k ↦ ground (arith, present_from-has present more a f n)
      | inr ((g, m), k) ↦ ground (
        arith,
        present_from-has (insert g (add_number m (numbers_of g present)) present) more a f n,
      )
    ]
  ]
    where
      here :
          (a == b) ≡ true
          → has n (
              numbers_of f (
                present_from strip_of
                  (insert f (add_number n (numbers_of f present)) present)
                  more))
            ≡ true
          → has n (numbers_of f (present_from strip_of present (b ∷ more))) ≡ true
      here y u = rw (sym (ap strip_of (==→eq a b y)) ∙ e, present_from) u

  module _ (show : ℕ → Text) where
    contains-key_addresses :
        (f : Text) (n : ℕ) (ks : List Text) (k : Text)
        → contains ks k ≡ true
        → contains (key_addresses strip_of show f n ks) (address_of strip_of show f n k) ≡ true
    unfolding key_addresses
    contains-key_addresses f n [] k h = absurd (cc)
    contains-key_addresses f n (j ∷ ks) k h = elim (Bool-cases (k == j)) [
      | inl y ↦ rw (sym (==→eq k j y)) (rw (==_refl (address_of strip_of show f n k)) refl)
      | inr y ↦
          or_right (address_of strip_of show f n k == address_of strip_of show f n j)
            (contains-key_addresses f n ks k (ground arith))
    ]

    contains-strip_addresses :
        (f : Text) (n : ℕ) (ns : List ℕ) (ks : List Text) (k : Text)
        → has n ns ≡ true
        → contains ks k ≡ true
        → contains (strip_addresses strip_of show f ns ks) (address_of strip_of show f n k) ≡ true
    unfolding strip_addresses
    contains-strip_addresses f n [] ks k h i = absurd (cc)
    contains-strip_addresses f n (m ∷ ns) ks k h i = elim (Bool-cases (eqb n m)) [
      | inl y ↦
          contains-append (key_addresses strip_of show f m ks)
            (strip_addresses strip_of show f ns ks) (address_of strip_of show f n k)
          ∙ or_left
              (contains (strip_addresses strip_of show f ns ks) (address_of strip_of show f n k))
              (rw (sym (eqb→eq n m y)) (contains-key_addresses f n ks k i))
      | inr y ↦
          contains-append (key_addresses strip_of show f m ks)
            (strip_addresses strip_of show f ns ks) (address_of strip_of show f n k)
          ∙ or_right
              (contains (key_addresses strip_of show f m ks) (address_of strip_of show f n k))
              (contains-strip_addresses f n ns ks k (ground arith) i)
    ]

    contains-family_addresses :
        (wanted : Dict Text (List Text)) (present : Dict Text (List ℕ)) (fs : List Text) (f : Text)
        (n : ℕ) (ks : List Text) (k : Text)
        → contains fs f ≡ true
        → lookup f wanted ≡ some ks
        → has n (numbers_of f present) ≡ true
        → contains ks k ≡ true
        → contains
            (family_addresses strip_of show wanted present fs).0
            (address_of strip_of show f n k)
          ≡ true
    unfolding family_addresses
    contains-family_addresses wanted present [] f n ks k c w h i = absurd (cc)
    contains-family_addresses wanted present (g ∷ fs) f n ks k c w h i =
        elim (Bool-cases (f == g)) [
          | inl y ↦ elim (Option-cases (lookup f present)) [
            | inl p ↦ absurd (ground arith)
            | inr (ns, p) ↦ first y ns p (
                contains-append (strip_addresses strip_of show f ns ks) rest
                  (address_of strip_of show f n k)
                ∙ or_left (contains rest (address_of strip_of show f n k))
                    (contains-strip_addresses f n ns ks k (ground arith) i))
          ]
          | inr y ↦
              later (contains-family_addresses wanted present fs f n ks k (ground arith) w h i)
        ]
      where
        rest : List Text
        rest = (family_addresses strip_of show wanted present fs).0

        all : List Text
        all = (family_addresses strip_of show wanted present (g ∷ fs)).0

        joined :
            (js : List Text) (ns : List ℕ)
            → lookup g wanted ≡ some js
            → lookup g present ≡ some ns
            → all ≡ strip_addresses strip_of show g ns js ++ rest
        joined js ns q p = ground arith

        skipped : lookup g wanted ≡ none → all ≡ rest
        skipped q = ground arith

        absent : (js : List Text) → lookup g wanted ≡ some js → lookup g present ≡ none → all ≡ rest
        absent js q p = ground arith

        first :
            (f == g) ≡ true
            → (ns : List ℕ) → lookup f present ≡ some ns
            → contains
                (strip_addresses strip_of show f ns ks ++ rest)
                (address_of strip_of show f n k)
              ≡ true
            → contains all (address_of strip_of show f n k) ≡ true
        first y ns p u =
            ap (λ xs. contains xs (address_of strip_of show f n k))
              (joined ks ns (sym (ap (λ x. lookup x wanted) (==→eq f g y)) ∙ w)
                  (sym (ap (λ x. lookup x present) (==→eq f g y)) ∙ p)
                ∙ ap (λ x. strip_addresses strip_of show x ns ks ++ rest) (sym (==→eq f g y)))
            ∙ u

        later :
            contains rest (address_of strip_of show f n k) ≡ true
            → contains all (address_of strip_of show f n k) ≡ true
        later u = elim (Option-cases (lookup g wanted)) [
          | inl q ↦ ap (λ xs. contains xs (address_of strip_of show f n k)) (skipped q) ∙ u
          | inr (js, q) ↦ elim (Option-cases (lookup g present)) [
            | inl p ↦ ap (λ xs. contains xs (address_of strip_of show f n k)) (absent js q p) ∙ u
            | inr (ns, p) ↦
                ap (λ xs. contains xs (address_of strip_of show f n k)) (joined js ns q p)
                ∙ contains-append (strip_addresses strip_of show g ns js) rest
                    (address_of strip_of show f n k)
                ∙ or_right
                    (contains (strip_addresses strip_of show g ns js)
                      (address_of strip_of show f n k))
                    u
          ]
        ]

    -- If the list is built, a leaf that the walk found at a strip of a watched family makes the list hold
    -- the address of that strip with each key of the family.
    pub build_watch_list-watched :
        (wanted : Dict Text (List Text)) (leaves unresolved : List Text) (l : WatchList)
        (leaf family : Text) (n : ℕ) (ks : List Text) (k : Text)
        → build_watch_list strip_of show wanted leaves unresolved ≡ ok l
        → contains leaves leaf ≡ true
        → strip_of leaf ≡ some (family, n)
        → contains families family ≡ true
        → lookup family wanted ≡ some ks
        → contains ks k ≡ true
        → contains l.addresses (address_of strip_of show family n k) ≡ true
    unfolding build_watch_list
    build_watch_list-watched wanted leaves unresolved l leaf family n ks k b c e f w i =
        ap (λ xs. contains xs (address_of strip_of show family n k))
          (built (unknown_in strip_of show wanted) refl)
        ∙ contains-family_addresses wanted (present_from strip_of [] leaves) families family n ks k
            f w (present_from-has [] leaves leaf family n c e) i
      where
        built :
            (us : List Text)
            → unknown_in strip_of show wanted ≡ us
            → l.addresses
              ≡ (family_addresses strip_of show wanted (present_from strip_of [] leaves) families).0
        built [] q = ground arith
        built (u ∷ us) q = absurd (ground arith)
