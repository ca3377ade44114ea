-- ===== src/Query/Diff/Reported.antt =====
-- Only what differs is reported.
use mathlib.Core.Path.{subst}
use project008_soundtech_ass.Prelude.{
  All, All-append, ℕ, suc, ◌≡◌, refl, false, Option, Option-cases, none, some, List, [], ◌∷◌, ◌++◌,
  ok, err, ◌>>=◌, ◌==◌, Eq, number_eq, contains, Bool-cases, inl, inr, Result,
}
use project008_soundtech_ass.Prelude.Text.{Text, codes, text_eq}
use project008_soundtech_ass.Prelude.Dict.{Dict, lookup, insert, lookup-insert}
use project008_soundtech_ass.Net.Address.{dot}
use project008_soundtech_ass.Query.Diff.{
  Leaf, absent, Node, leaf, dataclass, tuple, Attributes, nil, attribute, Items, end, item, Python,
  Change, DiffError, skip_fields, attribute_of, magnitude, compare_values, Walk, or_absent,
  walk_found, walk_keys, walk, walk_fields, keyed, keyed_walks, key,
}
use project008_soundtech_ass.Query.Diff.Scenes.{
  Scene, compare_numbers, compare_section, compare_kinds, compare, kinds,
}

module _ {N O K : Type 0} ⦃e : Eq K⦄ (P : Python N O K) where
  -- Two leaves that are not equal, or values of which one is no record or one is no tuple.
  abbrev pub Differs : Node N O → Node N O → Type 0
  Differs (leaf before) (leaf after) = P.same before after ≡ false
  Differs (dataclass before) (dataclass after) = ⊥
  Differs (tuple before) (tuple after) = ⊥
  Differs _ _ = Unit

  abbrev pub IsReport : Change N O → Type 0
  IsReport c = Differs c.before c.after × (c.magnitude ≡ magnitude P c.before c.after)

  -- What a walk returns has only such changes.
  abbrev pub AreReports : Result DiffError (List (Change N O)) → Type 0
  AreReports (ok changes) = All IsReport changes
  AreReports (err raised) = Unit

  both-AreReports :
      (first rest : Result DiffError (List (Change N O)))
      → AreReports first
      → AreReports rest
      → AreReports (first >>= λ changes. rest >>= λ others. ok (changes ++ others))
  both-AreReports (err raised) rest f r = tt
  both-AreReports (ok changes) (err raised) f r = tt
  both-AreReports (ok changes) (ok others) f r = All-append IsReport changes others f r

  leaves-AreReports :
      (path : Text) (before after : Leaf N O)
      → AreReports (compare_values P path (leaf before) (leaf after))
  unfolding compare_values
  leaves-AreReports path before after = elim (Bool-cases (P.same before after)) [
    | inl y ↦ rw y tt
    | inr n ↦ rw n ((n, refl), tt)
  ]

  leaf-AreReports :
      (path : Text) (before : Leaf N O) (after : Node N O)
      → AreReports (compare_values P path (leaf before) after)
  unfolding compare_values
  leaf-AreReports path before (leaf after) = leaves-AreReports path before after
  leaf-AreReports path before (dataclass after) = ((tt, refl), tt)
  leaf-AreReports path before (tuple after) = ((tt, refl), tt)

  abbrev IsSoundWalk : Walk P → Type 0
  IsSoundWalk w = (path : Text) (after : Node N O) → AreReports (w path after)

  data IsSoundFound : Option (Walk P) → Type 0 where
    not_found : IsSoundFound none
    found : (w : Walk P) → IsSoundWalk w → IsSoundFound (some w)

  abbrev AreSoundWalks : Dict K (Walk P) → Type 0
  AreSoundWalks walks = (k : K) → IsSoundFound (lookup k walks)

  insert-AreSoundWalks :
      (walks : Dict K (Walk P)) (k : K) (w : Walk P)
      → IsSoundWalk w
      → AreSoundWalks walks
      → AreSoundWalks (insert k w walks)
  insert-AreSoundWalks walks k w s m j = elim (Bool-cases (j == k)) [
    | inl y ↦ rw (lookup-insert j k w walks, y) (found w s)
    | inr n ↦ rw (lookup-insert j k w walks, n) (m j)
  ]

  found-AreReports :
      (path : Text) (w : Option (Walk P)) (after : Node N O)
      → IsSoundFound w
      → AreReports (walk_found P w path after)
  found-AreReports path none after m = leaf-AreReports path absent after
  found-AreReports path (some _) after (found w s) = s path after

  walk_keys-AreReports :
      (path : Text) (walks : Dict K (Walk P)) (after : Dict K (Node N O)) (ks : List K)
      → AreSoundWalks walks
      → AreReports (walk_keys P path walks after ks)
  unfolding walk_keys
  walk_keys-AreReports path walks after [] m = tt
  walk_keys-AreReports path walks after (k ∷ ks) m =
      both-AreReports _ _
        (found-AreReports (path ++ dot ∷ P.str_key k) (lookup k walks)
          (or_absent P (lookup k after)) (m k))
        (walk_keys-AreReports path walks after ks m)

  mutual
    unfolding walk compare_values

    walk-AreReports : (value : Node N O) → IsSoundWalk (walk P value)
    walk-AreReports (leaf before) path after = leaf-AreReports path before after
    walk-AreReports (dataclass attributes) path (dataclass after) =
        walk_fields-AreReports attributes path after
    walk-AreReports (dataclass attributes) path (leaf after) = ((tt, refl), tt)
    walk-AreReports (dataclass attributes) path (tuple after) = ((tt, refl), tt)
    walk-AreReports (tuple items) path (tuple after) =
        walk_keys-AreReports path (keyed_walks P [] 0 items) (keyed P [] 0 after) _
          (keyed-AreSoundWalks [] 0 items (λ k. not_found))
    walk-AreReports (tuple items) path (leaf after) = ((tt, refl), tt)
    walk-AreReports (tuple items) path (dataclass after) = ((tt, refl), tt)

    walk_fields-AreReports :
        (fields : Attributes N O) (path : Text) (after : Attributes N O)
        → AreReports (walk_fields P fields path after)
    walk_fields-AreReports nil path after = tt
    walk_fields-AreReports (attribute name value more) path after =
        elim (Bool-cases (contains skip_fields name)) [
          | inl y ↦ rw y (walk_fields-AreReports more path after)
          | inr n ↦ elim (Option-cases (attribute_of P name after)) [
            | inl m ↦ rw (n, m) tt
            | inr (other, m) ↦
                rw (n, m)
                  (both-AreReports _ _ (walk-AreReports value (path ++ dot ∷ name) other)
                    (walk_fields-AreReports more path after))
          ]
        ]

    keyed-AreSoundWalks :
        (walks : Dict K (Walk P)) (index : ℕ) (items : Items N O)
        → AreSoundWalks walks
        → AreSoundWalks (keyed_walks P walks index items)
    keyed-AreSoundWalks walks index end m = m
    keyed-AreSoundWalks walks index (item value more) m =
        keyed-AreSoundWalks (insert (key P value index) (walk P value) walks) (suc index) more
          (insert-AreSoundWalks walks (key P value index) (walk P value) (walk-AreReports value) m)

  numbers-AreReports :
      (kind : Text) (left right : Dict ℕ (Node N O)) (ns : List ℕ)
      → AreReports (compare_numbers P kind left right ns)
  unfolding compare_numbers
  numbers-AreReports kind left right [] = tt
  numbers-AreReports kind left right (n ∷ ns) =
      both-AreReports _ _
        (walk-AreReports (or_absent P (lookup n left)) (kind ++ dot ∷ P.str_number n)
          (or_absent P (lookup n right)))
        (numbers-AreReports kind left right ns)

  section-AreReports :
      (kind : Text) (left right : Dict ℕ (Node N O))
      → AreReports (compare_section P kind left right)
  unfolding compare_section
  section-AreReports kind left right = numbers-AreReports kind left right _

  kinds-AreReports : (a b : Scene N O) (ks : List Text) → AreReports (compare_kinds P a b ks)
  unfolding compare_kinds
  kinds-AreReports a b [] = tt
  kinds-AreReports a b (kind ∷ ks) =
      both-AreReports _ _ (section-AreReports kind (a.family kind) (b.family kind))
        (kinds-AreReports a b ks)

  -- Every change that is reported is of two leaves that are not equal or of values of which one is a
  -- record or a tuple and the other is not of that shape, with its magnitude.
  pub compare-reports :
      (a b : Scene N O) (changes : List (Change N O))
      → compare P a b ≡ ok changes
      → All IsReport changes
  unfolding compare
  compare-reports a b changes e = subst AreReports e (
      both-AreReports _ _ (section-AreReports (codes "ch") a.channel_map b.channel_map)
        (kinds-AreReports a b kinds))
