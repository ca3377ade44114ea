-- ===== src/Query/Diff/Same.antt =====
-- A scene does not differ from itself.
use project008_soundtech_ass.Prelude.{
  All, ℕ, suc, ◌≡◌, refl, true, Option, none, some, List, [], ◌∷◌, ◌++◌, ok, ◌==◌, Eq, number_eq,
  contains, arith, Bool-cases, inl, inr,
}
use project008_soundtech_ass.Prelude.Text.{Text, codes, text_eq}
use project008_soundtech_ass.Prelude.Dict.{Dict, lookup, insert, lookup-insert}
use project008_soundtech_ass.Net.Address.{dot}
use project008_soundtech_ass.Query.Diff.{
  Leaf, absent, Node, leaf, dataclass, tuple, Attributes, nil, attribute, Items, end, item, Python,
  skip_fields, attribute_of, compare_values, Walk, or_absent, walk_found, walk_keys, walk,
  walk_fields, keyed, keyed_walks, key,
}
use project008_soundtech_ass.Query.Diff.Scenes.{
  Scene, compare_numbers, compare_section, compare_kinds, compare, kinds,
}

module _ {N O K : Type 0} ⦃e : Eq K⦄ (P : Python N O K) where
  -- Each name of a record leads to its own field.
  unfoldable mutual
    pub IsWellNamed : Node N O → Type 0
    IsWellNamed (leaf l) = Unit
    IsWellNamed (dataclass attributes) = AreWellNamed attributes attributes
    IsWellNamed (tuple items) = AllWellNamed items

    pub AreWellNamed : Attributes N O → Attributes N O → Type 0
    AreWellNamed all_ nil = Unit
    AreWellNamed all_ (attribute name value more) =
        (attribute_of P name all_ ≡ some value) × IsWellNamed value × AreWellNamed all_ more

    pub AllWellNamed : Items N O → Type 0
    AllWellNamed end = Unit
    AllWellNamed (item value more) = IsWellNamed value × AllWellNamed more

module _ {N O K : Type 0} ⦃e : Eq K⦄ (P : Python N O K)
    (same_refl : (l : Leaf N O) → P.same l l ≡ true) where
  -- A walk that finds no change in the value it starts from.
  abbrev pub IsStill : Walk P → Node N O → Type 0
  IsStill walk_ value = (path : Text) → walk_ path value ≡ ok []

  -- The walks and the items of a tuple agree: a key has both or none, and each walk is still.
  pub data IsMatched : Option (Walk P) → Option (Node N O) → Type 0 where
    neither : IsMatched none none
    each : (w : Walk P) (value : Node N O) → IsStill w value → IsMatched (some w) (some value)

  abbrev pub AreMatched : Dict K (Walk P) → Dict K (Node N O) → Type 0
  AreMatched walks items = (k : K) → IsMatched (lookup k walks) (lookup k items)

  insert-AreMatched :
      (walks : Dict K (Walk P)) (items : Dict K (Node N O)) (k : K) (w : Walk P) (value : Node N O)
      → IsStill w value
      → AreMatched walks items
      → AreMatched (insert k w walks) (insert k value items)
  insert-AreMatched walks items k w value s m j = elim (Bool-cases (j == k)) [
    | inl y ↦ rw (lookup-insert j k w walks, lookup-insert j k value items, y) (each w value s)
    | inr n ↦ rw (lookup-insert j k w walks, lookup-insert j k value items, n) (m j)
  ]

  found-IsStill :
      (path : Text) (w : Option (Walk P)) (value : Option (Node N O))
      → IsMatched w value
      → walk_found P w path (or_absent P value) ≡ ok []
  unfolding compare_values
  found-IsStill path none none neither = ground (arith, same_refl absent)
  found-IsStill path none (some _) m = elim m [ ]
  found-IsStill path (some _) none m = elim m [ ]
  found-IsStill path (some _) (some _) (each w value s) = s path

  walk_keys-IsStill :
      (path : Text) (walks : Dict K (Walk P)) (items : Dict K (Node N O)) (ks : List K)
      → AreMatched walks items
      → walk_keys P path walks items ks ≡ ok []
  unfolding walk_keys
  walk_keys-IsStill path walks items [] m = refl
  walk_keys-IsStill path walks items (k ∷ ks) m = ground (
    arith,
    found-IsStill (path ++ dot ∷ P.str_key k) (lookup k walks) (lookup k items) (m k),
    walk_keys-IsStill path walks items ks m,
  )

  mutual
    unfolding walk IsWellNamed compare_values

    walk-IsStill : (value : Node N O) → IsWellNamed P value → IsStill (walk P value) value
    walk-IsStill (leaf l) w path = ground (arith, same_refl l)
    walk-IsStill (dataclass attributes) w path = walk_fields-IsStill attributes attributes path w
    walk-IsStill (tuple items) w path =
        walk_keys-IsStill path (keyed_walks P [] 0 items) (keyed P [] 0 items) _
          (keyed-AreMatched [] [] 0 items w (λ k. neither))

    walk_fields-IsStill :
        (all_ fields : Attributes N O) (path : Text)
        → AreWellNamed P all_ fields
        → walk_fields P fields path all_ ≡ ok []
    walk_fields-IsStill all_ nil path w = refl
    walk_fields-IsStill all_ (attribute name value more) path (f, w, ws) =
        elim (Bool-cases (contains skip_fields name)) [
          | inl y ↦ ground (arith, walk_fields-IsStill all_ more path ws)
          | inr n ↦ ground (
            arith,
            f,
            walk-IsStill value w (path ++ dot ∷ name),
            walk_fields-IsStill all_ more path ws,
          )
        ]

    keyed-AreMatched :
        (walks : Dict K (Walk P)) (found : Dict K (Node N O)) (index : ℕ) (items : Items N O)
        → AllWellNamed P items
        → AreMatched walks found
        → AreMatched (keyed_walks P walks index items) (keyed P found index items)
    keyed-AreMatched walks found index end w m = m
    keyed-AreMatched walks found index (item value more) (w, ws) m =
        keyed-AreMatched (insert (key P value index) (walk P value) walks)
          (insert (key P value index) value found) (suc index) more ws
          (insert-AreMatched walks found (key P value index) (walk P value) value
            (walk-IsStill value w) m)

  AreAllWellNamed : Dict ℕ (Node N O) → Type 0
  AreAllWellNamed = All (λ (_, value). IsWellNamed P value)

  entry-IsStill :
      (section : Dict ℕ (Node N O)) (n : ℕ) (path : Text)
      → AreAllWellNamed section
      → walk P (or_absent P (lookup n section)) path (or_absent P (lookup n section)) ≡ ok []
  unfolding lookup AreAllWellNamed
  entry-IsStill [] n path ws = walk-IsStill (leaf absent) (unfold IsWellNamed in tt) path
  entry-IsStill ((m, value) ∷ section) n path (w, ws) = elim (Bool-cases (n == m)) [
    | inl y ↦ rw y (walk-IsStill value w path)
    | inr other ↦ rw other (entry-IsStill section n path ws)
  ]

  numbers-IsStill :
      (kind : Text) (section : Dict ℕ (Node N O)) (ns : List ℕ)
      → AreAllWellNamed section
      → compare_numbers P kind section section ns ≡ ok []
  unfolding compare_numbers
  numbers-IsStill kind section [] ws = refl
  numbers-IsStill kind section (n ∷ ns) ws = ground (
    arith,
    entry-IsStill section n (kind ++ dot ∷ P.str_number n) ws,
    numbers-IsStill kind section ns ws,
  )

  section-IsStill :
      (kind : Text) (section : Dict ℕ (Node N O))
      → AreAllWellNamed section
      → compare_section P kind section section ≡ ok []
  unfolding compare_section
  section-IsStill kind section ws = numbers-IsStill kind section _ ws

  kinds-IsStill :
      (scene : Scene N O) (ks : List Text)
      → ((kind : Text) → AreAllWellNamed (scene.family kind))
      → compare_kinds P scene scene ks ≡ ok []
  unfolding compare_kinds
  kinds-IsStill scene [] ws = refl
  kinds-IsStill scene (kind ∷ ks) ws =
      ground (arith, section-IsStill kind (scene.family kind) (ws kind), kinds-IsStill scene ks ws)

  -- If every leaf is equal to itself, as all but NaN are, and each field name of a record leads to its own field, then a
  -- scene has no change against itself, whatever the keys of its tuples.
  pub compare-same :
      (scene : Scene N O)
      → All (λ (_, value). IsWellNamed P value) scene.channel_map
      → ((kind : Text) → All (λ (_, value). IsWellNamed P value) (scene.family kind))
      → compare P scene scene ≡ ok []
  unfolding compare AreAllWellNamed
  compare-same scene channels families = ground (
    arith,
    section-IsStill (codes "ch") scene.channel_map channels,
    kinds-IsStill scene kinds families,
  )
