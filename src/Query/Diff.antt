-- ===== src/Query/Diff.antt =====
-- wing_parser/query/diff.py: the changes between two scenes. A frozen record is a list of named fields;
-- the arithmetic of floats, Python's equality of leaves, and its dict keys are parameters.
pub mod Scenes
pub mod Same
pub mod Reported
use project008_soundtech_ass.Prelude.{
  ℕ, suc, Bool, true, false, ◌||◌, ◌&&◌, not, Option, none, some, List, [], ◌∷◌, ◌++◌, leb,
  if◌then◌else◌, Result, ok, err, ◌>>=◌, ◌==◌, Eq, contains,
}
use project008_soundtech_ass.Prelude.Text.{Text, codes, text_eq}
use project008_soundtech_ass.Prelude.Dict.{Dict, lookup, insert, keys}
use project008_soundtech_ass.Net.Address.{dot}

-- A value that is no record and no tuple. `N` are the ints and floats.
pub data Leaf (N O : Type 0) : Type 0 where
  absent : Leaf N O
  boolean : Bool → Leaf N O
  number : N → Leaf N O
  text : Text → Leaf N O
  other : O → Leaf N O

mutual
  pub data Node (N O : Type 0) : Type 0 where
    leaf : Leaf N O → Node N O
    dataclass : Attributes N O → Node N O
    tuple : Items N O → Node N O

  pub data Attributes (N O : Type 0) : Type 0 where
    nil : Attributes N O
    attribute : Text → Node N O → Attributes N O → Attributes N O

  pub data Items (N O : Type 0) : Type 0 where
    end : Items N O
    item : Node N O → Items N O → Items N O

-- What the code uses of floats, `==`, `str` and the keys of a dict.
pub record Python (N O K : Type 0) : Type 0 where
  pub is_inf : N → Bool
  pub sentinel : N
  pub distance : N → N → N
  pub same : Leaf N O → Leaf N O → Bool
  pub str : Node N O → Text
  pub key_of_text : Text → K
  pub key_of_value : Node N O → K
  pub key_of_index : ℕ → K
  pub str_key : K → Text
  pub str_number : ℕ → Text

pub record Change (N O : Type 0) : Type 0 where
  pub path : Text
  pub before : Node N O
  pub after : Node N O
  pub magnitude : Option N

-- The `AttributeError` of a record that lacks a field of the other.
pub data DiffError : Type 0 where
  no_attribute : Text → DiffError

abbrev pub skip_fields : List Text
skip_fields = codes "raw" ∷ []

-- the order of `sorted` on texts
abbrev pub text_leb : Text → Text → Bool
text_leb [] t = true
text_leb (c ∷ s) [] = false
text_leb (c ∷ s) (d ∷ t) =
    let rest = text_leb s t in if leb (suc c) d then true else if leb (suc d) c then false else rest

module _ {K : Type 0} where
  -- an insertion that keeps equal keys in their order
  unfoldable pub sort_in : (K → K → Bool) → K → List K → List K
  sort_in before k [] = k ∷ []
  sort_in before k (j ∷ js) =
      let later = j ∷ sort_in before k js in if before k j then k ∷ j ∷ js else later

  -- `sorted(keys)`
  unfoldable pub sorted : (K → K → Bool) → List K → List K
  unfolding sort_in
  sorted before [] = []
  sorted before (k ∷ ks) = sort_in before k (sorted before ks)

  -- `set(a) | set(b)`
  unfoldable pub union : ⦃e : Eq K⦄ → List K → List K → List K
  union xs [] = xs
  union xs (y ∷ ys) = let rest = union xs ys in if contains rest y then rest else rest ++ y ∷ []

module _ {N O K : Type 0} ⦃e : Eq K⦄ (P : Python N O K) where
  -- `_magnitude`
  unfoldable pub leaf_magnitude : Leaf N O → Leaf N O → Option N
  leaf_magnitude (number left) (number right) =
      if P.is_inf left && P.is_inf right
      then none
      else some (
          P.distance (if P.is_inf right then P.sentinel else right)
            (if P.is_inf left then P.sentinel else left))
  leaf_magnitude _ _ = none

  unfoldable pub magnitude : Node N O → Node N O → Option N
  unfolding leaf_magnitude
  magnitude (leaf before) (leaf after) = leaf_magnitude before after
  magnitude _ _ = none

  -- `getattr(item, name, None)` on a record
  abbrev pub attribute_of : Text → Attributes N O → Option (Node N O)
  attribute_of name nil = none
  attribute_of name (attribute j value more) =
      let rest = attribute_of name more in if name == j then some value else rest

  abbrev pub is_none : Node N O → Bool
  is_none (leaf absent) = true
  is_none _ = false

  -- The same on any value, where `None` is no value.
  unfoldable pub getattr : Node N O → Text → Option (Node N O)
  getattr (dataclass attributes) name = elim (attribute_of name attributes) [
    | none ↦ none
    | some value ↦ if is_none value then none else some value
  ]
  getattr (leaf l) name = none
  getattr (tuple items) name = none

  abbrev pub is_matrix : Option (Node N O) → Bool
  is_matrix (some (leaf (text kind))) = kind == codes "matrix"
  is_matrix _ = false

  -- `_key`
  unfoldable pub key : Node N O → ℕ → K
  unfolding getattr
  key value index = elim (getattr value (codes "dest")) [
    | some dest ↦ P.key_of_text (
        if is_matrix (getattr value (codes "dest_kind"))
        then codes "MX" ++ P.str dest
        else P.str dest)
    | none ↦ elim (getattr value (codes "name")) [
      | some name ↦ P.key_of_value name
      | none ↦ elim (getattr value (codes "number")) [
        | some count ↦ P.key_of_value count
        | none ↦ P.key_of_index index
      ]
    ]
  ]

  -- `{_key(item, i): item for i, item in enumerate(items)}`
  unfoldable pub keyed : Dict K (Node N O) → ℕ → Items N O → Dict K (Node N O)
  unfolding key insert
  keyed found index end = found
  keyed found index (item value more) =
      keyed (insert (key value index) value found) (suc index) more

  -- The last test of `_walk`. A record is equal to no leaf and to no tuple.
  unfoldable pub compare_values : Text → Node N O → Node N O → Result DiffError (List (Change N O))
  unfolding magnitude
  compare_values path (leaf before) (leaf after) =
      if P.same before after
      then ok []
      else ok (
          record {
            path = path;
            before = leaf before;
            after = leaf after;
            magnitude = magnitude (leaf before) (leaf after);
          }
          ∷ [])
  compare_values path before after = ok (
      record { path = path; before = before; after = after; magnitude = magnitude before after }
      ∷ [])

  abbrev pub Walk : Type 0
  Walk = Text → Node N O → Result DiffError (List (Change N O))

  abbrev pub or_absent : Option (Node N O) → Node N O
  or_absent none = leaf absent
  or_absent (some value) = value

  -- The walk from `keyed_before.get(key)`, which is `None` for a key that only the other tuple has.
  abbrev pub walk_found : Option Walk → Walk
  walk_found none path after = compare_values path (leaf absent) after
  walk_found (some walk) path after = walk path after

  -- The loop over the sorted keys.
  unfoldable pub walk_keys :
      Text → Dict K Walk → Dict K (Node N O) → List K → Result DiffError (List (Change N O))
  unfolding compare_values lookup
  walk_keys path walks after [] = ok []
  walk_keys path walks after (k ∷ ks) =
      walk_found (lookup k walks) (path ++ dot ∷ P.str_key k) (or_absent (lookup k after))
      >>= λ changes. walk_keys path walks after ks >>= λ more. ok (changes ++ more)

  abbrev pub before_key : K → K → Bool
  before_key j k = text_leb (P.str_key j) (P.str_key k)

  unfoldable mutual
    unfolding compare_values keyed walk_keys sorted union key insert

    pub walk : Node N O → Walk
    walk (leaf before) path after = compare_values path (leaf before) after
    walk (dataclass attributes) path (dataclass after) = walk_fields attributes path after
    walk (dataclass attributes) path (leaf after) =
        compare_values path (dataclass attributes) (leaf after)
    walk (dataclass attributes) path (tuple after) =
        compare_values path (dataclass attributes) (tuple after)
    walk (tuple items) path (tuple after) =
        let walks = keyed_walks [] 0 items in
        let others = keyed [] 0 after in
        walk_keys path walks others (sorted before_key (union (keys walks) (keys others)))
    walk (tuple items) path (leaf after) = compare_values path (tuple items) (leaf after)
    walk (tuple items) path (dataclass after) = compare_values path (tuple items) (dataclass after)

    -- the loop over `fields(before)`
    pub walk_fields : Attributes N O → Text → Attributes N O → Result DiffError (List (Change N O))
    walk_fields nil path after = ok []
    walk_fields (attribute name before more) path after =
        let rest = walk_fields more path after in
        if contains skip_fields name then rest else (elim (attribute_of name after) [
          | none ↦ err (no_attribute name)
          | some value ↦ walk before (path ++ dot ∷ name) value >>= λ changes.
              rest >>= λ others. ok (changes ++ others)
        ])

    -- `keyed_before`, with the walk from each item
    pub keyed_walks : Dict K Walk → ℕ → Items N O → Dict K Walk
    keyed_walks found index end = found
    keyed_walks found index (item value more) =
        keyed_walks (insert (key value index) (walk value) found) (suc index) more
