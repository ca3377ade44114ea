-- ===== src/Query/Diff/Scenes.antt =====
-- `compare` of wing_parser/query/diff.py: the sections of two scenes.
use project008_soundtech_ass.Prelude.{ℕ, List, [], ◌∷◌, ◌++◌, leb, Result, ok, ◌>>=◌, Eq, number_eq}
use project008_soundtech_ass.Prelude.Text.{Text, codes}
use project008_soundtech_ass.Prelude.Dict.{Dict, lookup, keys}
use project008_soundtech_ass.Net.Address.{dot}
use project008_soundtech_ass.Query.Diff.{
  Node, Python, Change, DiffError, or_absent, sorted, union, walk,
}

-- What `compare` reads of a WingScene: the records of its channels, and of a family by its kind.
pub record Scene (N O : Type 0) : Type 0 where
  pub channel_map : Dict ℕ (Node N O)
  pub family : Text → Dict ℕ (Node N O)

abbrev pub kinds : List Text
kinds = codes "bus" ∷ codes "aux" ∷ codes "main" ∷ codes "matrix" ∷ []

module _ {N O K : Type 0} ⦃e : Eq K⦄ (P : Python N O K) where
  -- The loop over the sorted numbers of a section.
  unfoldable pub compare_numbers :
      Text → Dict ℕ (Node N O) → Dict ℕ (Node N O) → List ℕ → Result DiffError (List (Change N O))
  unfolding walk lookup
  compare_numbers kind left right [] = ok []
  compare_numbers kind left right (n ∷ more) =
      walk P (or_absent P (lookup n left)) (kind ++ dot ∷ P.str_number n)
        (or_absent P (lookup n right))
      >>= λ changes. compare_numbers kind left right more >>= λ others. ok (changes ++ others)

  unfoldable pub compare_section :
      Text → Dict ℕ (Node N O) → Dict ℕ (Node N O) → Result DiffError (List (Change N O))
  unfolding compare_numbers sorted union
  compare_section kind left right =
      compare_numbers kind left right (sorted leb (union (keys left) (keys right)))

  unfoldable pub compare_kinds :
      Scene N O → Scene N O → List Text → Result DiffError (List (Change N O))
  unfolding compare_section
  compare_kinds a b [] = ok []
  compare_kinds a b (kind ∷ more) =
      compare_section kind (a.family kind) (b.family kind) >>= λ changes.
      compare_kinds a b more >>= λ others. ok (changes ++ others)

  unfoldable pub compare : Scene N O → Scene N O → Result DiffError (List (Change N O))
  unfolding compare_section compare_kinds
  compare a b = compare_section (codes "ch") a.channel_map b.channel_map >>= λ changes.
      compare_kinds a b kinds >>= λ others. ok (changes ++ others)
