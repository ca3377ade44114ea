-- ===== src/Net/Snapshot.antt =====
-- `_place` of wing_parser/net/snapshot.py: one leaf's value goes into the `ae` or the `ce` dict. The
-- assembly of `take_snapshot` calls it for every reply.
pub mod Place
use project008_soundtech_ass.Prelude.{
  ℕ, Bool, true, false, Option, none, some, List, [], ◌∷◌, eqb, if◌then◌else◌, ◌==◌, Result, ok,
  err, ◌>>=◌,
}
use project008_soundtech_ass.Prelude.Text.{Text, codes, text_eq, split}
use project008_soundtech_ass.Net.Address.{slash}
use project008_soundtech_ass.Edit.Document.{Document, leaf, dict, Fields, nil, get, put}

abbrev pub ce_root : Text
ce_root = codes "$ctl"

-- `address.lstrip("/")`
unfoldable pub lstrip : Text → Text
lstrip [] = []
lstrip (c ∷ s) = let rest = lstrip s in if eqb c slash then rest else c ∷ s

-- Python raises when it descends into a leaf (`AttributeError`) or assigns no segment (`IndexError`).
pub data PlaceError : Type 0 where
  not_a_dict : Text → PlaceError
  no_segment : PlaceError

module _ {V : Type 0} where
  -- `tree.setdefault(segment, {})` for all but the last segment, then `tree[last] = value`
  unfoldable pub place_at : List Text → V → Fields V → Result PlaceError (Fields V)
  place_at [] v fs = err no_segment
  place_at (s ∷ []) v fs = ok (put s (leaf v) fs)
  place_at (s ∷ t ∷ rest) v fs = elim (get s fs) [
    | none ↦ place_at (t ∷ rest) v nil >>= λ child. ok (put s (dict child) fs)
    | some (dict child) ↦ place_at (t ∷ rest) v child >>= λ child'. ok (put s (dict child') fs)
    | some (leaf w) ↦ err (not_a_dict s)
  ]

  unfoldable pub place_segments :
      Fields V → Fields V → List Text → V → Result PlaceError (Fields V × Fields V)
  unfolding place_at
  place_segments ae ce [] v = err no_segment
  place_segments ae ce (first ∷ rest) v =
      if first == ce_root
      then (place_at rest v ce >>= λ ce'. ok (ae, ce'))
      else (place_at (first ∷ rest) v ae >>= λ ae'. ok (ae', ce))

  -- `_place`
  unfoldable pub place : Fields V → Fields V → Text → V → Result PlaceError (Fields V × Fields V)
  unfolding lstrip place_segments
  place ae ce address v = place_segments ae ce (split slash (lstrip address)) v

  -- The loop of `take_snapshot` over the values read.
  unfoldable pub assemble :
      List (Text × V) → Fields V → Fields V → Result PlaceError (Fields V × Fields V)
  unfolding place
  assemble [] ae ce = ok (ae, ce)
  assemble ((address, v) ∷ more) ae ce =
      place ae ce address v >>= λ trees. assemble more trees.0 trees.1
