-- ===== src/Net/Address.antt =====
-- wing_parser/net/address.py: a dotted `.snap` path becomes an OSC address; and
-- wing_parser/net/jsontypes.py: which leaves are booleans in a `.snap`.
use project008_soundtech_ass.Prelude.{
  ℕ, Bool, true, false, ◌&&◌, ◌||◌, not, List, [], ◌∷◌, Result, ok, err, leb, contains, ◌==◌,
  if◌then◌else◌, map,
}
use project008_soundtech_ass.Prelude.Text.{Text, codes, text_eq, split, join}

abbrev pub dot : ℕ
dot = b'.'

abbrev pub slash : ℕ
slash = b'/'

abbrev pub root_name : Text
root_name = codes "ae_data"

-- The two `ValueError`s of `leaf_parts`; both carry the path.
pub data PathError : Type 0 where
  not_a_leaf_path : Text → PathError
  empty_segment : Text → PathError

-- `not segment`
abbrev pub is_empty : Text → Bool
is_empty [] = true
is_empty (c ∷ s) = false

abbrev pub any_empty : List Text → Bool
any_empty [] = false
any_empty (s ∷ rest) = is_empty s || any_empty rest

-- The checks on the segments of `path`.
unfoldable pub check_parts : Text → List Text → Result PathError (List Text)
check_parts path [] = err (not_a_leaf_path path)
check_parts path (first ∷ []) = err (not_a_leaf_path path)
check_parts path (first ∷ second ∷ more) =
    if not (first == root_name)
    then err (not_a_leaf_path path)
    else if any_empty (second ∷ more)
    then err (empty_segment path)
    else ok (second ∷ more)

unfoldable pub leaf_parts : Text → Result PathError (List Text)
unfolding check_parts
leaf_parts path = check_parts path (split dot path)

unfoldable pub join_segments : List Text → Text
join_segments segments = slash ∷ join slash segments

unfoldable pub osc_address : Text → Result PathError Text
unfolding leaf_parts join_segments
osc_address path = elim (leaf_parts path) [ ok parts ↦ ok (join_segments parts) | err e ↦ err e ]

-- `p.isdigit()`; the segments are ASCII
unfoldable pub is_digit : Text → Bool
is_digit [] = false
is_digit (c ∷ []) = leb b'0' c && leb c b'9'
is_digit (c ∷ d ∷ s) = leb b'0' c && leb c b'9' && is_digit (d ∷ s)

unfoldable pub shape_path : List Text → Text
unfolding is_digit
shape_path parts = join slash (map (λ p. if is_digit p then codes "*" else p) parts)

-- `shapes` is the set of the data file wing_jsontypes.yaml.
unfoldable pub is_boolean_shape : List Text → List Text → Bool
unfolding shape_path
is_boolean_shape shapes parts = contains shapes (shape_path parts)
