-- ===== src/Advisory/Predicates.antt =====
-- wing_parser/advisory/predicates.py: `matches` and `all_match`.
use project008_soundtech_ass.Prelude.{
  Bool, true, false, not, Option, none, some, [], ◌∷◌, ◌==◌, if◌then◌else◌,
}
use project008_soundtech_ass.Prelude.Text.{Text, codes, text_eq}
use project008_soundtech_ass.Prelude.Dict.{Dict}

-- What the code uses of Python's values: `==`, `in`, `>` and `<`, `isinstance`, `is None`, `bool` and
-- `str.startswith`. Those that raise a `TypeError` on an operand of another kind are none then.
pub record Values (V : Type 0) : Type 0 where
  pub equal : V → V → Bool
  pub member : V → V → Option Bool
  pub is_number : V → Bool
  pub greater : V → V → Option Bool
  pub less : V → V → Option Bool
  pub is_none : V → Bool
  pub truth : V → Bool
  pub is_text : V → Bool
  pub starts_with : V → V → Option Bool

-- A `where` value: a plain value, or a dict of operators.
pub data Expected (V : Type 0) : Type 0 where
  plain : V → Expected V
  operators : Dict Text V → Expected V

abbrev pub same : Bool → Bool → Bool
same true b = b
same false b = not b

module _ {V : Type 0} (P : Values V) where
  -- Whether one operator holds; `none` is what it raises: the `ValueError` of an unknown one, or
  -- a `TypeError`.
  unfoldable pub operator_holds : Text → V → V → Option Bool
  operator_holds operator operand value =
      if operator == codes "not"
      then some (not (P.equal value operand))
      else if operator == codes "in"
      then P.member value operand
      else if operator == codes "not_in"
      then (elim (P.member value operand) [ none ↦ none | some held ↦ some (not held) ])
      else if operator == codes "gt"
      then (if P.is_number value then P.greater value operand else some false)
      else if operator == codes "lt"
      then (if P.is_number value then P.less value operand else some false)
      else if operator == codes "is_null"
      then some (same (P.is_none value) (P.truth operand))
      else if operator == codes "starts_with"
      then (if P.is_text value then P.starts_with value operand else some false)
      else none

  -- The loop of `matches`: it returns at the first operator that fails.
  unfoldable pub matches_all : V → Dict Text V → Option Bool
  unfolding operator_holds
  matches_all value [] = some true
  matches_all value ((operator, operand) ∷ more) =
      let later = matches_all value more in
      elim (operator_holds operator operand value) [
        | none ↦ none
        | some true ↦ later
        | some false ↦ some false
      ]

  unfoldable pub matches : V → Expected V → Option Bool
  unfolding matches_all
  matches value (plain expected) = some (P.equal value expected)
  matches value (operators ops) = matches_all value ops

  -- `resolve` is `resolve_path` at the context.
  unfoldable pub all_match : (Text → V) → Dict Text (Expected V) → Option Bool
  unfolding matches
  all_match resolve [] = some true
  all_match resolve ((path, expected) ∷ more) =
      let later = all_match resolve more in
      elim (matches (resolve path) expected) [
        | none ↦ none
        | some true ↦ later
        | some false ↦ some false
      ]
