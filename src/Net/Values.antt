-- ===== src/Net/Values.antt =====
-- The leaf values of wing_parser/net/write.py: `_format_value` and `_values_match`, with `from_db` of
-- wing_parser/core/normalizer.py. `I` and `F` are Python's `int` and `float`.
pub mod Same
use project008_soundtech_ass.Prelude.{
  Bool, true, false, ◌&&◌, ◌||◌, not, Option, none, some, [], ◌∷◌, ◌==◌, if◌then◌else◌,
}
use project008_soundtech_ass.Prelude.Text.{Text, codes, text_eq}

pub data Value (I F : Type 0) : Type 0 where
  boolean : Bool → Value I F
  integer : I → Value I F
  floating : F → Value I F
  string : Text → Value I F

-- What the code uses of Python's numbers. `plain` is `_format_float_plain`, and `close` the `isclose`
-- with the tolerances of the code.
pub record Numbers (I F : Type 0) : Type 0 where
  pub to_float : I → F
  pub is_zero_int : I → Bool
  pub is_zero : F → Bool
  pub is_neg_inf : F → Bool
  pub sentinel : F
  pub at_most_sentinel : F → Bool
  pub close : F → F → Bool
  pub show_int : I → Text
  pub show_float : F → Text
  pub plain : F → Text

-- `isinstance(a, bool) == b`, by cases
abbrev pub same_truth : Bool → Bool → Bool
same_truth true b = b
same_truth false b = not b

abbrev pub is_some_char : Text → Bool
is_some_char [] = false
is_some_char (_ ∷ _) = true

module _ {I F : Type 0} (P : Numbers I F) where
  unfoldable pub from_db : F → F
  from_db x = if P.is_neg_inf x then P.sentinel else x

  -- `from_db(x) <= SENTINEL_MINUS_INF`
  unfoldable pub is_floor : F → Bool
  unfolding from_db
  is_floor x = P.at_most_sentinel (from_db x)

  unfoldable pub format_value : Value I F → Text
  unfolding is_floor
  format_value (boolean b) = if b then codes "1" else codes "0"
  format_value (integer n) = if is_floor (P.to_float n) then codes "-oo" else P.show_int n
  format_value (floating x) = if is_floor x then codes "-oo" else P.plain x
  format_value (string s) = s

  -- `bool(value)`
  unfoldable pub truth : Value I F → Bool
  truth (boolean b) = b
  truth (integer n) = not (P.is_zero_int n)
  truth (floating x) = not (P.is_zero x)
  truth (string s) = is_some_char s

  -- `str(value)`
  unfoldable pub show : Value I F → Text
  show (boolean b) = if b then codes "True" else codes "False"
  show (integer n) = P.show_int n
  show (floating x) = P.show_float x
  show (string s) = s

  -- The number that a value is; a bool is an int to `isinstance`.
  unfoldable pub number : (Bool → F) → Value I F → Option F
  number of_bool (boolean b) = some (of_bool b)
  number of_bool (integer n) = some (P.to_float n)
  number of_bool (floating x) = some x
  number of_bool (string s) = none

  unfoldable pub numbers_match : F → F → Bool
  unfolding is_floor
  numbers_match expected got =
      if is_floor expected || P.at_most_sentinel got
      then is_floor expected && P.at_most_sentinel got
      else P.close (from_db expected) got

  unfoldable pub values_match : (Bool → F) → Value I F → Value I F → Bool
  unfolding truth number numbers_match show
  values_match of_bool (boolean b) readback = same_truth (truth readback) b
  values_match of_bool (string s) readback = s == show readback
  values_match of_bool (integer n) readback = elim (number of_bool readback) [
    | some got ↦ numbers_match (P.to_float n) got
    | none ↦ show (integer n) == show readback
  ]
  values_match of_bool (floating x) readback = elim (number of_bool readback) [
    | some got ↦ numbers_match x got
    | none ↦ show (floating x) == show readback
  ]
