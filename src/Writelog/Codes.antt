-- ===== src/Writelog/Codes.antt =====
-- wing_parser/writelog/codes.py: `normalize_code`. `str.upper`, the spaces and the digits of Unicode are
-- parameters.
pub mod Safe
use project008_soundtech_ass.Prelude.{
  ℕ, suc, Bool, true, false, ◌&&◌, ◌||◌, not, Option, none, some, List, [], ◌∷◌, ◌++◌, leb, ltb,
  ◌≡◌, eqb, length, drop, take, if◌then◌else◌, reverse,
}
use project008_soundtech_ass.Prelude.Text.{Text, codes, starts_with}

-- `str.upper`, `str.isspace` and what `\d` matches.
pub record Unicode : Type 0 where
  pub upper : Text → Text
  pub is_space : ℕ → Bool
  pub is_decimal : ℕ → Bool

-- What the documentation of `re` says of `\d`: below 128 it matches the ten ASCII digits.
abbrev pub AsciiDigits : Unicode → Type 0
AsciiDigits U = (c : ℕ) → ltb c 128 ≡ true → U.is_decimal c ≡ (leb b'0' c && leb c b'9')

module _ (U : Unicode) where
  abbrev pub strip_left : Text → Text
  strip_left [] = []
  strip_left (c ∷ s) = let rest = strip_left s in if U.is_space c then rest else c ∷ s

  -- `s.strip()`
  unfoldable pub strip : Text → Text
  strip s = reverse (strip_left (reverse (strip_left s)))

  abbrev pub all_decimal : Text → Bool
  all_decimal [] = true
  all_decimal (c ∷ s) = U.is_decimal c && all_decimal s

  -- `\d+`, `\d{6,}` and `\d{n}`
  abbrev pub at_least_digits : ℕ → Text → Bool
  at_least_digits n s = leb n (length s) && all_decimal s

  abbrev pub exactly_digits : ℕ → Text → Bool
  exactly_digits n s = eqb (length s) n && all_decimal s

  -- The three alternatives of `_CODE`.
  unfoldable pub is_az : Text → Bool
  is_az code = starts_with code (codes "AZ-") && at_least_digits 1 (drop 3 code)

  unfoldable pub is_aza : Text → Bool
  is_aza code = starts_with code (codes "AZA-") && at_least_digits 6 (drop 4 code)

  unfoldable pub is_adhoc : Text → Bool
  is_adhoc code =
      starts_with code (codes "ADHOC-")
      && (exactly_digits 8 (take 8 (drop 6 code))
          && (starts_with (drop 14 code) (codes "-") && exactly_digits 4 (drop 15 code)))

  -- `_CODE.fullmatch(code)`
  unfoldable pub is_code : Text → Bool
  unfolding is_az is_aza is_adhoc
  is_code code = is_az code || is_aza code || is_adhoc code

  unfoldable pub normalize_code : Text → Option Text
  unfolding is_code strip
  normalize_code raw = let code = U.upper (strip raw) in if is_code code then some code else none
