-- ===== src/Writelog/Codes/Safe.antt =====
-- The characters of a valid code.
use mathlib.Core.Path.{subst}
use project008_soundtech_ass.Prelude.{
  ℕ, zero, suc, ◌+◌, sym, ◌≡◌, refl, ◌∙◌, ap, Bool, true, ◌&&◌, ◌||◌, and-both, leb, ltb, some, [],
  ◌∷◌, eqb, eqb→eq, drop, take, All, arith, Bool-cases, inl, inr, All-append, take-append-drop,
  length,
}
use project008_soundtech_ass.Prelude.Text.{Text, codes, starts_with}
use project008_soundtech_ass.Writelog.Codes.{
  AsciiDigits, Unicode, all_decimal, exactly_digits, is_az, is_aza, is_adhoc, is_code,
  normalize_code, strip,
}

module _ (U : Unicode) (ascii : AsciiDigits U) where
  -- A capital letter of the prefixes, a dash, an ASCII digit, or a decimal digit beyond ASCII.
  abbrev pub is_safe : ℕ → Bool
  is_safe c =
      eqb c b'A'
      || eqb c b'Z'
      || eqb c b'D'
      || eqb c b'H'
      || eqb c b'O'
      || eqb c b'C'
      || eqb c b'-'
      || (leb b'0' c && leb c b'9')
      || (leb 128 c && U.is_decimal c)

  abbrev IsSafe : Text → Type 0
  IsSafe = All (λ c. is_safe c ≡ true)

  digit-is_safe : (c : ℕ) → U.is_decimal c ≡ true → is_safe c ≡ true
  digit-is_safe c h = elim (Bool-cases (ltb c 128)) [
    | inl y ↦ ground (arith, ascii c y)
    | inr n ↦ ground arith
  ]

  digits-IsSafe : (s : Text) → all_decimal U s ≡ true → IsSafe s
  digits-IsSafe [] h = tt
  digits-IsSafe (c ∷ s) h = (digit-is_safe c (ground arith), digits-IsSafe s (ground arith))

  prefixed :
      (front code : Text)
      → IsSafe front
      → starts_with code front ≡ true
      → IsSafe (drop (length front) code)
      → IsSafe code
  prefixed [] code f h r = r
  prefixed (d ∷ front) [] f h r = absurd (cc)
  prefixed (d ∷ front) (c ∷ code) (f, fs) h r =
      (ground (arith, f, eqb→eq c d), prefixed front code fs (ground arith) r)

  drop_none : (n : ℕ) → drop {A = ℕ} n [] ≡ []
  drop_none zero = refl
  drop_none (suc n) = refl

  suc_plus : (m n : ℕ) → suc m + n ≡ suc (m + n)
  suc_plus m n = omega arith

  drop-drop : (m n : ℕ) (s : Text) → drop n (drop m s) ≡ drop (m + n) s
  drop-drop zero n s = ap (λ k. drop k s) (omega arith)
  drop-drop (suc m) n [] = drop_none n ∙ sym (drop_none (suc m + n))
  drop-drop (suc m) n (c ∷ s) = drop-drop m n s ∙ ap (λ k. drop k (c ∷ s)) (sym (suc_plus m n))

  IsSafe-split : (n : ℕ) (s : Text) → IsSafe (take n s) → IsSafe (drop n s) → IsSafe s
  IsSafe-split n s t d =
      subst IsSafe (take-append-drop n s)
        (All-append (λ c. is_safe c ≡ true) (take n s) (drop n s) t d)

  az-IsSafe : (code : Text) → is_az U code ≡ true → IsSafe code
  unfolding is_az
  az-IsSafe code h =
      let (front, digits) = and-both (starts_with code (codes "AZ-")) _ h in
      prefixed (codes "AZ-") code (refl, (refl, (refl, tt))) front
        (digits-IsSafe (drop 3 code) (and-both _ (all_decimal U (drop 3 code)) digits).1)

  aza-IsSafe : (code : Text) → is_aza U code ≡ true → IsSafe code
  unfolding is_aza
  aza-IsSafe code h =
      let (front, digits) = and-both (starts_with code (codes "AZA-")) _ h in
      prefixed (codes "AZA-") code (refl, (refl, (refl, (refl, tt)))) front
        (digits-IsSafe (drop 4 code) (and-both _ (all_decimal U (drop 4 code)) digits).1)

  adhoc-IsSafe : (code : Text) → is_adhoc U code ≡ true → IsSafe code
  unfolding is_adhoc
  adhoc-IsSafe code h =
      let (front, rest) = and-both (starts_with code (codes "ADHOC-")) _ h in
      let (day, rest') = and-both (exactly_digits U 8 (take 8 (drop 6 code))) _ rest in
      let (dash, time) =
        and-both (starts_with (drop 14 code) (codes "-")) (exactly_digits U 4 (drop 15 code))
          rest' in
      prefixed (codes "ADHOC-") code (refl, (refl, (refl, (refl, (refl, (refl, tt)))))) front
        (IsSafe-split 8 (drop 6 code)
          (digits-IsSafe (take 8 (drop 6 code))
            (and-both _ (all_decimal U (take 8 (drop 6 code))) day).1)
          (subst IsSafe (sym (drop-drop 6 8 code)) (
            prefixed (codes "-") (drop 14 code) (refl, tt) dash
              (subst IsSafe (sym (drop-drop 14 1 code)) (
                digits-IsSafe (drop 15 code) (and-both _ (all_decimal U (drop 15 code)) time).1)))))

  is_code-IsSafe : (code : Text) → is_code U code ≡ true → IsSafe code
  unfolding is_code
  is_code-IsSafe code h = elim (Bool-cases (is_az U code)) [
    | inl y ↦ az-IsSafe code y
    | inr n ↦ elim (Bool-cases (is_aza U code)) [
      | inl y ↦ aza-IsSafe code y
      | inr m ↦ adhoc-IsSafe code (ground arith)
    ]
  ]

  -- If `\d` matches only the ten digits below 128, then a code that is normalised has only capital letters
  -- of the three prefixes, dashes, ASCII digits and decimal digits beyond ASCII. So it can name a file: no
  -- slash, backslash, colon, dot or space is in it.
  pub normalize_code-IsSafe :
      (raw code : Text) → normalize_code U raw ≡ some code → All (λ c. is_safe c ≡ true) code
  unfolding normalize_code
  normalize_code-IsSafe raw code e = elim (Bool-cases (is_code U (U.upper (strip U raw)))) [
    | inl y ↦ subst IsSafe (ground arith) (is_code-IsSafe (U.upper (strip U raw)) y)
    | inr n ↦ absurd (ground arith)
  ]
