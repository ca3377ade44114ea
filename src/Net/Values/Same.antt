-- ===== src/Net/Values/Same.antt =====
-- A value that is read back as it was written matches.
use project008_soundtech_ass.Prelude.{◌≡◌, refl, Bool, true, false, ==_refl, arith}
use project008_soundtech_ass.Prelude.Text.{text_eq}
use project008_soundtech_ass.Net.Values.{
  Value, boolean, integer, floating, string, Numbers, from_db, is_floor, truth, number,
  numbers_match, values_match,
}

module _ {I F : Type 0} (P : Numbers I F) (of_bool : Bool → F) where
  numbers_match_refl :
      (x : F)
      → P.at_most_sentinel P.sentinel ≡ true
      → (P.is_neg_inf x ≡ true → P.at_most_sentinel x ≡ true)
      → P.close x x ≡ true
      → numbers_match P x x ≡ true
  unfolding numbers_match is_floor from_db
  numbers_match_refl x s n c = ground arith

  -- A value matches itself, if minus infinity is below the sentinel and a number is close to itself.
  values_match_refl :
      (v : Value I F)
      → P.at_most_sentinel P.sentinel ≡ true
      → ((x : F) → P.is_neg_inf x ≡ true → P.at_most_sentinel x ≡ true)
      → ((x : F) → P.close x x ≡ true)
      → values_match P of_bool v v ≡ true
  unfolding values_match number truth
  values_match_refl (boolean true) s n c = refl
  values_match_refl (boolean false) s n c = refl
  values_match_refl (integer i) s n c =
      numbers_match_refl (P.to_float i) s (n (P.to_float i)) (c (P.to_float i))
  values_match_refl (floating x) s n c = numbers_match_refl x s (n x) (c x)
  values_match_refl (string t) s n c = ==_refl t
