-- ===== src/Prelude/Text.antt =====
-- Python's `str` as the list of its code points.
pub mod Split
pub mod Lines
use Prim.Native.Char.{code}
use Prim.Native.String.{String}
use Prim.Native.Nat.{ℕ}
use mathlib.Core.Path.{◌≡◌, refl}
use mathlib.Core.Bool.{Bool, true, false, ◌&&◌, Bool-discrete}
use mathlib.Core.List.{List, [], ◌∷◌, ◌++◌}
use native.Mathlib.Omega.{arith}
use project008_soundtech_ass.Prelude.Tests.{eqb, eqb_refl, if◌then◌else◌}
use project008_soundtech_ass.Prelude.Equality.{Eq}

abbrev pub Text : Type 0
Text = List ℕ

-- the code points of a literal
abbrev pub codes : String → Text
codes String.[] = []
codes (String.◌∷◌ c s) = code c ∷ codes s

unfoldable pub text_beq : Text → Text → Bool
text_beq [] [] = true
text_beq [] (d ∷ t) = false
text_beq (c ∷ s) [] = false
text_beq (c ∷ s) (d ∷ t) = eqb c d && text_beq s t

pub text_beq→eq : (s t : Text) → text_beq s t ≡ true → s ≡ t
unfolding text_beq
text_beq→eq [] [] h = refl
text_beq→eq [] (d ∷ t) h = cc
text_beq→eq (c ∷ s) [] h = cc
text_beq→eq (c ∷ s) (d ∷ t) h = ground (arith, text_beq→eq s t)

pub text_beq_refl : (s : Text) → text_beq s s ≡ true
unfolding text_beq
text_beq_refl [] = refl
text_beq_refl (c ∷ s) = ground (arith, text_beq_refl s, eqb_refl c)

pub text_ne : (s t : Text) → text_beq s t ≡ false → ¬ (s ≡ t)
text_ne s t h e = cc (text_beq_refl s)

text_dec_by : (s t : Text) → Dec (text_beq s t ≡ true) → Dec (s ≡ t)
text_dec_by s t (yes p) = yes (text_beq→eq s t p)
text_dec_by s t (no n) = no (λ e. n (cc (text_beq_refl s)))

instance unfoldable pub text_eq : Eq Text
unfolding text_beq text_dec_by
text_eq = record { dec = λ s t. text_dec_by s t (Bool-discrete (text_beq s t) true) }

-- `s.startswith(t)`
abbrev pub starts_with : Text → Text → Bool
starts_with s [] = true
starts_with [] (d ∷ t) = false
starts_with (c ∷ s) (d ∷ t) = eqb c d && starts_with s t

module _ (sep : ℕ) where
  -- `s.split(sep)`, with what is read of the current piece
  unfoldable pub split_from : Text → Text → List Text
  split_from cur [] = cur ∷ []
  split_from cur (c ∷ s) =
      let cut = cur ∷ split_from [] s in
      let more = split_from (cur ++ c ∷ []) s in if eqb c sep then cut else more

  -- `s.split(sep)`
  unfoldable pub split : Text → List Text
  unfolding split_from
  split s = split_from [] s

  -- `sep.join(parts)`
  unfoldable pub join : List Text → Text
  join [] = []
  join (p ∷ []) = p
  join (p ∷ q ∷ ps) = p ++ sep ∷ join (q ∷ ps)
