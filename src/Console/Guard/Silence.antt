-- ===== src/Console/Guard/Silence.antt =====
-- The guard gives up on a desk exactly when enough rounds in a row were silent.
use project008_soundtech_ass.Prelude.{
  ℕ, zero, suc, ◌+◌, ◌≡◌, refl, Bool, true, false, ◌||◌, ◌&&◌, List, [], ◌∷◌, ◌++◌, ◌≤◌, All, arith,
  eqb, ◌∙◌,
}
use project008_soundtech_ass.Console.Guard.{Round, desk_lost, RoundGuard, new_guard, rounds}

abbrev pub is_lost : {B : Type 0} → Round B → Bool
is_lost (desk_lost n) = true
is_lost _ = false

module _ {B : Type 0} (replies : B → ℕ) where
  -- The list begins with `n` silent rounds.
  abbrev pub silent_first : ℕ → List (Bool × ℕ × B) → Bool
  silent_first zero l = true
  silent_first (suc n) [] = false
  silent_first (suc n) ((_, _, b) ∷ l) = eqb (replies b) 0 && silent_first n l

  -- Somewhere `n` rounds in a row are silent.
  abbrev pub has_silence : ℕ → List (Bool × ℕ × B) → Bool
  has_silence n [] = silent_first n []
  has_silence n (x ∷ l) = silent_first n (x ∷ l) || has_silence n l

  silent_first-has_silence :
      (n : ℕ) (l : List (Bool × ℕ × B)) → silent_first n l ≡ true → has_silence n l ≡ true
  silent_first-has_silence n [] h = h
  silent_first-has_silence n (x ∷ l) h = ground arith

  silent_first_mono :
      (m n : ℕ) (l : List (Bool × ℕ × B))
      → m ≤ n
      → silent_first n l ≡ true
      → silent_first m l ≡ true
  silent_first_mono zero n l le h = refl
  silent_first_mono (suc m) zero l le h = absurd (omega arith)
  silent_first_mono (suc m) (suc n) [] le h = h
  silent_first_mono (suc m) (suc n) ((c, t, b) ∷ l) le h =
      ground (arith, silent_first_mono m n l (omega arith))

  abbrev reset : ℕ → B → RoundGuard → RoundGuard
  reset t b g = record g { reported = g.reported ++ ((replies b, t) ∷ []); silent_rounds = 0 }

  abbrev silent : ℕ → B → RoundGuard → RoundGuard
  silent t b g = record g {
    reported = g.reported ++ ((replies b, t) ∷ []);
    silent_rounds = suc g.silent_rounds;
  }

  rounds-silence :
      (l : List (Bool × ℕ × B)) (g : RoundGuard) (m n : ℕ)
      → g.silent_rounds + m ≡ n
      → g.lost_after ≡ suc n
      → All (λ x. x.0 ≡ false) l
      → is_lost (rounds replies l g).1 ≡ (silent_first (suc m) l || has_silence (suc n) l)
  unfolding rounds
  rounds-silence [] g m n e k u = refl
  rounds-silence ((c, t, b) ∷ l) g zero n e k u = ground (
    arith,
    rounds-silence l (reset t b g) n n (omega arith) k u.1,
    silent_first-has_silence (suc n) l,
  )
  rounds-silence ((c, t, b) ∷ l) g (suc m) n e k u = ground (
    arith,
    rounds-silence l (reset t b g) n n (omega arith) k u.1,
    silent_first-has_silence (suc n) l,
    silent_first_mono (suc m) n l (omega arith),
    rounds-silence l (silent t b g) m n (omega arith) k u.1,
  )

  -- A watch that nobody cancels loses the desk exactly when somewhere `lost_after` rounds in a row,
  -- at least one, were answered by no address.
  pub rounds-has_silence :
      (n : ℕ) (l : List (Bool × ℕ × B))
      → All (λ x. x.0 ≡ false) l
      → is_lost (rounds replies l (new_guard (suc n))).1 ≡ has_silence (suc n) l
  rounds-has_silence n l u = rounds-silence l (new_guard (suc n)) n n (omega arith) refl u ∙ absorb
    where
      absorb : (silent_first (suc n) l || has_silence (suc n) l) ≡ has_silence (suc n) l
      absorb = ground (arith, silent_first-has_silence (suc n) l)
