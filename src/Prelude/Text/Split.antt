-- ===== src/Prelude/Text/Split.antt =====
-- `split` and `join` undo one another.
use Prim.Native.Nat.{ℕ}
use mathlib.Core.Path.{◌≡◌, ap, ◌∙◌}
use mathlib.Core.Bool.{false}
use mathlib.Core.List.{List, [], ◌∷◌, ◌++◌, append-nil, append_assoc}
use native.Mathlib.Omega.{arith}
use project008_soundtech_ass.Prelude.Tests.{eqb, eqb_refl}
use project008_soundtech_ass.Prelude.Lists.{All}
use project008_soundtech_ass.Prelude.Text.{Text, split_from, split, join}

-- No character of the text is `sep`.
abbrev pub Lacks : ℕ → Text → Type 0
Lacks sep = All (λ c. eqb c sep ≡ false)

module _ (sep : ℕ) where
  split_from-piece :
      (cur p rest : Text)
      → Lacks sep p
      → split_from sep cur (p ++ (sep ∷ rest)) ≡ (cur ++ p) ∷ split_from sep [] rest
  unfolding split_from
  split_from-piece cur [] rest h = simp append-nil (ground (arith, eqb_refl sep))
  split_from-piece cur (c ∷ p) rest h =
      rw h.0 (split_from-piece (cur ++ c ∷ []) p rest h.1 ∙ rw append_assoc)

  split_from-last : (cur p : Text) → Lacks sep p → split_from sep cur p ≡ (cur ++ p) ∷ []
  unfolding split_from
  split_from-last cur [] h = rw append-nil
  split_from-last cur (c ∷ p) h = rw h.0 (split_from-last (cur ++ c ∷ []) p h.1 ∙ rw append_assoc)

  -- Pieces without the separator are found again.
  pub split-join :
      (p : Text) (ps : List Text)
      → Lacks sep p
      → All (Lacks sep) ps
      → split sep (join sep (p ∷ ps)) ≡ p ∷ ps
  unfolding split join
  split-join p [] h hs = split_from-last [] p h
  split-join p (q ∷ qs) h hs =
      split_from-piece [] p (join sep (q ∷ qs)) h ∙ ap (λ ys. p ∷ ys) (split-join q qs hs.0 hs.1)
