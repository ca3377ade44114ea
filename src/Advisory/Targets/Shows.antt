-- ===== src/Advisory/Targets/Shows.antt =====
-- Without a show context, the rules about the show find nothing.
use project008_soundtech_ass.Prelude.{
  ◌≡◌, refl, ap, ◌∙◌, Bool, true, false, ◌||◌, not, Option, some, List, [], ◌∷◌, ◌==◌, ==→eq, ◌⊎◌,
  ℕ, arith, filter_by, Bool-cases, Option-cases, inl, inr,
}
use project008_soundtech_ass.Prelude.Text.{Text, codes, text_eq}
use project008_soundtech_ass.Advisory.Evaluator.{
  Rule, Target, Reading, evaluate_targets, evaluate, evaluate_all,
}
use project008_soundtech_ass.Advisory.Targets.{Scene, Context, targets_for}

-- the iterators that range over the show, or over nothing
unfoldable pub on_show : Text → Bool
on_show f = f == codes "cue" || f == codes "segment" || f == codes "expects" || f == codes "none"

or_rest :
    (a b c : Bool) {d : Bool}
    → a ≡ false
    → b ≡ false
    → c ≡ false
    → (a || b || c || d) ≡ true
    → d ≡ true
or_rest a b c n m k h = ground arith

module _ {V X C : Type 0} (R : Reading V X C) (targets : Text → Option (List (Target X C))) where
  evaluate_all-skip :
      (r : Rule V) (rules : List (Rule V))
      → targets r.for_each ≡ some []
      → evaluate_all R targets (r ∷ rules) ≡ evaluate_all R targets rules
  unfolding evaluate_all evaluate evaluate_targets
  evaluate_all-skip r rules h = elim (Option-cases (evaluate_all R targets rules)) [
    | inl n ↦ ground arith
    | inr (fs, k) ↦ ground arith
  ]

  evaluate_all-cons :
      (r : Rule V) (rules rest : List (Rule V))
      → evaluate_all R targets rules ≡ evaluate_all R targets rest
      → evaluate_all R targets (r ∷ rules) ≡ evaluate_all R targets (r ∷ rest)
  unfolding evaluate_all
  evaluate_all-cons r rules rest h = ground arith

  -- rules without targets can be left out
  evaluate_all-filter_by :
      (p : Text → Bool) (rules : List (Rule V))
      → ((f : Text) → p f ≡ true → targets f ≡ some [])
      → evaluate_all R targets rules
        ≡ evaluate_all R targets (filter_by (λ r. not (p r.for_each)) rules)
  evaluate_all-filter_by p [] g = refl
  evaluate_all-filter_by p (r ∷ rules) g = elim (Bool-cases (p r.for_each)) [
    | inl y ↦
        evaluate_all-skip r rules (g r.for_each y)
        ∙ evaluate_all-filter_by p rules g
        ∙ ap (evaluate_all R targets) (left_out y)
    | inr n ↦
        evaluate_all-cons r rules (filter_by (λ r. not (p r.for_each)) rules)
          (evaluate_all-filter_by p rules g)
        ∙ ap (evaluate_all R targets) (kept n)
  ]
    where
      left_out :
          p r.for_each ≡ true
          → filter_by (λ r. not (p r.for_each)) rules
            ≡ filter_by (λ r. not (p r.for_each)) (r ∷ rules)
      left_out y = ground arith

      kept :
          p r.for_each ≡ false
          → r ∷ filter_by (λ r. not (p r.for_each)) rules
            ≡ filter_by (λ r. not (p r.for_each)) (r ∷ rules)
      kept n = ground arith

abbrev pub without_show : {C : Type 0} → Scene C → Scene C
without_show scene = record scene { segments = []; expectations = [] }

module _ {V C : Type 0} (R : Reading V (Context C) C) («zero» : C) (show : ℕ → Text) where
  -- the targets of such a rule
  unfoldable NoTargets : Scene C → Text → Type 0
  NoTargets scene f = targets_for «zero» R.full show (without_show scene) f ≡ some []

  NoTargets-cue : (scene : Scene C) → NoTargets scene (codes "cue")
  unfolding targets_for text_eq NoTargets
  NoTargets-cue scene = refl

  NoTargets-segment : (scene : Scene C) → NoTargets scene (codes "segment")
  unfolding targets_for text_eq NoTargets
  NoTargets-segment scene = refl

  NoTargets-expects : (scene : Scene C) → NoTargets scene (codes "expects")
  unfolding targets_for text_eq NoTargets
  NoTargets-expects scene = refl

  NoTargets-none : (scene : Scene C) → NoTargets scene (codes "none")
  unfolding targets_for text_eq NoTargets
  NoTargets-none scene = refl

  on_show-cases :
      (f : Text)
      → on_show f ≡ true
      → (f ≡ codes "cue") ⊎ (f ≡ codes "segment") ⊎ (f ≡ codes "expects") ⊎ (f ≡ codes "none")
  unfolding on_show
  on_show-cases f h = elim (Bool-cases (f == codes "cue")) [
    | inl y ↦ inl (==→eq f (codes "cue") y)
    | inr n ↦ elim (Bool-cases (f == codes "segment")) [
      | inl y ↦ inr (inl (==→eq f (codes "segment") y))
      | inr m ↦ elim (Bool-cases (f == codes "expects")) [
        | inl y ↦ inr (inr (inl (==→eq f (codes "expects") y)))
        | inr k ↦ inr (inr (inr (==→eq f (codes "none") (rest n m k))))
      ]
    ]
  ]
    where
      rest :
          (f == codes "cue") ≡ false
          → (f == codes "segment") ≡ false
          → (f == codes "expects") ≡ false
          → (f == codes "none") ≡ true
      rest n m k = or_rest (f == codes "cue") (f == codes "segment") (f == codes "expects") n m k h

  on_show-NoTargets : (scene : Scene C) (f : Text) → on_show f ≡ true → NoTargets scene f
  on_show-NoTargets scene f h = elim (on_show-cases f h) [
    | inl e ↦ rw e (NoTargets-cue scene)
    | inr (inl e) ↦ rw e (NoTargets-segment scene)
    | inr (inr (inl e)) ↦ rw e (NoTargets-expects scene)
    | inr (inr (inr e)) ↦ rw e (NoTargets-none scene)
  ]

  -- Without a show context, taking the rules about cues, segments, expectations or nothing out of a list
  -- leaves its findings as they are.
  evaluate_all-without_show :
      (scene : Scene C) (rules : List (Rule V))
      → evaluate_all R (targets_for «zero» R.full show (without_show scene)) rules
        ≡ evaluate_all R
            (targets_for «zero» R.full show (without_show scene))
            (filter_by (λ r. not (on_show r.for_each)) rules)
  unfolding NoTargets
  evaluate_all-without_show scene rules =
      evaluate_all-filter_by R (targets_for «zero» R.full show (without_show scene)) on_show rules
        (on_show-NoTargets scene)
