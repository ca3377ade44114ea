-- ===== src/Classifier/Matcher/Best.antt =====
-- The classification of a name is the best of the matches.
use project008_soundtech_ass.Prelude.{
  ℕ, ◌≡◌, ◌⊎◌, sym, refl, true, false, none, some, List, [], ◌∷◌, All, arith, Option-cases,
  Bool-cases, inl, inr,
}
use mathlib.Core.Path.{subst}
use project008_soundtech_ass.Prelude.Text.{Text}
use project008_soundtech_ass.Classifier.Matcher.{
  Classification, unknown, Pattern, outranks, candidate, better, best_from, classify_target,
  classify,
}

-- the classifications that the patterns offer
unfoldable pub offers : Text → List Pattern → List Classification
offers target [] = []
offers target (p ∷ ps) =
    let rest = offers target ps in
    elim (p.search target) [ none ↦ rest | some found ↦ candidate p found ∷ rest ]

-- none of them outranks a given one
abbrev pub IsBest : Classification → List Classification → Type 0
IsBest b cs = All (λ c. outranks c b ≡ false) cs

outranks_irrefl : (a : Classification) → outranks a a ≡ false
unfolding outranks
outranks_irrefl a = ground arith

outranks_trans :
    (a b c : Classification) → outranks a b ≡ false → outranks b c ≡ false → outranks a c ≡ false
unfolding outranks
outranks_trans a b c h k = ground arith

outranks_asym : (a b : Classification) → outranks a b ≡ true → outranks b a ≡ false
unfolding outranks
outranks_asym a b h = ground arith

IsBest-trans :
    (a b : Classification) (cs : List Classification)
    → outranks a b ≡ false
    → IsBest a cs
    → IsBest b cs
IsBest-trans a b [] h u = tt
IsBest-trans a b (c ∷ cs) h u = (outranks_trans c a b u.0 h, IsBest-trans a b cs h u.1)

-- The result of the loop, from a best so far: it is not outranked by that or by any offer.
best_from-IsBest :
    (target : Text) (b : Classification) (ps : List Pattern)
    → (c : Classification) × (best_from target (some b) ps ≡ some c)
      × IsBest c (b ∷ offers target ps)
unfolding best_from offers better
best_from-IsBest target b [] = (b, refl, (outranks_irrefl b, tt))
best_from-IsBest target b (p ∷ ps) = elim (Option-cases (p.search target)) [
  | inl n ↦ skip n (best_from-IsBest target b ps)
  | inr (found, k) ↦ elim (Bool-cases (outranks (candidate p found) b)) [
    | inl y ↦ take_new found k y (best_from-IsBest target (candidate p found) ps)
    | inr y ↦ keep_old found k y (best_from-IsBest target b ps)
  ]
]
  where
    Goal : Type 0
    Goal =
        (c : Classification) × (best_from target (some b) (p ∷ ps) ≡ some c)
        × IsBest c (b ∷ offers target (p ∷ ps))

    Known : Classification → Type 0
    Known a =
        (c : Classification) × (best_from target (some a) ps ≡ some c)
        × IsBest c (a ∷ offers target ps)

    skip : p.search target ≡ none → Known b → Goal
    skip n (c, e, u) = (c, ground arith, ground arith)

    take_new :
        (found : Text)
        → p.search target ≡ some found
        → outranks (candidate p found) b ≡ true
        → Known (candidate p found)
        → Goal
    take_new found k y (c, e, u) = (
      c,
      ground arith,
      ground (arith, outranks_trans b (candidate p found) c, outranks_asym (candidate p found) b y),
    )

    keep_old :
        (found : Text)
        → p.search target ≡ some found
        → outranks (candidate p found) b ≡ false
        → Known b
        → Goal
    keep_old found k y (c, e, u) =
        (c, ground arith, ground (arith, outranks_trans (candidate p found) b c))

-- The same from no best so far, where no match leaves the unknown classification.
best_from-none :
    (target : Text) (ps : List Pattern)
    → IsBest (elim (best_from target none ps) [ none ↦ unknown | some b ↦ b ]) (offers target ps)
unfolding best_from offers better
best_from-none target [] = tt
best_from-none target (p ∷ ps) = elim (Option-cases (p.search target)) [
  | inl n ↦ ground (arith, best_from-none target ps)
  | inr (found, k) ↦ first_match found k (best_from-IsBest target (candidate p found) ps)
]
  where
    first_match :
        (found : Text)
        → p.search target ≡ some found
        → (c : Classification) × (best_from target (some (candidate p found)) ps ≡ some c)
          × IsBest c (candidate p found ∷ offers target ps)
        → IsBest
            (elim (best_from target none (p ∷ ps)) [ none ↦ unknown | some b ↦ b ])
            (offers target (p ∷ ps))
    first_match found k (c, e, u) = ground arith

-- it is one of them
abbrev pub IsAmong : Classification → List Classification → Type 0
IsAmong c [] = ⊥
IsAmong c (x ∷ xs) = (c ≡ x) ⊎ IsAmong c xs

best_from-IsAmong :
    (target : Text) (b : Classification) (ps : List Pattern) (c : Classification)
    → best_from target (some b) ps ≡ some c
    → IsAmong c (b ∷ offers target ps)
unfolding best_from offers better
best_from-IsAmong target b [] c h = inl (ground arith)
best_from-IsAmong target b (p ∷ ps) c h = elim (Option-cases (p.search target)) [
  | inl n ↦ ground (arith, best_from-IsAmong target b ps c)
  | inr (found, k) ↦
      ground
        (arith, best_from-IsAmong target b ps c, best_from-IsAmong target (candidate p found) ps c)
]

best_from-IsAmong-none :
    (target : Text) (ps : List Pattern)
    → IsAmong
        (elim (best_from target none ps) [ none ↦ unknown | some b ↦ b ])
        (unknown ∷ offers target ps)
unfolding best_from offers better
best_from-IsAmong-none target [] = inl refl
best_from-IsAmong-none target (p ∷ ps) = elim (Option-cases (p.search target)) [
  | inl n ↦ ground (arith, best_from-IsAmong-none target ps)
  | inr (found, k) ↦ elim (Option-cases (best_from target (some (candidate p found)) ps)) [
    | inl n ↦ ground arith
    | inr (c, e) ↦ ground (arith, best_from-IsAmong target (candidate p found) ps c e)
  ]
]

-- The classification of a name that is not blank is that of a pattern's match or the unknown one, and no
-- pattern's match outranks it.
pub classify-IsBest :
    (clean : Text → Text) (name : Text) (x : ℕ) (t : Text) (ps : List Pattern)
    → clean name ≡ x ∷ t
    → IsAmong (classify clean name ps) (unknown ∷ offers (clean name) ps)
      × IsBest (classify clean name ps) (offers (clean name) ps)
unfolding classify classify_target
classify-IsBest clean name x t ps h =
    subst
      (λ target.
        IsAmong (classify_target target ps) (unknown ∷ offers target ps)
        × IsBest (classify_target target ps) (offers target ps))
      (sym h) (best_from-IsAmong-none (x ∷ t) ps, best_from-none (x ∷ t) ps)
