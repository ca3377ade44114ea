-- ===== src/Net/Watch/Chain.antt =====
-- The changes at one address tell its whole history.
use project008_soundtech_ass.Prelude.{
  ℕ, suc, ◌-◌, ◌≡◌, refl, Bool, true, false, ◌&&◌, Option, none, some, List, [], ◌∷◌, ◌++◌, Eq,
  ◌==◌, ==→eq, contains, distinct, ltb, if◌then◌else◌, arith, filter_by, Bool-cases, Option-cases,
  inl, inr, append-nil,
}
use project008_soundtech_ass.Prelude.Text.{Text, text_eq}
use project008_soundtech_ass.Prelude.Text.Split.{Lacks}
use project008_soundtech_ass.Prelude.Dict.{
  Dict, keys, lookup, insert, update, distinct-insert, lookup-update,
}
use project008_soundtech_ass.Net.Address.{slash}
use project008_soundtech_ass.Net.Watch.{
  Change, Session, Round, last_cut, split_address, sample_from, sample, changes, watch_rounds,
  watch, enough_rounds, enough_time,
}

distinct-sample_from :
    {M V : Type 0} (leaf_value : M → Option V) (values : Dict Text V) (replies : Dict Text M)
    → distinct (keys values) ≡ true
    → distinct (keys (sample_from leaf_value values replies)) ≡ true
unfolding sample_from
distinct-sample_from leaf_value values [] h = h
distinct-sample_from leaf_value values ((a, m) ∷ more) h = elim (Option-cases (leaf_value m)) [
  | inl n ↦ ground (arith, distinct-sample_from leaf_value values more h)
  | inr (v, k) ↦ ground (
    arith,
    distinct-sample_from leaf_value (insert a v values) more (distinct-insert a v values h),
  )
]

-- Each change starts where the one before it ended, the first at a given value, and is a change.
abbrev pub Chain : {V : Type 0} ⦃e : Eq V⦄ → V → List (Change V) → Type 0
Chain v [] = Unit
Chain v (c ∷ cs) = (c.before ≡ v) × ((c.before == c.after) ≡ false) × Chain c.after cs

abbrev pub at_address : {V : Type 0} → Text → List (Change V) → List (Change V)
at_address a cs = filter_by (λ c. c.address == a) cs

at_address-append :
    {V : Type 0} (a : Text) (cs ds : List (Change V))
    → at_address a (cs ++ ds) ≡ at_address a cs ++ at_address a ds
at_address-append a [] ds = refl
at_address-append a (c ∷ cs) ds = ground (arith, at_address-append a cs ds)

-- The ways that a round of the loop can go on.
round_cases :
    {V : Type 0} (P : List (Change V) → Type 0) (b c d : Bool) {xs ys : List (Change V)}
    → P []
    → P xs
    → P ys
    → P (if b then [] else if c then [] else if d then xs else ys)
round_cases P true c d n p q = n
round_cases P false true d n p q = n
round_cases P false false true n p q = p
round_cases P false false false n p q = q

module _ {V : Type 0} ⦃e : Eq V⦄ (S : Session) (a : Text) where
  -- the address is not in the rest of the sample
  changes-other :
      (labels : Dict Text Text) (started calls : ℕ) (previous current : Dict Text V)
      → contains (keys current) a ≡ false
      → at_address a (changes S labels started calls previous current).0 ≡ []
  unfolding changes
  changes-other labels started calls previous [] h = refl
  changes-other labels started calls previous ((b, v) ∷ more) h =
      elim (Option-cases (lookup b previous)) [
        | inl n ↦ ground (arith, changes-other labels started calls previous more)
        | inr (w, k) ↦ ground (
          arith,
          changes-other labels started calls previous more,
          changes-other labels started (suc calls) previous more,
        )
      ]

  -- the last known value after a sample
  abbrev known_after : V → Dict Text V → V
  known_after v current = elim (lookup a current) [ none ↦ v | some w ↦ w ]

  changes-Chain :
      (labels : Dict Text Text) (started calls : ℕ) (previous current : Dict Text V) (v : V)
      (later : List (Change V))
      → lookup a previous ≡ some v
      → distinct (keys current) ≡ true
      → Chain (known_after v current) later
      → Chain v (at_address a (changes S labels started calls previous current).0 ++ later)
  unfolding changes lookup
  changes-Chain labels started calls previous [] v later h d c = c
  changes-Chain labels started calls previous ((b, x) ∷ more) v later h d c =
      elim (Option-cases (lookup b previous)) [
        | inl n ↦ elim (Bool-cases (b == a)) [
          | inl y ↦ absurd (lookup_clash b y n)
          | inr y ↦ ground (arith, changes-Chain labels started calls previous more v later)
        ]
        | inr (w, k) ↦ elim (Bool-cases (b == a)) [
          | inl y ↦ ground (
            arith,
            changes-other labels started calls previous more,
            changes-other labels started (suc calls) previous more,
            ==→eq b a y,
            ==→eq w x,
          )
          | inr y ↦ ground (
            arith,
            changes-Chain labels started (suc calls) previous more v later,
            changes-Chain labels started calls previous more v later,
          )
        ]
      ]
    where
      lookup_clash : (b : Text) → (b == a) ≡ true → lookup b previous ≡ none → ⊥
      lookup_clash b y n = ground (arith, ==→eq b a y)

  changes-Chain_last :
      (labels : Dict Text Text) (started calls : ℕ) (previous current : Dict Text V) (v : V)
      → lookup a previous ≡ some v
      → distinct (keys current) ≡ true
      → Chain v (at_address a (changes S labels started calls previous current).0)
  changes-Chain_last labels started calls previous current v h d =
      rw append-nil at (changes-Chain labels started calls previous current v [] h d tt)

  known_after-update :
      (previous current : Dict Text V) (v : V)
      → lookup a previous ≡ some v
      → distinct (keys current) ≡ true
      → lookup a (update previous current) ≡ some (known_after v current)
  known_after-update previous current v h d = elim (Option-cases (lookup a current)) [
    | inl n ↦ ground (arith, lookup-update previous current a d)
    | inr (w, k) ↦ ground (arith, lookup-update previous current a d)
  ]

module _ {M V : Type 0} ⦃e : Eq V⦄ (leaf_value : M → Option V) (S : Session) (a : Text) where
  watch_rounds-Chain :
      (labels : Dict Text Text) (started rounds calls : ℕ) (previous : Dict Text V)
      (rs : List (Round M)) (v : V)
      → lookup a previous ≡ some v
      → Chain v (at_address a (watch_rounds leaf_value S labels started rounds calls previous rs))
  unfolding watch_rounds sample
  watch_rounds-Chain labels started rounds calls previous [] v h = tt
  watch_rounds-Chain labels started rounds calls previous (r ∷ more) v h =
      let now = S.clock calls in
      let current = sample leaf_value r.replies in
      let d = distinct-sample_from leaf_value [] r.replies refl in
      let round = changes S labels started (suc calls) previous current in
      let later =
        watch_rounds leaf_value S labels started (suc rounds) (suc round.1)
          (update previous current) more in
      round_cases (λ cs. Chain v (at_address a cs)) (enough_rounds S rounds)
        (enough_time S started now) (ltb (S.clock round.1 - now) S.interval && r.cancelled) tt
        (changes-Chain_last S a labels started (suc calls) previous current v h d)
        (rw (at_address-append a round.0 later) (
          changes-Chain S a labels started (suc calls) previous current v (at_address a later) h d (
            watch_rounds-Chain labels started (suc rounds) (suc round.1) (update previous current)
              more (known_after S a v current) (known_after-update S a previous current v h d))))

  -- At an address that the first round read, each change begins with the last value known, the first
  -- change with that of the first round, and ends with another value.
  pub watch-Chain :
      (labels : Dict Text Text) (first : Dict Text M) (rs : List (Round M)) (v : V)
      → lookup a (sample leaf_value first) ≡ some v
      → Chain v (at_address a (watch leaf_value S labels first rs))
  unfolding watch
  watch-Chain labels first rs v h =
      watch_rounds-Chain labels (S.clock 0) 0 1 (sample leaf_value first) rs v h

last_cut-none : (key : Text) → Lacks slash key → last_cut key ≡ none
unfolding last_cut
last_cut-none [] u = refl
last_cut-none (c ∷ key) u = ground (arith, last_cut-none key u.1, u.0)

last_cut-join :
    (strip key : Text) → Lacks slash key → last_cut (strip ++ slash ∷ key) ≡ some (strip, key)
unfolding last_cut
last_cut-join [] [] u = refl
last_cut-join [] (c ∷ key) u = ground (arith, last_cut-none key u.1, u.0)
last_cut-join (c ∷ strip) key u = ground (arith, last_cut-join strip key u)

-- A strip and a key without a slash are read back from the address that joins them.
split_address-join :
    (strip key : Text) → Lacks slash key → split_address (strip ++ slash ∷ key) ≡ (strip, key)
unfolding split_address
split_address-join strip key u = ground (arith, last_cut-join strip key u)
