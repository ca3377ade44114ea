-- ===== src/Advisory/Evaluator/Firing.antt =====
-- Which targets a rule fires on, by a description that reads every clause and every operator.
use project008_soundtech_ass.Prelude.{
  ℕ, suc, ◌≡◌, refl, sym, ap, ◌∙◌, Bool, true, false, ◌&&◌, ◌||◌, not, Option, none, some, List, [],
  ◌∷◌, ◌++◌, if◌then◌else◌, map, map-append, filter_by, arith, Option-cases, inl, inr,
}
use project008_soundtech_ass.Prelude.Text.{Text}
use project008_soundtech_ass.Prelude.Dict.{Dict}
use project008_soundtech_ass.Advisory.Predicates.{
  Values, Expected, plain, operators, operator_holds, matches_all, matches, all_match,
}
use project008_soundtech_ass.Advisory.Evaluator.{
  Rule, Target, Finding, Reading, matched_clause, finding, fire_clause, evaluate_target,
  evaluate_targets,
}

-- An operator that raises does not hold.
abbrev pub settled : Option Bool → Bool
settled none = false
settled (some b) = b

-- The step of a loop that stops at the first failure.
stop_step :
    (o later : Option Bool) (x y : Bool) {b : Bool}
    → ((c : Bool) → o ≡ some c → c ≡ y)
    → ((c : Bool) → later ≡ some c → c ≡ x)
    → (elim o [ none ↦ none | some true ↦ later | some false ↦ some false ]) ≡ some b
    → b ≡ (y && x)
stop_step none later x y g f h = cc
stop_step (some true) later x y {b} g f h = ground (arith, f b h, g true refl)
stop_step (some false) later x y g f h = ground (arith, g false refl)

settled-some : (o : Option Bool) (c : Bool) → o ≡ some c → c ≡ settled o
settled-some o c h = ap settled (sym h)

module _ {V : Type 0} (P : Values V) where
  unfoldable pub holds_operators : V → Dict Text V → Bool
  unfolding operator_holds
  holds_operators v [] = true
  holds_operators v ((op, operand) ∷ more) =
      settled (operator_holds P op operand v) && holds_operators v more

  unfoldable pub holds : V → Expected V → Bool
  unfolding holds_operators
  holds v (plain e) = P.equal v e
  holds v (operators ops) = holds_operators v ops

  -- every path of a clause holds
  unfoldable pub holds_clause : (Text → V) → Dict Text (Expected V) → Bool
  unfolding holds
  holds_clause r [] = true
  holds_clause r ((path, e) ∷ more) = holds (r path) e && holds_clause r more

  matches_all-holds :
      (v : V) (ops : Dict Text V) {b : Bool}
      → matches_all P v ops ≡ some b
      → b ≡ holds_operators v ops
  unfolding matches_all holds_operators
  matches_all-holds v [] h = ground arith
  matches_all-holds v ((op, x) ∷ more) h =
      stop_step (operator_holds P op x v) (matches_all P v more) (holds_operators v more)
        (settled (operator_holds P op x v)) (settled-some (operator_holds P op x v))
        (λ c k. matches_all-holds v more k) h

  matches-holds : (v : V) (e : Expected V) {b : Bool} → matches P v e ≡ some b → b ≡ holds v e
  unfolding matches holds
  matches-holds v (plain e) h = ground arith
  matches-holds v (operators ops) h = matches_all-holds v ops h

  pub all_match-holds :
      (r : Text → V) (w : Dict Text (Expected V)) {b : Bool}
      → all_match P r w ≡ some b
      → b ≡ holds_clause r w
  unfolding all_match holds_clause
  all_match-holds r [] h = ground arith
  all_match-holds r ((path, e) ∷ more) h =
      stop_step (matches P (r path) e) (all_match P r more) (holds_clause r more) (holds (r path) e)
        (λ c k. matches-holds (r path) e k) (λ c k. all_match-holds r more k) h

module _ {V X C : Type 0} (R : Reading V X C) where
  unfoldable pub holds_some : X → List (Dict Text (Expected V)) → Bool
  unfolding holds_clause
  holds_some x [] = false
  holds_some x (c ∷ cs) = holds_clause R.values (R.resolve x) c || holds_some x cs

  -- The target is classified well enough, its `where` holds, and a clause of `any_of` does if any.
  unfoldable pub fires : Rule V → Target X C → Bool
  unfolding holds_clause holds_some
  fires rule t =
      (not rule.requires_classifier || R.usable t.confidence)
      && holds_clause R.values (R.resolve t.context) rule.«where»
      && (elim rule.any_of [ [] ↦ true | (c ∷ cs) ↦ holds_some t.context (c ∷ cs) ])

  matched_clause-holds_some :
      (x : X) (i : ℕ) (cs : List (Dict Text (Expected V))) {m : Option ℕ}
      → matched_clause R x i cs ≡ some m
      → holds_some x cs ≡ (elim m [ none ↦ false | some _ ↦ true ])
  unfolding matched_clause holds_some
  matched_clause-holds_some x i [] h = ground arith
  matched_clause-holds_some x i (c ∷ cs) {m} h =
      elim (Option-cases (all_match R.values (R.resolve x) c)) [
        | inl n ↦ ground arith
        | inr (true, k) ↦ ground (arith, all_match-holds R.values (R.resolve x) c k)
        | inr (false, k) ↦ ground (
          arith,
          all_match-holds R.values (R.resolve x) c k,
          matched_clause-holds_some x (suc i) cs {m = m},
        )
      ]

  abbrev names : List (Finding V C) → List Text
  names fs = map (λ f. f.target) fs

  abbrev told : Rule V → Target X C → List Text
  told rule t = if fires rule t then t.name ∷ [] else []

  fire_clause-names :
      (rule : Rule V) (t : Target X C) {fs : List (Finding V C)}
      → fire_clause R rule t ≡ some fs
      → names fs ≡ (
          if (elim rule.any_of [ [] ↦ true | (c ∷ cs) ↦ holds_some t.context (c ∷ cs) ])
          then t.name ∷ []
          else [])
  unfolding fire_clause finding
  fire_clause-names rule t {fs} h = by_clauses rule.any_of refl
    where
      by_clauses :
          (cs : List (Dict Text (Expected V)))
          → rule.any_of ≡ cs
          → names fs ≡ (
              if (elim rule.any_of [ [] ↦ true | (c ∷ cs) ↦ holds_some t.context (c ∷ cs) ])
              then t.name ∷ []
              else [])
      by_clauses [] e = ground arith
      by_clauses (c ∷ cs) e = elim (Option-cases (matched_clause R t.context 0 (c ∷ cs))) [
        | inl n ↦ ground arith
        | inr (m, k) ↦ ground (arith, matched_clause-holds_some t.context 0 (c ∷ cs) k)
      ]

  evaluate_target-names :
      (rule : Rule V) (t : Target X C) {fs : List (Finding V C)}
      → evaluate_target R rule t ≡ some fs
      → names fs ≡ told rule t
  unfolding evaluate_target fires
  evaluate_target-names rule t {fs} h =
      elim (Option-cases (all_match R.values (R.resolve t.context) rule.«where»)) [
        | inl n ↦ ground arith
        | inr (b, k) ↦ ground (
          arith,
          all_match-holds R.values (R.resolve t.context) rule.«where» k,
          fire_clause-names rule t {fs = fs},
        )
      ]

  -- When no predicate raises, the findings of a rule name exactly the targets it fires on, in order,
  -- each once.
  pub evaluate_targets-fires :
      (rule : Rule V) (ts : List (Target X C)) (fs : List (Finding V C))
      → evaluate_targets R rule ts ≡ some fs
      → map (λ f. f.target) fs ≡ map (λ t. t.name) (filter_by (fires rule) ts)
  unfolding evaluate_targets
  evaluate_targets-fires rule [] fs h = ground arith
  evaluate_targets-fires rule (t ∷ ts) fs h = elim (Option-cases (evaluate_target R rule t)) [
    | inl n ↦ ground arith
    | inr (gs, k) ↦ elim (Option-cases (evaluate_targets R rule ts)) [
      | inl n ↦ ground arith
      | inr (hs, j) ↦
          ap names (fs_eq gs hs k j)
          ∙ map-append (λ f. f.target) gs hs
          ∙ ground (arith, evaluate_target-names rule t k, evaluate_targets-fires rule ts hs j)
    ]
  ]
    where
      fs_eq :
          (gs hs : List (Finding V C))
          → evaluate_target R rule t ≡ some gs
          → evaluate_targets R rule ts ≡ some hs
          → fs ≡ gs ++ hs
      fs_eq gs hs k j = ground arith
