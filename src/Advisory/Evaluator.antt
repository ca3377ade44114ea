-- ===== src/Advisory/Evaluator.antt =====
-- wing_parser/advisory/evaluator.py: one rule over the targets of a scene. The record types are those
-- of wing_parser/advisory/models.py, without the `title`, `source` and `rationale` of a rule, which no
-- code of the evaluation reads.
pub mod Firing
use project008_soundtech_ass.Prelude.{
  ℕ, zero, suc, ◌+◌, Bool, true, false, ◌&&◌, not, Option, none, some, List, [], ◌∷◌, ◌++◌,
  if◌then◌else◌, map,
}
use project008_soundtech_ass.Prelude.Text.{Text, codes, text_eq}
use project008_soundtech_ass.Prelude.Dict.{Dict, keys, insert, update}
use project008_soundtech_ass.Advisory.Predicates.{Values, Expected, all_match}

pub record Rule (V : Type 0) : Type 0 where
  pub id : Text
  pub severity : Text
  pub for_each : Text
  pub «where» : Dict Text (Expected V)
  pub message : Text
  pub layer : Text
  pub requires_classifier : Bool
  pub enabled : Bool
  pub hardness : Text
  pub event : Text
  pub applies_when : Dict Text V
  pub any_of : List (Dict Text (Expected V))
  pub supersedes : List Text

-- `X` is the type of the contexts and `C` that of the confidences.
pub record Target (X C : Type 0) : Type 0 where
  pub name : Text
  pub context : X
  pub confidence : C

-- A value under `evidence`: one that a path resolved to, or the index under `_any_of`.
pub data Evidence (V : Type 0) : Type 0 where
  resolved : V → Evidence V
  clause : ℕ → Evidence V

pub record Finding (V C : Type 0) : Type 0 where
  pub rule_id : Text
  pub layer : Text
  pub severity : Text
  pub target : Text
  pub message : Text
  pub evidence : Dict Text (Evidence V)
  pub confidence : C

-- What the evaluation uses of its context: `resolve_path`, `render`, whether a confidence is at least
-- `LOW`, and the confidence 1.0.
pub record Reading (V X C : Type 0) : Type 0 where
  pub values : Values V
  pub resolve : X → Text → V
  pub render : Text → X → Text
  pub usable : C → Bool
  pub full : C

module _ {V X C : Type 0} (R : Reading V X C) where
  -- `_matched_clause` from a given index; the outer `none` is what a predicate raises.
  unfoldable pub matched_clause : X → ℕ → List (Dict Text (Expected V)) → Option (Option ℕ)
  unfolding all_match
  matched_clause x index [] = some none
  matched_clause x index (c ∷ more) =
      let later = matched_clause x (suc index) more in
      elim (all_match R.values (R.resolve x) c) [
        | none ↦ none
        | some true ↦ some (some index)
        | some false ↦ later
      ]

  -- `{path: resolve_path(context, path) for path in paths}`
  unfoldable pub read_paths : X → List Text → Dict Text (Evidence V)
  read_paths x [] = []
  read_paths x (path ∷ more) = (path, resolved (R.resolve x path)) ∷ read_paths x more

  -- `clauses[index]`, for an index that is there
  unfoldable pub nth : ℕ → List (Dict Text (Expected V)) → Dict Text (Expected V)
  nth n [] = []
  nth zero (c ∷ cs) = c
  nth (suc n) (c ∷ cs) = nth n cs

  unfoldable pub evidence_of : Rule V → X → Option ℕ → Dict Text (Evidence V)
  unfolding read_paths nth
  evidence_of rule x none = read_paths x (keys rule.«where»)
  evidence_of rule x (some i) =
      insert (codes "_any_of") (clause i)
        (update (read_paths x (keys rule.«where»)) (read_paths x (keys (nth i rule.any_of))))

  unfoldable pub finding : Rule V → Target X C → Option ℕ → Finding V C
  unfolding evidence_of
  finding rule t matched = record {
    rule_id = rule.id;
    layer = rule.layer;
    severity = rule.severity;
    target = t.name;
    message = R.render rule.message t.context;
    evidence = evidence_of rule t.context matched;
    confidence = if rule.requires_classifier then t.confidence else R.full;
  }

  -- The part of the loop body after `where` has matched.
  unfoldable pub fire_clause : Rule V → Target X C → Option (List (Finding V C))
  unfolding matched_clause finding
  fire_clause rule t = elim rule.any_of [
    | [] ↦ some (finding rule t none ∷ [])
    | (c ∷ cs) ↦ elim (matched_clause t.context 0 (c ∷ cs)) [
      | none ↦ none
      | some none ↦ some []
      | some (some i) ↦ some (finding rule t (some i) ∷ [])
    ]
  ]

  -- The loop body: what one target adds, none for what a predicate raises.
  unfoldable pub evaluate_target : Rule V → Target X C → Option (List (Finding V C))
  unfolding all_match fire_clause
  evaluate_target rule t =
      if rule.requires_classifier && not (R.usable t.confidence)
      then some []
      else (elim (all_match R.values (R.resolve t.context) rule.«where») [
        | none ↦ none
        | some false ↦ some []
        | some true ↦ fire_clause rule t
      ])

  unfoldable pub evaluate_targets : Rule V → List (Target X C) → Option (List (Finding V C))
  unfolding evaluate_target
  evaluate_targets rule [] = some []
  evaluate_targets rule (t ∷ ts) =
      let later = evaluate_targets rule ts in
      elim (evaluate_target rule t) [
        | none ↦ none
        | some fs ↦ elim later [ none ↦ none | some gs ↦ some (fs ++ gs) ]
      ]

  -- `targets` is `targets_for` at the scene, none for its `KeyError`.
  module _ (targets : Text → Option (List (Target X C))) where
    unfoldable pub evaluate : Rule V → Option (List (Finding V C))
    unfolding evaluate_targets
    evaluate rule =
        if rule.enabled
        then (elim (targets rule.for_each) [ none ↦ none | some ts ↦ evaluate_targets rule ts ])
        else some []

    unfoldable pub evaluate_all : List (Rule V) → Option (List (Finding V C))
    unfolding evaluate
    evaluate_all [] = some []
    evaluate_all (rule ∷ rules) =
        let later = evaluate_all rules in
        elim (evaluate rule) [
          | none ↦ none
          | some fs ↦ elim later [ none ↦ none | some gs ↦ some (fs ++ gs) ]
        ]
