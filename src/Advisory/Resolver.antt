-- ===== src/Advisory/Resolver.antt =====
-- wing_parser/advisory/resolver.py: which rules are active. Reading the rule files and the conditions of
-- a scene are parameters.
pub mod Active
use project008_soundtech_ass.Prelude.{
  Bool, true, false, ◌&&◌, ◌||◌, not, Option, none, some, List, [], ◌∷◌, ◌++◌, ◌==◌, contains,
  if◌then◌else◌, map, filter_by, Result, ok, err, ◌>>=◌,
}
use project008_soundtech_ass.Prelude.Text.{Text, codes, text_eq}
use project008_soundtech_ass.Prelude.Dict.{Dict, keys, insert}
use project008_soundtech_ass.Advisory.Evaluator.{Rule, Target, Finding, Reading, evaluate_all}

pub data RuleError : Type 0 where
  unknown_condition : Text → Text → RuleError
  supersedes_higher : Text → Text → RuleError
  supersedes_unknown : Text → Text → RuleError
  evaluation : RuleError

-- The inner loop over the `supersedes` of one rule.
unfoldable pub check_supersedes :
    List Text → List Text → Text → List Text → Result RuleError (Unit {0})
check_supersedes base_ids higher_ids id [] = ok tt
check_supersedes base_ids higher_ids id (target ∷ more) =
    let later = check_supersedes base_ids higher_ids id more in
    if contains base_ids target
    then later
    else if contains higher_ids target
    then err (supersedes_higher id target)
    else err (supersedes_unknown id target)

-- `{rule_id: r.id for r in higher for rule_id in r.supersedes}`
unfoldable pub note_superseded : Text → List Text → Dict Text Text → Dict Text Text
note_superseded id [] d = d
note_superseded id (target ∷ more) d = note_superseded id more (insert target id d)

module _ {V : Type 0} where
  unfoldable pub check_all : List Text → List Text → List (Rule V) → Result RuleError (Unit {0})
  unfolding check_supersedes
  check_all base_ids higher_ids [] = ok tt
  check_all base_ids higher_ids (rule ∷ rules) =
      check_supersedes base_ids higher_ids rule.id rule.supersedes >>= λ _.
      check_all base_ids higher_ids rules

  abbrev pub ids : List (Rule V) → List Text
  ids rules = map (λ r. r.id) rules

  -- the ids that any of the rules supersedes
  unfoldable pub superseded : List (Rule V) → List Text
  superseded [] = []
  superseded (rule ∷ rules) = rule.supersedes ++ superseded rules

  -- `event in ("universal", declared)`
  unfoldable pub is_wanted : Text → Rule V → Bool
  is_wanted declared rule = rule.event == codes "universal" || rule.event == declared

  unfoldable pub on_event : Option Text → Rule V → Bool
  on_event none rule = true
  on_event (some event) rule = is_wanted event rule

  unfoldable pub note_all : List (Rule V) → Dict Text Text → Dict Text Text
  unfolding note_superseded
  note_all [] d = d
  note_all (rule ∷ rules) d = note_all rules (note_superseded rule.id rule.supersedes d)

  unfoldable pub note_events : Text → List (Rule V) → Dict Text Text → Dict Text Text
  note_events event [] d = d
  note_events event (rule ∷ rules) d =
      let with_rule = note_events event rules (insert rule.id rule.event d) in
      let without = note_events event rules d in if is_wanted event rule then without else with_rule

  -- `declared` is the event of the profile.
  unfoldable pub off_event_ids : Option Text → List (Rule V) → Dict Text Text
  unfolding note_events
  off_event_ids none base = []
  off_event_ids (some event) base = note_events event base []

  -- `suppressed` are the ids that active rules supersede.
  unfoldable pub kept : List Text → Option Text → List (Rule V) → List (Rule V)
  unfolding on_event
  kept suppressed declared base =
      filter_by (on_event declared) (filter_by (λ r. not (contains suppressed r.id)) base)

module _ {V : Type 0} (equal : V → V → Bool) (conditions : Text → Option V) where
  -- `conditions` is `CONDITIONS` with each probe run at the scene.
  unfoldable pub condition_holds : Dict Text V → Bool
  condition_holds [] = true
  condition_holds ((name, expected) ∷ more) =
      let later = condition_holds more in
      elim (conditions name) [
        | none ↦ false
        | some value ↦ if equal value expected then later else false
      ]

  unfoldable pub is_active : Rule V → Bool
  unfolding condition_holds
  is_active rule =
      if not rule.enabled
      then false
      else if rule.hardness == codes "flexible"
      then condition_holds rule.applies_when
      else true

  unfoldable pub validate_keys : Text → List Text → Result RuleError (Unit {0})
  validate_keys id [] = ok tt
  validate_keys id (key ∷ more) =
      let later = validate_keys id more in
      elim (conditions key) [ none ↦ err (unknown_condition id key) | some _ ↦ later ]

  unfoldable pub validate_applies_when : Rule V → Result RuleError (Unit {0})
  unfolding validate_keys
  validate_applies_when rule =
      if rule.hardness == codes "flexible"
      then validate_keys rule.id (keys rule.applies_when)
      else ok tt

  unfoldable pub validate_all : List (Rule V) → Result RuleError (Unit {0})
  unfolding validate_applies_when
  validate_all [] = ok tt
  validate_all (rule ∷ rules) = validate_applies_when rule >>= λ _. validate_all rules

  -- `candidates` are the rules of the principles and of the show, `base` the base rules.
  unfoldable pub higher : List (Rule V) → List (Rule V)
  unfolding is_active
  higher candidates = filter_by is_active candidates

  unfoldable pub active_rules :
      List (Rule V) → List (Rule V) → Option Text → Result RuleError (List (Rule V))
  unfolding validate_all check_all higher kept
  active_rules candidates base declared =
      let over = higher candidates in
      validate_all candidates >>= λ _. check_all (ids base) (ids over) over >>= λ _.
      ok (kept (superseded over) declared base ++ over)

  unfoldable pub suppressed_ids : List (Rule V) → Dict Text Text
  unfolding note_all higher
  suppressed_ids candidates = note_all (higher candidates) []

  module _ (candidates base : List (Rule V)) (declared : Option Text) {X C : Type 0}
      (R : Reading V X C) (targets : Text → Option (List (Target X C))) where
    unfoldable pub run : Result RuleError (List (Finding V C))
    unfolding active_rules
    run = active_rules candidates base declared >>= λ rules. (elim (evaluate_all R targets rules) [
      | none ↦ err evaluation
      | some fs ↦ ok fs
    ])
