-- ===== src/Tests/Advisory.antt =====
-- The theorems on the advisory layer and the classifier, applied.
use project008_soundtech_ass.Prelude.{
  ℕ, ◌≡◌, refl, true, false, not, none, some, List, [], ◌∷◌, ◌++◌, eqb, ltb, map, filter_by,
}
use project008_soundtech_ass.Prelude.Text.{Text, codes, text_eq}
use project008_soundtech_ass.Advisory.Predicates.{Values, plain, operators}
use project008_soundtech_ass.Advisory.Evaluator.{Rule, Target, Finding, Reading, evaluate_targets}
use project008_soundtech_ass.Advisory.Evaluator.Firing.{fires, evaluate_targets-fires}
use project008_soundtech_ass.Advisory.Resolver.{
  is_wanted, superseded, higher, active_rules, suppressed_ids, off_event_ids,
}
use project008_soundtech_ass.Advisory.Resolver.Active.{is_unreported, active_rules-reports}
use project008_soundtech_ass.Advisory.Targets.{Scene}
use project008_soundtech_ass.Classifier.Matcher.{Pattern, unknown, classify}
use project008_soundtech_ass.Classifier.Matcher.Best.{offers, IsAmong, IsBest, classify-IsBest}
use project008_soundtech_ass.Classifier.Resolve.{
  new_classifier, Sources, flushing, resolve, use_all,
}
use project008_soundtech_ass.Classifier.Resolve.Stable.{resolve-stable}

-- values that are numbers
abbrev numbers : Values ℕ
numbers = record {
  equal = eqb;
  member = λ m n. some (eqb m n);
  is_number = λ n. true;
  greater = λ m n. some (ltb n m);
  less = λ m n. some (ltb m n);
  is_none = λ n. false;
  truth = λ n. not (eqb n 0);
  is_text = λ n. false;
  starts_with = λ m n. some false;
}

-- a context that is one number, which every path reads
abbrev reading : {X : Type 0} → (X → ℕ) → Reading ℕ X ℕ
reading f = record {
  values = numbers;
  resolve = λ x path. f x;
  render = λ message x. message;
  usable = λ c. ltb 39 c;
  full = 100;
}

abbrev rule : Text → Text → List Text → Rule ℕ
rule id event supersedes = record {
  id = id;
  severity = codes "warning";
  for_each = codes "cue";
  «where» = (codes "channel.fader", operators ((codes "gt", 5) ∷ [])) ∷ [];
  message = codes "too loud";
  layer = codes "base";
  requires_classifier = true;
  enabled = true;
  hardness = codes "hard";
  event = event;
  applies_when = [];
  any_of = ((codes "channel.number", plain 7) ∷ []) ∷ ((codes "channel.number", plain 8) ∷ []) ∷ [];
  supersedes = supersedes;
}

abbrev target : Text → ℕ → ℕ → Target ℕ ℕ
target name x confidence = record { name = name; context = x; confidence = confidence }

-- the second one fires
abbrev targets : List (Target ℕ ℕ)
targets = target (codes "ch.1") 3 90 ∷ target (codes "ch.2") 8 90 ∷ target (codes "ch.3") 8 10 ∷ []

abbrev loud : Rule ℕ
loud = rule (codes "G1") (codes "universal") []

abbrev found : List (Finding ℕ ℕ)
found = elim (evaluate_targets (reading (λ n. n)) loud targets) [ some fs ↦ fs | none ↦ [] ]

evaluate_targets-fires_example :
    map (λ f. f.target) found
    ≡ map (λ t. t.name) (filter_by (fires (reading (λ n. n)) loud) targets)
unfolding evaluate_targets text_eq
evaluate_targets-fires_example = evaluate_targets-fires (reading (λ n. n)) loud targets found refl

abbrev base : List (Rule ℕ)
base = loud ∷ rule (codes "G2") (codes "band") [] ∷ rule (codes "G3") (codes "corporate") [] ∷ []

-- a show rule that switches G1 off
abbrev candidates : List (Rule ℕ)
candidates = rule (codes "S1") (codes "universal") (codes "G1" ∷ []) ∷ []

-- the profile declares a band
abbrev resolved : List (Rule ℕ)
resolved = rule (codes "G2") (codes "band") [] ∷ candidates

active_rules-reports_example :
    resolved
    ≡ filter_by
        (is_unreported
          (suppressed_ids eqb (λ name. none) candidates)
          (off_event_ids (some (codes "band")) base))
        base
      ++ higher eqb (λ name. none) candidates
unfolding active_rules text_eq superseded is_wanted
active_rules-reports_example =
    active_rules-reports eqb (λ name. none) candidates base (some (codes "band")) resolved refl refl

abbrev scene : Scene ℕ
scene = record {
  channels = record { number = 1; confidence = 90; sends = []; main_sends = [] } ∷ [];
  bus_family = [];
  segments = record { target_name = codes "act 1"; cues = codes "act 1/1" ∷ [] } ∷ [];
  expectations = [];
}

-- two patterns, of which the second is the surer
abbrev patterns : List Pattern
patterns =
    record { search = λ t. some t; kind = codes "drum"; confidence = 50 }
    ∷ record { search = λ t. some t; kind = codes "kick"; confidence = 90 }
    ∷ []

classify-IsBest_example :
    IsAmong (classify (λ t. t) (codes "kick") patterns) (unknown ∷ offers (codes "kick") patterns)
    × IsBest (classify (λ t. t) (codes "kick") patterns) (offers (codes "kick") patterns)
classify-IsBest_example = classify-IsBest (λ t. t) (codes "kick") (b'k') (codes "ick") patterns refl

abbrev sources : Sources ℕ
sources = record {
  clean = λ t. t;
  classify = λ name domain. unknown;
  load = λ w. [];
  remember = λ name domain c w. w;
  available = true;
  guess = λ name domain. none;
}

resolve-stable_example :
    (let (answer, c) = resolve sources (codes "kick") (codes "sources") 0 (new_classifier true) in
      let (w, c') = use_all sources (flushing ∷ []) (0, c) in
      resolve sources (codes "kick") (codes "sources") w c' ≡ (answer, c'))
resolve-stable_example =
    resolve-stable sources (codes "kick") (codes "kick") (codes "sources") 0 (new_classifier true)
      (flushing ∷ []) refl
