-- ===== src/Classifier/Matcher.antt =====
-- wing_parser/classifier/matcher.py: `Classification`, `classify`, and the thresholds. Confidences are in
-- hundredths. A pattern is given by its `search`: the text that it matches, if any.
pub mod Best
use project008_soundtech_ass.Prelude.{
  ℕ, Bool, true, false, ◌&&◌, ◌||◌, Option, none, some, List, [], ◌∷◌, leb, ltb, eqb, length,
  if◌then◌else◌,
}
use project008_soundtech_ass.Prelude.Text.{Text, codes}

pub record Classification : Type 0 where
  pub kind : Text
  pub confidence : ℕ
  pub origin : Text
  pub matched : Option Text

abbrev pub high : ℕ
high = 80

abbrev pub low : ℕ
low = 40

abbrev pub unknown : Classification
unknown = record { kind = codes "unknown"; confidence = 0; origin = codes "none"; matched = none }

unfoldable pub is_confident : Classification → Bool
is_confident c = leb high c.confidence

unfoldable pub is_usable : Classification → Bool
is_usable c = leb low c.confidence

-- an entry of `_compiled(domain)`
pub record Pattern : Type 0 where
  pub search : Text → Option Text
  pub kind : Text
  pub confidence : ℕ

-- `len(c.matched or "")`
unfoldable pub matched_length : Classification → ℕ
matched_length c = elim c.matched [ none ↦ 0 | some t ↦ length t ]

-- `_rank(a) > _rank(b)`, on pairs
unfoldable pub outranks : Classification → Classification → Bool
unfolding matched_length
outranks a b =
    ltb b.confidence a.confidence
    || eqb a.confidence b.confidence && ltb (matched_length b) (matched_length a)

unfoldable pub candidate : Pattern → Text → Classification
candidate p found = record {
  kind = p.kind;
  confidence = p.confidence;
  origin = codes "pattern";
  matched = some found;
}

unfoldable pub better : Classification → Option Classification → Option Classification
unfolding outranks
better c none = some c
better c (some best) = if outranks c best then some c else some best

-- The loop of `classify`.
unfoldable pub best_from : Text → Option Classification → List Pattern → Option Classification
unfolding candidate better
best_from target best [] = best
best_from target best (p ∷ ps) =
    let skipped = best_from target best ps in
    elim (p.search target) [
      | none ↦ skipped
      | some found ↦ best_from target (better (candidate p found) best) ps
    ]

-- `target` is the cleaned name.
unfoldable pub classify_target : Text → List Pattern → Classification
unfolding best_from
classify_target [] patterns = unknown
classify_target (c ∷ t) patterns = elim (best_from (c ∷ t) none patterns) [
  | none ↦ unknown
  | some best ↦ best
]

-- `classify`; `clean` is that of wing_parser/classifier/normalize.py.
unfoldable pub classify : (Text → Text) → Text → List Pattern → Classification
unfolding classify_target
classify clean name patterns = classify_target (clean name) patterns
