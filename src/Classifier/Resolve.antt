-- ===== src/Classifier/Resolve.antt =====
-- wing_parser/classifier/resolve.py: `Classifier`, which asks the cache, the patterns and the model in
-- turn, and remembers what it answered.
pub mod Stable
use project008_soundtech_ass.Prelude.{
  ℕ, Bool, true, false, ◌&&◌, not, Option, none, some, List, [], ◌∷◌, ◌++◌, Eq, ◌==◌, eqb,
  if◌then◌else◌,
}
use project008_soundtech_ass.Prelude.Text.{Text, text_eq}
use project008_soundtech_ass.Prelude.Dict.{Dict, lookup, insert}
use project008_soundtech_ass.Classifier.Matcher.{Classification, unknown, is_confident}

abbrev pub Disk : Type 0
Disk = Dict Text (Dict Text Classification)

-- `memo` keys on the domain and the cleaned name: a dict per domain.
pub record Classifier : Type 0 where
  pub use_llm : Bool
  pub memo : Dict Text (Dict Text Classification)
  pub pending : List (Text × Text × Classification)
  pub unresolved : List Text
  pub low : List Text
  pub disk : Option Disk

abbrev pub new_classifier : Bool → Classifier
new_classifier use_llm = record {
  use_llm = use_llm;
  memo = [];
  pending = [];
  unresolved = [];
  low = [];
  disk = none;
}

-- `d.get(domain, {})`
abbrev pub within : Text → Dict Text (Dict Text Classification) → Dict Text Classification
within domain d = elim (lookup domain d) [ none ↦ [] | some names ↦ names ]

-- `memo.get((domain, target))`
unfoldable pub recall : Text → Text → Dict Text (Dict Text Classification) → Option Classification
recall domain target d = lookup target (within domain d)

-- `memo[(domain, target)] = result`
unfoldable pub memorise :
    Text
    → Text
    → Classification
    → Dict Text (Dict Text Classification)
    → Dict Text (Dict Text Classification)
memorise domain target result d = insert domain (insert target result (within domain d)) d

-- The other modules: `clean`, `matcher.classify`, `cache.load` and `cache.remember` on the knowledge files
-- `W`, and `llm.available` and `llm.classify`.
pub record Sources (W : Type 0) : Type 0 where
  pub clean : Text → Text
  pub classify : Text → Text → Classification
  pub load : W → Disk
  pub remember : Text → Text → Classification → W → W
  pub available : Bool
  pub guess : Text → Text → Option Classification

-- What a program does with a classifier.
pub data Use : Type 0 where
  resolving : Text → Text → Use
  flushing : Use

module _ {W : Type 0} (R : Sources W) where
  abbrev pub disk_of : W → Classifier → Disk
  disk_of w c = elim c.disk [ none ↦ R.load w | some d ↦ d ]

  -- `_cached`, which loads the file at its first use
  unfoldable pub cached : Text → Text → W → Classifier → Option Classification × Classifier
  cached name domain w c =
      (recall domain (R.clean name) (disk_of w c), record c { disk = some (disk_of w c) })

  -- `_first_answer` once the cache has none
  unfoldable pub ask : Text → Text → Classifier → Classification × Classifier
  ask name domain c =
      let found = R.classify name domain in
      if is_confident found
      then (found, c)
      else if c.use_llm && R.available
      then (elim (R.guess name domain) [
        | none ↦ (found, c)
        | some guessed ↦
            (guessed, record c { pending = c.pending ++ ((name, domain, guessed) ∷ []) })
      ])
      else (found, c)

  unfoldable pub first_answer : Text → Text → W → Classifier → Classification × Classifier
  unfolding cached ask
  first_answer name domain w c =
      let (hit, c') = cached name domain w c in
      elim hit [ some answer ↦ (answer, c') | none ↦ ask name domain c' ]

  -- The part of `resolve` that notes a new answer.
  unfoldable pub note : Text → Text → Text → Classification → Classifier → Classifier
  unfolding memorise
  note name domain target result c =
      let kept = record c { memo = memorise domain target result c.memo } in
      if eqb result.confidence 0
      then record kept { unresolved = c.unresolved ++ (name ∷ []) }
      else if not (is_confident result)
      then record kept { low = c.low ++ (name ∷ []) }
      else kept

  unfoldable pub resolve_target : Text → Text → Text → W → Classifier → Classification × Classifier
  unfolding first_answer note
  resolve_target name domain [] w c = (unknown, c)
  resolve_target name domain (t ∷ ts) w c = elim (recall domain (t ∷ ts) c.memo) [
    | some answer ↦ (answer, c)
    | none ↦
        let (result, c') = first_answer name domain w c in
        (result, note name domain (t ∷ ts) result c')
  ]

  unfoldable pub resolve : Text → Text → W → Classifier → Classification × Classifier
  unfolding resolve_target
  resolve name domain w c = resolve_target name domain (R.clean name) w c

  unfoldable pub remember_all : List (Text × Text × Classification) → W → W
  remember_all [] w = w
  remember_all ((name, domain, result) ∷ more) w =
      remember_all more (R.remember name domain result w)

  unfoldable pub flush : W → Classifier → W × Classifier
  unfolding remember_all
  flush w c = (remember_all c.pending w, record c { pending = []; disk = none })

  unfoldable pub use_once : Use → W × Classifier → W × Classifier
  unfolding resolve flush
  use_once (resolving name domain) (w, c) = (w, (resolve name domain w c).1)
  use_once flushing (w, c) = flush w c

  unfoldable pub use_all : List Use → W × Classifier → W × Classifier
  unfolding use_once
  use_all [] s = s
  use_all (u ∷ us) s = use_all us (use_once u s)
