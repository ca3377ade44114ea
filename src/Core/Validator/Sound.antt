-- ===== src/Core/Validator/Sound.antt =====
-- The scenes without anomalies.
use project008_soundtech_ass.Prelude.{
  ℕ, ◌≡◌, refl, Bool-cases, true, Option-cases, some, List, [], ◌∷◌, ◌++◌, eqb→eq, eqb_refl, ◌↔◌,
  All, arith, inl, inr,
}
use project008_soundtech_ass.Prelude.Text.{Text, codes, text_eq}
use project008_soundtech_ass.Edit.Document.{Document, Fields, leaf, dict, get}
use project008_soundtech_ass.Core.Loader.{RawScene}
use project008_soundtech_ass.Core.Validator.{
  Types, expected_counts, required_ae, required_ce, size, check_size, count_sections, check_counts,
  missing_sections, check_block, check_required_keys, validate,
}

both_empty : {A : Type 0} (xs ys : List A) → xs ++ ys ≡ [] → (xs ≡ []) × (ys ≡ [])
both_empty [] ys e = (refl, e)
both_empty (x ∷ xs) ys e = absurd (cc)

module _ {V : Type 0} (T : Types V) where
  -- The section is there.
  abbrev pub HasSection : Fields V → Text → Type 0
  HasSection block section = (value : Document V) × (get section block ≡ some value)

  -- The section is there, and it has so many entries.
  abbrev pub HasCount : Fields V → Text × ℕ → Type 0
  HasCount block (section, expected) =
      (value : Document V) × (get section block ≡ some value) × (size T value ≡ some expected)

  missing_sections-nil :
      (label : Text) (block : Fields V) (required : List Text)
      → missing_sections T label block required ≡ []
      → All (HasSection block) required
  unfolding missing_sections
  missing_sections-nil label block [] e = tt
  missing_sections-nil label block (section ∷ more) e = elim (Option-cases (get section block)) [
    | inl n ↦ absurd (ground arith)
    | inr (value, s) ↦ ((value, s), missing_sections-nil label block more (ground arith))
  ]

  check_size-nil :
      (section : Text) (expected : ℕ) (value : Document V)
      → check_size T section expected value ≡ []
      → size T value ≡ some expected
  unfolding check_size
  check_size-nil section expected value e = elim (Option-cases (size T value)) [
    | inl n ↦ absurd (ground arith)
    | inr (actual, s) ↦ ground (arith, eqb→eq actual expected)
  ]

  count_sections-nil :
      (ae : Fields V) (counts : List (Text × ℕ))
      → All (λ (section, _). HasSection ae section) counts
      → count_sections T ae counts ≡ []
      → All (HasCount ae) counts
  unfolding count_sections
  count_sections-nil ae [] hs e = tt
  count_sections-nil ae ((section, expected) ∷ more) ((value, s), hs) e =
      let (first, rest) =
        both_empty (check_size T section expected value) (count_sections T ae more)
          (ground (arith, s)) in
      ((value, s, check_size-nil section expected value first), count_sections-nil ae more hs rest)

  -- What a scene without anomalies has: a known version, two objects with all their sections, and the
  -- number of entries that the console has in each counted section.
  pub data IsWhole (raw : RawScene V) : Type 0 where
    whole :
        (ae ce : Fields V)
        → raw.version.known ≡ true
        → raw.ae ≡ dict ae
        → raw.ce ≡ dict ce
        → All (HasSection ae) required_ae
        → All (HasSection ce) required_ce
        → All (HasCount ae) expected_counts
        → IsWhole raw

  check_block-nil :
      (block : Document V) (label : Text) (required : List Text)
      → check_block T block label required ≡ []
      → (fields : Fields V) × (block ≡ dict fields) × All (HasSection fields) required
  unfolding check_block
  check_block-nil (leaf v) label required e = absurd (cc)
  check_block-nil (dict fields) label required e =
      (fields, refl, missing_sections-nil label fields required e)

  counts_of :
      (ae : Fields V)
      → All (HasSection ae) required_ae
      → All (λ (section, _). HasSection ae section) expected_counts
  counts_of ae (_, (_, (ch, (aux, (bus, (main, (mtx, (dca, (mgrp, _))))))))) =
      (ch, (aux, (bus, (main, (mtx, (dca, (mgrp, tt)))))))

  -- A scene in which the validation finds nothing is whole.
  validate_sound : (raw : RawScene V) → validate T raw ≡ [] → IsWhole raw
  unfolding validate check_required_keys
  validate_sound raw e = elim (Bool-cases raw.version.known) [
    | inr n ↦ absurd (ground arith)
    | inl k ↦
        let (keys, counts) =
          both_empty (check_required_keys T raw.ae raw.ce) (check_counts T raw.ae) (ground arith) in
        let (in_ae, in_ce) =
          both_empty (check_block T raw.ae (codes "ae_data") required_ae)
            (check_block T raw.ce (codes "ce_data") required_ce) keys in
        let (ae, a, has_ae) = check_block-nil raw.ae (codes "ae_data") required_ae in_ae in
        let (ce, c, has_ce) = check_block-nil raw.ce (codes "ce_data") required_ce in_ce in
        whole ae ce k a c has_ae has_ce (
          count_sections-nil ae expected_counts (counts_of ae has_ae)
            (unfold check_counts in ground (arith, a)))
  ]

  missing_sections-whole :
      (label : Text) (block : Fields V) (required : List Text)
      → All (HasSection block) required
      → missing_sections T label block required ≡ []
  unfolding missing_sections
  missing_sections-whole label block [] hs = refl
  missing_sections-whole label block (section ∷ more) ((value, s), hs) =
      ground (arith, s, missing_sections-whole label block more hs)

  count_sections-whole :
      (ae : Fields V) (counts : List (Text × ℕ))
      → All (HasCount ae) counts
      → count_sections T ae counts ≡ []
  unfolding count_sections check_size
  count_sections-whole ae [] hs = refl
  count_sections-whole ae ((section, expected) ∷ more) ((value, s, n), hs) =
      ground (arith, s, n, eqb_refl expected, count_sections-whole ae more hs)

  -- In a whole scene the validation finds nothing.
  validate_complete : (raw : RawScene V) → IsWhole raw → validate T raw ≡ []
  unfolding validate check_required_keys check_block check_counts
  validate_complete raw (whole ae ce k a c has_ae has_ce has_counts) = ground (
    arith,
    k,
    a,
    c,
    missing_sections-whole (codes "ae_data") ae required_ae has_ae,
    missing_sections-whole (codes "ce_data") ce required_ce has_ce,
    count_sections-whole ae expected_counts has_counts,
  )

  -- The validation finds nothing exactly if the scene is whole: its version is known, both blocks are
  -- objects with all their required sections, and each counted section has its expected number of entries.
  pub validate-IsWhole : (raw : RawScene V) → (validate T raw ≡ []) ↔ IsWhole raw
  validate-IsWhole raw = (validate_sound raw, validate_complete raw)
