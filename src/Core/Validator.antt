-- ===== src/Core/Validator.antt =====
-- wing_parser/core/validator.py: the structural checks of a raw scene. A JSON value that is no object is a
-- value of `V`, of which the checks ask whether it is a list, how long it is, and the name of its type.
pub mod Sound
use project008_soundtech_ass.Prelude.{
  ℕ, suc, Bool, true, false, Option, none, some, List, [], ◌∷◌, ◌++◌, eqb, if◌then◌else◌,
}
use project008_soundtech_ass.Prelude.Text.{Text, codes, text_eq}
use project008_soundtech_ass.Edit.Document.{Document, Fields, leaf, dict, nil, field, get}
use project008_soundtech_ass.Core.Loader.{RawScene}

pub data Code : Type 0 where
  unknown_version : Code
  malformed_section : Code
  missing_section : Code
  count_mismatch : Code

-- What is wrong: the detail is a type's name or two counts.
pub data Detail (V : Type 0) : Type 0 where
  found_type : Text → Detail V
  counted : ℕ → ℕ → Detail V
  is_absent : Detail V
  parsed_as : Document V → Text → Detail V

pub record Anomaly (V : Type 0) : Type 0 where
  pub code : Code
  pub place : Text
  pub detail : Detail V

abbrev pub expected_counts : List (Text × ℕ)
expected_counts =
    (codes "ch", 40)
    ∷ (codes "aux", 8)
    ∷ (codes "bus", 16)
    ∷ (codes "main", 4)
    ∷ (codes "mtx", 8)
    ∷ (codes "dca", 16)
    ∷ (codes "mgrp", 8)
    ∷ []

abbrev pub required_ae : List Text
required_ae =
    codes "cfg"
    ∷ codes "io"
    ∷ codes "ch"
    ∷ codes "aux"
    ∷ codes "bus"
    ∷ codes "main"
    ∷ codes "mtx"
    ∷ codes "dca"
    ∷ codes "mgrp"
    ∷ []

abbrev pub required_ce : List Text
required_ce = codes "cfg" ∷ codes "safes" ∷ []

-- the length of a list, and the name of a type
pub record Types (V : Type 0) : Type 0 where
  pub list_length : V → Option ℕ
  pub type_name : Document V → Text

module _ {V : Type 0} (T : Types V) where
  unfoldable pub count : Fields V → ℕ
  count nil = 0
  count (field k v more) = suc (count more)

  -- `len(value)` of an object or a list
  unfoldable pub size : Document V → Option ℕ
  unfolding count
  size (leaf v) = T.list_length v
  size (dict fields) = some (count fields)

  abbrev pub at_section : Text → Text → Text
  at_section label section = label ++ codes "." ++ section

  -- what `check_counts` finds in a section that is there
  unfoldable pub check_size : Text → ℕ → Document V → List (Anomaly V)
  unfolding size
  check_size section expected value = elim (size value) [
    | none ↦
        record {
          code = malformed_section;
          place = at_section (codes "ae_data") section;
          detail = found_type (T.type_name value);
        }
        ∷ []
    | some actual ↦
        if eqb actual expected
        then []
        else record {
          code = count_mismatch;
          place = at_section (codes "ae_data") section;
          detail = counted expected actual;
        }
          ∷ []
  ]

  -- the loop over EXPECTED_COUNTS
  unfoldable pub count_sections : Fields V → List (Text × ℕ) → List (Anomaly V)
  unfolding check_size get
  count_sections ae [] = []
  count_sections ae ((section, expected) ∷ more) =
      (elim (get section ae) [ none ↦ [] | some value ↦ check_size section expected value ])
      ++ count_sections ae more

  unfoldable pub check_counts : Document V → List (Anomaly V)
  unfolding count_sections
  check_counts (leaf v) = []
  check_counts (dict ae) = count_sections ae expected_counts

  -- the sections of `required` that are not in the block
  unfoldable pub missing_sections : Text → Fields V → List Text → List (Anomaly V)
  unfolding get
  missing_sections label block [] = []
  missing_sections label block (section ∷ more) =
      (elim (get section block) [
        | none ↦
            record { code = missing_section; place = at_section label section; detail = is_absent }
            ∷ []
        | some value ↦ []
      ])
      ++ missing_sections label block more

  -- `_check_block`
  unfoldable pub check_block : Document V → Text → List Text → List (Anomaly V)
  unfolding missing_sections
  check_block (leaf v) label required =
      record { code = malformed_section; place = label; detail = found_type (T.type_name (leaf v)) }
      ∷ []
  check_block (dict block) label required = missing_sections label block required

  unfoldable pub check_required_keys : Document V → Document V → List (Anomaly V)
  unfolding check_block
  check_required_keys ae ce =
      check_block ae (codes "ae_data") required_ae ++ check_block ce (codes "ce_data") required_ce

  unfoldable pub validate : RawScene V → List (Anomaly V)
  unfolding check_required_keys check_counts
  validate raw =
      (if raw.version.known
        then []
        else record {
          code = unknown_version;
          place = codes "type";
          detail = parsed_as raw.version.type_id raw.version.label;
        }
          ∷ [])
      ++ (check_required_keys raw.ae raw.ce ++ check_counts raw.ae)
