-- ===== src/Tests/Core.antt =====
-- The theorems on the loading and the validation of a scene, applied.
use project008_soundtech_ass.Prelude.{ℕ, ◌≡◌, refl, ◌↔◌, true, false, not, none, some, [], ◌∷◌, eqb}
use project008_soundtech_ass.Prelude.Text.{Text, codes, text_eq}
use project008_soundtech_ass.Edit.Document.{Document, leaf, dict, nil, field}
use project008_soundtech_ass.Core.Loader.{
  SceneVersion, RawScene, Values, parse_raw, get_or_empty, without_blocks,
}
use project008_soundtech_ass.Core.Loader.Checked.{IsChecked, parse_raw-IsChecked}
use project008_soundtech_ass.Core.Validator.{Types, validate}
use project008_soundtech_ass.Core.Validator.Sound.{IsWhole, validate-IsWhole}

-- The values that are no objects here: strings and lists, a list by its length.
data Value : Type 0 where
  string : Text → Value
  listed : ℕ → Value

abbrev values : Values Value
values = record {
  truthy = λ v. elim v [ string t ↦ true | listed n ↦ not (eqb n 0) ];
  hashable = λ v. elim v [ string t ↦ true | listed n ↦ false ];
  as_text = λ v. elim v [ string t ↦ some t | listed n ↦ none ];
}

abbrev types : Types Value
types = record {
  list_length = λ v. elim v [ string t ↦ none | listed n ↦ some n ];
  type_name = λ value. elim value [
    | leaf v ↦ elim v [ string t ↦ codes "str" | listed n ↦ codes "list" ]
    | dict fields ↦ codes "dict"
  ];
}

abbrev version : SceneVersion Value
version = record {
  type_id = leaf (string (codes "s.3"));
  label = codes "3.1";
  meta_keys = codes "type" ∷ [];
  has_globals = true;
  cards = [];
  known = true;
}

abbrev ae : Document Value
ae = dict (
    field (codes "cfg") (leaf (listed 0)) (
      field (codes "io") (leaf (listed 2)) (
        field (codes "ch") (leaf (listed 40)) (
          field (codes "aux") (leaf (listed 8)) (
            field (codes "bus") (leaf (listed 16)) (
              field (codes "main") (leaf (listed 4)) (
                field (codes "mtx") (leaf (listed 8)) (
                  field (codes "dca") (leaf (listed 16))
                    (field (codes "mgrp") (leaf (listed 8)) nil)))))))))

abbrev ce : Document Value
ce = dict (field (codes "cfg") (leaf (listed 0)) (field (codes "safes") (dict nil) nil))

abbrev document : Document Value
document = dict (
    field (codes "type") (leaf (string (codes "s.3")))
      (field (codes "ae_data") ae (field (codes "ce_data") ce nil)))

abbrev scene : RawScene Value
scene = record {
  version = version;
  ae = ae;
  ce = ce;
  meta = field (codes "type") (leaf (string (codes "s.3"))) nil;
  path = some (codes "show.snap");
}

parse_raw-IsChecked_example :
    IsChecked values ((codes "s.3", version) ∷ []) (codes "s.3") types scene document
unfolding parse_raw validate text_eq get_or_empty without_blocks
parse_raw-IsChecked_example =
    parse_raw-IsChecked values ((codes "s.3", version) ∷ []) (codes "s.3") types document
      (codes "show.snap") scene refl refl

validate-IsWhole_example : (validate types scene ≡ []) ↔ IsWhole types scene
validate-IsWhole_example = validate-IsWhole types scene
