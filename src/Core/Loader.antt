-- ===== src/Core/Loader.antt =====
-- wing_parser/core/loader.py and wing_parser/core/versions.py: a document is split into its version, its
-- two blocks and the rest. A JSON value that is no object is a value of `V`; the registry is the file of
-- versions, and its newest entry is given by its name.
pub mod Checked
use project008_soundtech_ass.Prelude.{
  Bool, true, false, not, ◌||◌, Option, none, some, List, Result, ok, err, ◌>>=◌, ◌==◌,
  if◌then◌else◌,
}
use project008_soundtech_ass.Prelude.Text.{Text, codes, text_eq}
use project008_soundtech_ass.Prelude.Dict.{Dict, lookup}
use project008_soundtech_ass.Edit.Document.{Document, Fields, leaf, dict, nil, field, get}

pub record SceneVersion (V : Type 0) : Type 0 where
  pub type_id : Document V
  pub label : Text
  pub meta_keys : List Text
  pub has_globals : Bool
  pub cards : List Text
  pub known : Bool

-- `source`, which is derived from the path for printing, is left out.
pub record RawScene (V : Type 0) : Type 0 where
  pub version : SceneVersion V
  pub ae : Document V
  pub ce : Document V
  pub meta : Fields V
  pub path : Option Text

-- What Python says of a value that is no object: its truth, whether it can be a key, and its text.
pub record Values (V : Type 0) : Type 0 where
  pub truthy : V → Bool
  pub hashable : V → Bool
  pub as_text : V → Option Text

pub data LoadError : Type 0 where
  not_object : LoadError
  missing_type : LoadError
  unhashable_type : LoadError
  no_newest : LoadError

module _ {V : Type 0} (P : Values V) (registry : Dict Text (SceneVersion V)) (newest : Text) where
  abbrev pub truth : Document V → Bool
  truth (leaf v) = P.truthy v
  truth (dict nil) = false
  truth (dict (field k v more)) = true

  -- the entry of `type_id in registry`
  unfoldable pub registered : Document V → Result LoadError (Option (SceneVersion V))
  unfolding lookup
  registered (dict fields) = err unhashable_type
  registered (leaf v) = elim (P.as_text v) [
    | some t ↦ ok (lookup t registry)
    | none ↦ if P.hashable v then ok none else err unhashable_type
  ]

  -- the newest entry, under the name that was asked for
  unfoldable pub fallback : Document V → Result LoadError (SceneVersion V)
  unfolding lookup
  fallback type_id = elim (lookup newest registry) [
    | none ↦ err no_newest
    | some entry ↦ ok record {
      type_id = type_id;
      label = entry.label;
      meta_keys = entry.meta_keys;
      has_globals = entry.has_globals;
      cards = entry.cards;
      known = false;
    }
  ]

  unfoldable pub resolve : Document V → Result LoadError (SceneVersion V)
  unfolding registered fallback
  resolve type_id =
      registered type_id >>= λ found. elim found [ some entry ↦ ok entry | none ↦ fallback type_id ]

  -- `doc.get(key) or {}`
  unfoldable pub get_or_empty : Text → Fields V → Document V
  unfolding get
  get_or_empty key doc = elim (get key doc) [
    | none ↦ dict nil
    | some value ↦ if truth value then value else dict nil
  ]

  -- `meta`, the fields that are no block
  unfoldable pub without_blocks : Fields V → Fields V
  unfolding text_eq
  without_blocks nil = nil
  without_blocks (field k v more) =
      let rest = without_blocks more in
      if (k == codes "ae_data") || (k == codes "ce_data") then rest else field k v rest

  -- the scene that `parse_raw` returns
  abbrev pub scene_of : Fields V → Text → SceneVersion V → RawScene V
  scene_of doc file_path version = record {
    version = version;
    ae = get_or_empty (codes "ae_data") doc;
    ce = get_or_empty (codes "ce_data") doc;
    meta = without_blocks doc;
    path = some file_path;
  }

  unfoldable pub parse_raw : Document V → Text → Result LoadError (RawScene V)
  unfolding resolve get
  parse_raw (leaf v) file_path = err not_object
  parse_raw (dict doc) file_path = elim (get (codes "type") doc) [
    | none ↦ err missing_type
    | some type_id ↦
        if truth type_id
        then (resolve type_id >>= λ version. ok (scene_of doc file_path version))
        else err missing_type
  ]
