-- ===== src/Writelog/Entry.antt =====
-- wing_parser/writelog/entry.py: one entry of the log as a JSON object. A JSON value that is no object,
-- no string and not null is a value of `V`.
pub mod Kept
use project008_soundtech_ass.Prelude.{
  ℕ, Bool, true, false, ◌&&◌, ◌||◌, not, Option, none, some, List, [], ◌∷◌, if◌then◌else◌, Result,
  ok, err, ◌>>=◌, contains, ◌==◌,
}
use project008_soundtech_ass.Prelude.Text.{Text, codes, text_eq}
use project008_soundtech_ass.Edit.Document.{Document, Fields, leaf, dict, nil, field, get}

pub data Scalar (V : Type 0) : Type 0 where
  null : Scalar V
  string : Text → Scalar V
  other : V → Scalar V

abbrev pub Json : Type 0 → Type 0
Json V = Document (Scalar V)

pub record LogEntry (V : Type 0) : Type 0 where
  pub v : Json V
  pub ts : Text
  pub show_code : Text
  pub show : Json V
  pub venue : Json V
  pub desk : Option (Fields (Scalar V))
  pub kind : Text
  pub finding : Json V
  pub label : Json V
  pub address : Json V
  pub path : Json V
  pub file_before : Json V
  pub desk_before : Json V
  pub written : Json V
  pub readback : Json V
  pub outcome : Text
  pub scene : Json V
  pub app : Json V

-- The two `TypeError`s.
pub data EntryError : Type 0 where
  wrong_keys : EntryError
  wrong_type : Text → EntryError

-- the names of the fields
abbrev pub names : List Text
names =
    codes "v"
    ∷ codes "ts"
    ∷ codes "show_code"
    ∷ codes "show"
    ∷ codes "venue"
    ∷ codes "desk"
    ∷ codes "kind"
    ∷ codes "finding"
    ∷ codes "label"
    ∷ codes "address"
    ∷ codes "path"
    ∷ codes "file_before"
    ∷ codes "desk_before"
    ∷ codes "written"
    ∷ codes "readback"
    ∷ codes "outcome"
    ∷ codes "scene"
    ∷ codes "app"
    ∷ []

abbrev pub all_in : List Text → List Text → Bool
all_in [] ks = true
all_in (x ∷ xs) ks = contains ks x && all_in xs ks

module _ {V : Type 0} where
  abbrev pub of_text : Text → Json V
  of_text s = leaf (string s)

  abbrev pub of_desk : Option (Fields (Scalar V)) → Json V
  of_desk none = leaf null
  of_desk (some fields) = dict fields

  unfoldable pub to_json : LogEntry V → Fields (Scalar V)
  to_json e = field (codes "v") e.v (
      field (codes "ts") (of_text e.ts) (
        field (codes "show_code") (of_text e.show_code) (
          field (codes "show") e.show (
            field (codes "venue") e.venue (
              field (codes "desk") (of_desk e.desk) (
                field (codes "kind") (of_text e.kind) (
                  field (codes "finding") e.finding (
                    field (codes "label") e.label (
                      field (codes "address") e.address (
                        field (codes "path") e.path (
                          field (codes "file_before") e.file_before (
                            field (codes "desk_before") e.desk_before (
                              field (codes "written") e.written (
                                field (codes "readback") e.readback (
                                  field (codes "outcome") (of_text e.outcome) (
                                    field (codes "scene") e.scene
                                      (field (codes "app") e.app nil)))))))))))))))))

  abbrev pub keys_of : Fields (Scalar V) → List Text
  keys_of nil = []
  keys_of (field k value more) = k ∷ keys_of more

  -- `set(data) == names`
  unfoldable pub has_names : Fields (Scalar V) → Bool
  has_names data_ = all_in (keys_of data_) names && all_in names (keys_of data_)

  -- `data[key]`, once the keys are checked
  unfoldable pub item : Text → Fields (Scalar V) → Result EntryError (Json V)
  unfolding get
  item key data_ = elim (get key data_) [ none ↦ err wrong_keys | some value ↦ ok value ]

  abbrev pub expect_text : Text → Json V → Result EntryError Text
  expect_text key (leaf (string s)) = ok s
  expect_text key (leaf null) = err (wrong_type key)
  expect_text key (leaf (other x)) = err (wrong_type key)
  expect_text key (dict fields) = err (wrong_type key)

  unfoldable pub text_item : Text → Fields (Scalar V) → Result EntryError Text
  unfolding item
  text_item key data_ = item key data_ >>= expect_text key

  abbrev pub expect_desk : Json V → Result EntryError (Option (Fields (Scalar V)))
  expect_desk (leaf null) = ok none
  expect_desk (leaf (string s)) = err (wrong_type (codes "desk"))
  expect_desk (leaf (other x)) = err (wrong_type (codes "desk"))
  expect_desk (dict fields) = ok (some fields)

  -- `cls(**data)` with the fields that have no type to check
  unfoldable pub build :
      Fields (Scalar V)
      → Text
      → Text
      → Text
      → Text
      → Option (Fields (Scalar V))
      → Result EntryError (LogEntry V)
  unfolding item
  build data_ ts show_code kind outcome desk = item (codes "v") data_ >>= λ v.
      item (codes "show") data_ >>= λ show. item (codes "venue") data_ >>= λ venue.
      item (codes "finding") data_ >>= λ finding. item (codes "label") data_ >>= λ label.
      item (codes "address") data_ >>= λ address. item (codes "path") data_ >>= λ path.
      item (codes "file_before") data_ >>= λ file_before.
      item (codes "desk_before") data_ >>= λ desk_before.
      item (codes "written") data_ >>= λ written. item (codes "readback") data_ >>= λ readback.
      item (codes "scene") data_ >>= λ scene. item (codes "app") data_ >>= λ app. ok (record {
        v = v;
        ts = ts;
        show_code = show_code;
        show = show;
        venue = venue;
        desk = desk;
        kind = kind;
        finding = finding;
        label = label;
        address = address;
        path = path;
        file_before = file_before;
        desk_before = desk_before;
        written = written;
        readback = readback;
        outcome = outcome;
        scene = scene;
        app = app;
      })

  -- `LogEntry.from_json` on an object
  unfoldable pub from_json : Fields (Scalar V) → Result EntryError (LogEntry V)
  unfolding has_names text_item item build
  from_json data_ =
      if not (has_names data_)
      then err wrong_keys
      else (text_item (codes "ts") data_ >>= λ ts.
          text_item (codes "show_code") data_ >>= λ show_code.
          text_item (codes "kind") data_ >>= λ kind.
          text_item (codes "outcome") data_ >>= λ outcome. item (codes "desk") data_ >>= λ value.
          expect_desk value >>= λ desk. build data_ ts show_code kind outcome desk)
