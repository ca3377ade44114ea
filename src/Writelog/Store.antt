-- ===== src/Writelog/Store.antt =====
-- wing_parser/writelog/store.py: the log of each show, one JSON object per line. The files are a dict from
-- codes to texts; JSON itself is a parameter.
pub mod Replay
use project008_soundtech_ass.Prelude.{
  ℕ, suc, Bool, true, false, not, Option, none, some, List, [], ◌∷◌, ◌++◌, if◌then◌else◌, Result,
  ok, err, ◌>>=◌, ◌==◌,
}
use project008_soundtech_ass.Prelude.Text.{Text, codes, text_eq}
use project008_soundtech_ass.Prelude.Text.Lines.{newline, split_lines}
use project008_soundtech_ass.Prelude.Dict.{Dict, lookup, insert}
use project008_soundtech_ass.Edit.Document.{Fields, leaf, dict, get}
use project008_soundtech_ass.Net.Address.{is_empty}
use project008_soundtech_ass.Writelog.Codes.{Unicode, strip, normalize_code}
use project008_soundtech_ass.Writelog.Entry.{Scalar, Json, LogEntry, to_json, from_json}

-- `json.dumps(..., ensure_ascii=False)`, `json.loads` and the comparison with ENTRY_VERSION.
pub record Serial (V : Type 0) : Type 0 where
  pub dumps : Fields (Scalar V) → Text
  pub loads : Text → Option (Json V)
  pub is_version : Json V → Bool

pub data StoreError : Type 0 where
  invalid_code : Text → StoreError

-- What a line of a file is.
pub data Line (V : Type 0) : Type 0 where
  blank : Line V
  unreadable : Line V
  entry : LogEntry V → Line V

abbrev pub Files : Type 0
Files = Dict Text Text

-- `_file`
unfoldable pub file : Unicode → Text → Result StoreError Text
unfolding normalize_code
file U code = elim (normalize_code U code) [
  | none ↦ err (invalid_code code)
  | some safe ↦ if safe == code then ok safe else err (invalid_code code)
]

-- the text of a file, empty if it is not there
abbrev pub content : Text → Files → Text
content code files = elim (lookup code files) [ none ↦ [] | some s ↦ s ]

module _ {V : Type 0} (U : Unicode) (J : Serial V) where
  unfoldable pub append : LogEntry V → Files → Result StoreError Files
  unfolding file to_json insert
  append e files = file U e.show_code >>= λ safe.
      ok (insert safe (content safe files ++ (J.dumps (to_json e) ++ newline ∷ [])) files)

  -- an object with its version, or none
  unfoldable pub read_object : Fields (Scalar V) → Line V
  unfolding get from_json
  read_object data_ = elim (get (codes "v") data_) [
    | none ↦ unreadable
    | some v ↦
        if not (J.is_version v)
        then unreadable
        else (elim (from_json data_) [ ok e ↦ entry e | err raised ↦ unreadable ])
  ]

  unfoldable pub read_text : Text → Line V
  unfolding read_object
  read_text line = elim (J.loads line) [
    | none ↦ unreadable
    | some (leaf value) ↦ unreadable
    | some (dict data_) ↦ read_object data_
  ]

  unfoldable pub read_line : Text → Line V
  unfolding read_text strip
  read_line raw = let line = strip U raw in if is_empty line then blank else read_text line

  -- The loop of `read_show`: the entries, and how many lines are skipped.
  unfoldable pub read_lines : List Text → List (LogEntry V) × ℕ
  unfolding read_line
  read_lines [] = ([], 0)
  read_lines (line ∷ more) =
      let (entries, skipped) = read_lines more in
      elim (read_line line) [
        | blank ↦ (entries, skipped)
        | unreadable ↦ (entries, suc skipped)
        | entry e ↦ (e ∷ entries, skipped)
      ]

  unfoldable pub read_show : Text → Files → Result StoreError (List (LogEntry V) × ℕ)
  unfolding file lookup read_lines split_lines
  read_show code files = file U code >>= λ safe.
      ok (elim (lookup safe files) [ none ↦ ([], 0) | some s ↦ read_lines (split_lines [] s) ])

  -- One `append` after the other.
  unfoldable pub append_all : List (LogEntry V) → Files → Result StoreError Files
  unfolding append
  append_all [] files = ok files
  append_all (e ∷ more) files = append e files >>= append_all more
