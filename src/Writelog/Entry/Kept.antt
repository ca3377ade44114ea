-- ===== src/Writelog/Entry/Kept.antt =====
-- An entry that is written as JSON is read back.
use project008_soundtech_ass.Prelude.{◌≡◌, refl, Option, none, some, ok}
use project008_soundtech_ass.Prelude.Text.{text_eq}
use project008_soundtech_ass.Edit.Document.{Fields, get}
use project008_soundtech_ass.Writelog.Entry.{
  Scalar, LogEntry, to_json, from_json, of_desk, expect_desk,
}

desk_kept : {V : Type 0} (desk : Option (Fields (Scalar V))) → expect_desk (of_desk desk) ≡ ok desk
desk_kept none = refl
desk_kept (some fields) = refl

-- Every entry is read back from the JSON object that is made of it.
pub from_json-to_json : {V : Type 0} (e : LogEntry V) → from_json (to_json e) ≡ ok e
unfolding from_json to_json text_eq get
from_json-to_json e = rw (desk_kept e.desk) refl
