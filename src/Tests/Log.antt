-- ===== src/Tests/Log.antt =====
-- The theorems on the write log, applied.
use project008_soundtech_ass.Prelude.{
  ℕ, ◌≡◌, refl, true, ◌&&◌, none, some, List, [], ◌∷◌, ok, All, eqb, leb, ◌==◌, filter_by,
}
use project008_soundtech_ass.Prelude.Text.{Text, codes, text_eq}
use project008_soundtech_ass.Edit.Document.{leaf, dict, field, Fields}
use project008_soundtech_ass.Writelog.Codes.{AsciiDigits, Unicode, strip, normalize_code}
use project008_soundtech_ass.Writelog.Codes.Safe.{is_safe, normalize_code-IsSafe}
use project008_soundtech_ass.Writelog.Entry.{Scalar, null, string, other, LogEntry, to_json}
use project008_soundtech_ass.Writelog.Store.{Serial, Files, append_all, read_show}
use project008_soundtech_ass.Writelog.Store.Replay.{IsWritable, read_show-append_all}

abbrev ascii : Unicode
ascii = record {
  upper = λ s. s;
  is_space = λ c. eqb c 32;
  is_decimal = λ c. leb b'0' c && leb c b'9';
}

digits : AsciiDigits ascii
digits c h = refl

normalize_code-IsSafe_example :
    All (λ c. is_safe ascii digits c ≡ true) (codes "ADHOC-20261126-0930")
unfolding normalize_code
normalize_code-IsSafe_example =
    normalize_code-IsSafe ascii digits (codes " ADHOC-20261126-0930 ") (codes "ADHOC-20261126-0930")
      refl

-- a write that was sent for a show
abbrev sent : Text → LogEntry ℕ
sent code = record {
  v = leaf (other 1);
  ts = codes "t";
  show_code = code;
  show = leaf null;
  venue = leaf null;
  desk = none;
  kind = codes "repair";
  finding = leaf null;
  label = leaf null;
  address = leaf null;
  path = leaf null;
  file_before = leaf null;
  desk_before = leaf null;
  written = leaf null;
  readback = leaf null;
  outcome = codes "sent";
  scene = leaf null;
  app = leaf null;
}

-- A form that keeps only the code, which is all that these entries differ in.
abbrev code_only : Fields (Scalar ℕ) → Text
code_only (field _ _ (field _ _ (field _ (leaf (string code)) _))) = code
code_only _ = []

abbrev toy : Serial ℕ
toy = record {
  dumps = code_only;
  loads = λ s. some (dict (to_json (sent s)));
  is_version = λ v. true;
}

abbrev first_show : LogEntry ℕ
first_show = sent (codes "AZ-1")

abbrev second_show : LogEntry ℕ
second_show = sent (codes "AZ-2")

first_show-IsWritable : IsWritable ascii toy first_show
unfolding normalize_code strip to_json
first_show-IsWritable = record {
  valid = refl;
  current = refl;
  one_line = (refl, (refl, (refl, (refl, tt))));
  stripped = refl;
  not_blank = refl;
  loaded = refl;
}

second_show-IsWritable : IsWritable ascii toy second_show
unfolding normalize_code strip to_json
second_show-IsWritable = record {
  valid = refl;
  current = refl;
  one_line = (refl, (refl, (refl, (refl, tt))));
  stripped = refl;
  not_blank = refl;
  loaded = refl;
}

abbrev history : List (LogEntry ℕ)
history = first_show ∷ second_show ∷ first_show ∷ []

read_show-append_all_example :
    (files : Files) × (append_all ascii toy history [] ≡ ok files)
    × (read_show ascii toy (codes "AZ-1") files
        ≡ ok (filter_by (λ e. codes "AZ-1" == e.show_code) history, 0))
unfolding normalize_code
read_show-append_all_example =
    read_show-append_all ascii toy history (codes "AZ-1")
      (first_show-IsWritable, (second_show-IsWritable, (first_show-IsWritable, tt))) refl
