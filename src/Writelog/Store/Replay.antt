-- ===== src/Writelog/Store/Replay.antt =====
-- The files refine the list of what was logged.
use mathlib.Core.Path.{subst}
use project008_soundtech_ass.Prelude.{
  ◌≡◌, refl, sym, ap, ◌∙◌, Bool, true, false, Option, none, some, List, [], ◌∷◌, ◌++◌, ok, ◌==◌,
  filter_by, All, arith, Bool-cases, inl, inr, append_assoc, append-nil, ==→eq, ==_refl,
}
use project008_soundtech_ass.Prelude.Text.{Text, codes, text_eq}
use project008_soundtech_ass.Prelude.Text.Lines.{newline, split_lines, IsLine, split_lines-line}
use project008_soundtech_ass.Prelude.Dict.{lookup, insert, lookup-insert}
use project008_soundtech_ass.Edit.Document.{dict, get}
use project008_soundtech_ass.Net.Address.{is_empty}
use project008_soundtech_ass.Writelog.Codes.{Unicode, strip, normalize_code}
use project008_soundtech_ass.Writelog.Entry.{LogEntry, to_json}
use project008_soundtech_ass.Writelog.Entry.Kept.{from_json-to_json}
use project008_soundtech_ass.Writelog.Store.{
  Serial, Files, entry, file, content, append, append_all, read_object, read_text, read_line,
  read_lines, read_show,
}

get-v : {V : Type 0} (e : LogEntry V) → get (codes "v") (to_json e) ≡ some e.v
unfolding to_json get text_eq
get-v e = refl

module _ {V : Type 0} (U : Unicode) (J : Serial V) where
  abbrev pub line_of : LogEntry V → Text
  line_of e = J.dumps (to_json e)

  -- The code of the entry is valid, its version is the current one, and `json` writes it on one line that
  -- `json` reads back.
  pub record IsWritable (e : LogEntry V) : Type 0 where
    pub valid : normalize_code U e.show_code ≡ some e.show_code
    pub current : J.is_version e.v ≡ true
    pub one_line : IsLine (line_of e)
    pub stripped : strip U (line_of e) ≡ line_of e
    pub not_blank : is_empty (line_of e) ≡ false
    pub loaded : J.loads (line_of e) ≡ some (dict (to_json e))

  abbrev text_of : List (LogEntry V) → Text
  text_of [] = []
  text_of (e ∷ more) = line_of e ++ newline ∷ text_of more

  read_object-to_json : (e : LogEntry V) → IsWritable e → read_object U J (to_json e) ≡ entry e
  unfolding read_object
  read_object-to_json e w = ground (arith, get-v e, w.current, from_json-to_json e)

  read_line-line_of : (e : LogEntry V) → IsWritable e → read_line U J (line_of e) ≡ entry e
  unfolding read_line read_text
  read_line-line_of e w = ground (arith, w.stripped, w.not_blank, w.loaded, read_object-to_json e w)

  read_lines-text_of :
      (es : List (LogEntry V))
      → All IsWritable es
      → read_lines U J (split_lines [] (text_of es)) ≡ (es, 0)
  unfolding read_lines split_lines
  read_lines-text_of [] ws = ground arith
  read_lines-text_of (e ∷ more) (w, ws) = ground (
    arith,
    split_lines-line (line_of e) (text_of more) w.one_line,
    read_line-line_of e w,
    read_lines-text_of more ws,
  )

  -- the entries of one show
  abbrev pub entries_of : Text → List (LogEntry V) → List (LogEntry V)
  entries_of code = filter_by (λ e. code == e.show_code)

  -- the file of a show with these entries
  abbrev logged : List (LogEntry V) → Option Text
  logged [] = none
  logged (e ∷ more) = some (text_of (e ∷ more))

  -- The files hold what was logged so far.
  Refines : Files → List (LogEntry V) → Type 0
  Refines files history = (code : Text) → lookup code files ≡ logged (entries_of code history)

  text_of-append :
      (es : List (LogEntry V)) (e : LogEntry V)
      → text_of (es ++ e ∷ []) ≡ text_of es ++ (line_of e ++ newline ∷ [])
  text_of-append [] e = refl
  text_of-append (x ∷ es) e =
      ap (λ s. line_of x ++ newline ∷ s) (text_of-append es e)
      ∙ sym (append_assoc (line_of x) (newline ∷ text_of es) (line_of e ++ newline ∷ []))

  logged-append :
      (es : List (LogEntry V)) (e : LogEntry V)
      → logged (es ++ e ∷ []) ≡ some (text_of es ++ (line_of e ++ newline ∷ []))
  logged-append [] e = refl
  logged-append (x ∷ es) e = ap some (text_of-append (x ∷ es) e)

  filter_by-append :
      (p : LogEntry V → Bool) (es fs : List (LogEntry V))
      → filter_by p (es ++ fs) ≡ filter_by p es ++ filter_by p fs
  filter_by-append p [] fs = refl
  filter_by-append p (e ∷ es) fs = ground (arith, filter_by-append p es fs)

  content-logged :
      (code : Text) (files : Files) (history : List (LogEntry V))
      → Refines files history
      → content code files ≡ text_of (entries_of code history)
  unfolding Refines
  content-logged code files history r = go (entries_of code history) (r code)
    where
      go :
          (es : List (LogEntry V)) → lookup code files ≡ logged es → content code files ≡ text_of es
      go [] e = ground (arith, e)
      go (x ∷ es) e = ground (arith, e)

  filed :
      (e : LogEntry V) (files : Files) (history : List (LogEntry V)) (code : Text)
      → Refines files history
      → lookup code
          (insert e.show_code (content e.show_code files ++ (line_of e ++ newline ∷ [])) files)
        ≡ logged (entries_of code (history ++ e ∷ []))
  unfolding Refines
  filed e files history code r = elim (Bool-cases (code == e.show_code)) [
    | inl y ↦ ground (
      arith,
      lookup-insert code e.show_code (content e.show_code files ++ (line_of e ++ newline ∷ []))
          files,
      filter_by-append (λ f. code == f.show_code) history (e ∷ []),
      logged-append (entries_of code history) e,
      content-logged code files history r,
      ==→eq code e.show_code y,
    )
    | inr n ↦ ground (
      arith,
      lookup-insert code e.show_code (content e.show_code files ++ (line_of e ++ newline ∷ []))
          files,
      filter_by-append (λ f. code == f.show_code) history (e ∷ []),
      append-nil (entries_of code history),
      r code,
    )
  ]

  append-Refines :
      (e : LogEntry V) (files : Files) (history : List (LogEntry V))
      → IsWritable e
      → Refines files history
      → (files' : Files) × (append U J e files ≡ ok files') × Refines files' (history ++ e ∷ [])
  unfolding append file Refines
  append-Refines e files history w r = (
    insert e.show_code (content e.show_code files ++ (line_of e ++ newline ∷ [])) files,
    ground (arith, w.valid, ==_refl e.show_code),
    λ code. filed e files history code r,
  )

  append_all-Refines :
      (es : List (LogEntry V)) (files : Files) (history : List (LogEntry V))
      → All IsWritable es
      → Refines files history
      → (files' : Files) × (append_all U J es files ≡ ok files') × Refines files' (history ++ es)
  unfolding append_all
  append_all-Refines [] files history ws r =
      (files, refl, subst (Refines files) (sym (append-nil history)) r)
  append_all-Refines (e ∷ es) files history (w, ws) r =
      let (files1, first, r1) = append-Refines e files history w r in
      let (files2, rest, r2) = append_all-Refines es files1 (history ++ e ∷ []) ws r1 in
      (
        files2,
        ground (arith, first, rest),
        subst (Refines files2) (append_assoc history (e ∷ []) es) r2,
      )

  All-filter :
      (p : LogEntry V → Bool) (es : List (LogEntry V))
      → All IsWritable es
      → All IsWritable (filter_by p es)
  All-filter p [] ws = tt
  All-filter p (e ∷ es) (w, ws) = elim (Bool-cases (p e)) [
    | inl y ↦ rw y (w, All-filter p es ws)
    | inr n ↦ rw n (All-filter p es ws)
  ]

  read_show-logged :
      (code : Text) (files : Files) (es : List (LogEntry V))
      → normalize_code U code ≡ some code
      → All IsWritable es
      → lookup code files ≡ logged es
      → read_show U J code files ≡ ok (es, 0)
  unfolding read_show file
  read_show-logged code files [] v ws e = ground (arith, ==_refl code)
  read_show-logged code files (x ∷ es) v ws e =
      ground (arith, ==_refl code, read_lines-text_of (x ∷ es) ws)

  -- Entries that can be written are all appended, whatever their shows and their order; then the log of a
  -- show, under a valid code, is exactly the entries of that show, in the order in which they were appended, and no line is
  -- skipped.
  pub read_show-append_all :
      (es : List (LogEntry V)) (code : Text)
      → All IsWritable es
      → normalize_code U code ≡ some code
      → (files : Files) × (append_all U J es [] ≡ ok files)
        × (read_show U J code files ≡ ok (filter_by (λ e. code == e.show_code) es, 0))
  unfolding Refines lookup
  read_show-append_all es code ws v =
      let (files, done, r) = append_all-Refines es [] [] ws (λ c. refl) in
      (
        files,
        done,
        read_show-logged code files (entries_of code es) v
            (All-filter (λ e. code == e.show_code) es ws) (r code),
      )
