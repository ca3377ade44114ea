-- ===== src/Tests/Edit.antt =====
-- The theorems on the edit journal, applied.
use project008_soundtech_ass.Prelude.{ℕ, ◌≡◌, refl, [], ◌∷◌, ok}
use project008_soundtech_ass.Prelude.Text.{codes, text_eq, split}
use project008_soundtech_ass.Edit.Document.{Document, leaf, dict, nil, field, get, put}
use project008_soundtech_ass.Edit.Pointer.{read, write}
use project008_soundtech_ass.Edit.Pointer.Laws.{read-write}
use project008_soundtech_ass.Edit.Journal.{Patch, EditJournal, applied}
use project008_soundtech_ass.Edit.Journal.Replay.{last_at, read-applied}

-- a fader and a mute, with their values
abbrev strip : ℕ → ℕ → Document ℕ
strip fader mute = dict (field (codes "fdr") (leaf fader) (field (codes "mute") (leaf mute) nil))

abbrev raise : Patch (Document ℕ)
raise = record {
  path = codes "fdr";
  before = leaf 1;
  after = leaf 5;
  because = codes "G1";
  label = codes "raise";
}

abbrev journal : EditJournal ℕ
journal = record { patches = raise ∷ [] }

read-write_example : read (strip 5 0) (codes "fdr") ≡ ok (leaf 5)
unfolding write text_eq get put split
read-write_example = read-write (strip 1 0) (strip 5 0) (leaf 5) (codes "fdr") refl

read-applied_example :
    read (strip 5 0) (codes "mute")
    ≡ last_at (codes "mute") journal.patches (read (strip 1 0) (codes "mute"))
unfolding applied text_eq get put write split
read-applied_example = read-applied (strip 1 0) (strip 5 0) journal (codes "mute") refl (refl, tt)
