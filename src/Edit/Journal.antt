-- ===== src/Edit/Journal.antt =====
-- wing_parser/edit/journal.py and `applied` of wing_parser/edit/writer.py. The document is a value, so
-- the deep copy that `applied` patches is the document itself.
pub mod Replay
use project008_soundtech_ass.Prelude.{
  ℕ, ◌≡◌, refl, Bool, true, false, not, Option, none, some, List, [], ◌∷◌, ◌++◌, Result, ok, err,
  ◌>>=◌, length,
}
use project008_soundtech_ass.Prelude.Text.{Text}
use project008_soundtech_ass.Edit.Document.{Document}
use project008_soundtech_ass.Edit.Pointer.{KeyError, write}

-- `A` is the type of the values: documents in a journal, leaf values on the way to the desk.
pub record Patch (A : Type 0) : Type 0 where
  pub path : Text
  pub before : A
  pub after : A
  pub because : Text
  pub label : Text

pub record EditJournal (V : Type 0) : Type 0 where
  pub patches : List (Patch (Document V))

module _ {V : Type 0} where
  unfoldable pub append : Patch (Document V) → EditJournal V → EditJournal V
  append p j = record { patches = j.patches ++ (p ∷ []) }

  -- `list.pop`
  unfoldable pub pop :
      List (Patch (Document V)) → Option (Patch (Document V)) × List (Patch (Document V))
  pop [] = (none, [])
  pop (p ∷ []) = (some p, [])
  pop (p ∷ q ∷ ps) = let (last, rest) = pop (q ∷ ps) in (last, p ∷ rest)

  unfoldable pub undo : EditJournal V → Option (Patch (Document V)) × EditJournal V
  unfolding pop
  undo j = let (last, rest) = pop j.patches in (last, record { patches = rest })

  unfoldable pub apply_all : Document V → List (Patch (Document V)) → Result KeyError (Document V)
  apply_all document [] = ok document
  apply_all document (p ∷ ps) = elim (write document p.path p.after) [
    | ok document' ↦ apply_all document' ps
    | err e ↦ err e
  ]

  unfoldable pub applied : Document V → EditJournal V → Result KeyError (Document V)
  unfolding apply_all
  applied document j = apply_all document j.patches
