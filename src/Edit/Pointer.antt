-- ===== src/Edit/Pointer.antt =====
-- wing_parser/edit/pointer.py: read and write one node of a document by its dotted path.
pub mod Laws
use project008_soundtech_ass.Prelude.{
  ◌≡◌, refl, Bool, true, false, Option, none, some, List, [], ◌∷◌, ◌++◌, Result, ok, err, ◌>>=◌,
}
use project008_soundtech_ass.Prelude.Text.{Text, split, join}
use project008_soundtech_ass.Net.Address.{dot}
use project008_soundtech_ass.Edit.Document.{Document, leaf, dict, Fields, get, put}

-- The message of a `KeyError`: the path as far as the walk got.
pub data KeyError : Type 0 where
  no_key : Text → KeyError

module _ {V : Type 0} where
  -- `_walk` through `segments`, `done` being those already walked
  unfoldable pub walk : List Text → List Text → Document V → Result KeyError (Document V)
  walk done [] node = ok node
  walk done (s ∷ rest) (leaf v) = err (no_key (join dot (done ++ (s ∷ []))))
  walk done (s ∷ rest) (dict fs) = elim (get s fs) [
    | none ↦ err (no_key (join dot (done ++ (s ∷ []))))
    | some child ↦ walk (done ++ (s ∷ [])) rest child
  ]

  unfoldable pub read : Document V → Text → Result KeyError (Document V)
  unfolding walk
  read document path = walk [] (split dot path) document

  -- `write` walks to the parent and assigns its last segment, which must be there. The document is
  -- changed in place, so the nodes on the way come back with the new child.
  unfoldable pub write_at :
      List Text → List Text → Document V → Document V → Result KeyError (Document V)
  write_at done [] value node = ok value
  write_at done (s ∷ rest) value (leaf v) = err (no_key (join dot (done ++ (s ∷ []))))
  write_at done (s ∷ rest) value (dict fs) = elim (get s fs) [
    | none ↦ err (no_key (join dot (done ++ (s ∷ []))))
    | some child ↦
        write_at (done ++ (s ∷ [])) rest value child >>= λ child'. ok (dict (put s child' fs))
  ]

  unfoldable pub write : Document V → Text → Document V → Result KeyError (Document V)
  unfolding write_at
  write document path value = write_at [] (split dot path) value document
