-- ===== src/Edit/Journal/Replay.antt =====
-- Undo drops the last patch, and the document that a journal gives holds the last patch of each path.
use project008_soundtech_ass.Prelude.{
  ◌≡◌, refl, true, false, ◌||◌, not, some, List, [], ◌∷◌, ◌++◌, Result, ok, err, arith, ap, ◌∙◌,
  if◌then◌else◌, ◌==◌, ==→eq, Bool-cases, inl, inr,
}
use project008_soundtech_ass.Prelude.Text.{Text, text_eq, split}
use project008_soundtech_ass.Net.Address.{dot}
use project008_soundtech_ass.Edit.Document.{Document}
use project008_soundtech_ass.Edit.Pointer.{KeyError, read, write}
use project008_soundtech_ass.Edit.Pointer.Laws.{overlap, read-write, read-write_apart}
use project008_soundtech_ass.Edit.Journal.{
  Patch, EditJournal, append, pop, undo, apply_all, applied,
}

module _ {V : Type 0} where
  pop-append :
      (ps : List (Patch (Document V))) (p : Patch (Document V))
      → pop (ps ++ (p ∷ [])) ≡ (some p, ps)
  unfolding pop
  pop-append [] p = refl
  pop-append (q ∷ []) p = refl
  pop-append (q ∷ r ∷ ps) p = rw (pop-append (r ∷ ps) p)

  abbrev pub then_write :
      Result KeyError (Document V) → Patch (Document V) → Result KeyError (Document V)
  then_write (ok d) p = write d p.path p.after
  then_write (err e) p = err e

  apply_all-append :
      (d : Document V) (ps : List (Patch (Document V))) (p : Patch (Document V))
      → apply_all d (ps ++ (p ∷ [])) ≡ then_write (apply_all d ps) p
  unfolding apply_all
  apply_all-append d [] p = ground arith
  apply_all-append d (q ∷ ps) p = go (write d q.path q.after) (λ d'. apply_all-append d' ps p)
    where
      go :
          (r : Result KeyError (Document V))
          → ((d' : Document V) → apply_all d' (ps ++ (p ∷ [])) ≡ then_write (apply_all d' ps) p)
          → ◌≡◌ {A = Result KeyError (Document V)}
              (elim r [ ok d' ↦ apply_all d' (ps ++ (p ∷ [])) | err e ↦ err e ])
              (then_write (elim r [ ok d' ↦ apply_all d' ps | err e ↦ err e ]) p)
      go (ok d') ih = ih d'
      go (err e) ih = refl

  -- Undo after an append gives the patch back and restores the journal; and a journal with one more
  -- patch gives what that patch writes into the document of the journal without it.
  undo-append :
      (d : Document V) (j : EditJournal V) (p : Patch (Document V))
      → (undo (append p j) ≡ (some p, j)) × (applied d (append p j) ≡ then_write (applied d j) p)
  unfolding undo append applied
  undo-append d j p = (rw (pop-append j.patches p), apply_all-append d j.patches p)

  -- The value of the last patch at the path, or `old`.
  abbrev pub last_at :
      Text → List (Patch (Document V)) → Result KeyError (Document V) → Result KeyError (Document V)
  last_at q [] old = old
  last_at q (p ∷ ps) old = last_at q ps (if p.path == q then ok p.after else old)

  -- No patch at another path leads into `q` or the other way round.
  abbrev pub IsApart : Text → List (Patch (Document V)) → Type 0
  IsApart q [] = Unit
  IsApart q (p ∷ ps) =
      ((p.path == q || not (overlap (split dot p.path) (split dot q))) ≡ true) × IsApart q ps

  apply_all-inv :
      (d d' : Document V) (p : Patch (Document V)) (ps : List (Patch (Document V)))
      → apply_all d (p ∷ ps) ≡ ok d'
      → (d₁ : Document V) × (write d p.path p.after ≡ ok d₁) × (apply_all d₁ ps ≡ ok d')
  unfolding apply_all
  apply_all-inv d d' p ps = go (write d p.path p.after)
    where
      go :
          (r : Result KeyError (Document V))
          → ◌≡◌ {A = Result KeyError (Document V)}
              (elim r [ ok document' ↦ apply_all document' ps | err e ↦ err e ])
              (ok d')
          → (d₁ : Document V) × (r ≡ ok d₁) × (apply_all d₁ ps ≡ ok d')
      go (ok d₁) h = (d₁, refl, h)
      go (err e) h = cc

  read_step :
      (d d₁ : Document V) (p : Patch (Document V)) (q : Text)
      → write d p.path p.after ≡ ok d₁
      → ((p.path == q) ≡ false → overlap (split dot p.path) (split dot q) ≡ false)
      → read d₁ q ≡ (if p.path == q then ok p.after else read d q)
  read_step d d₁ p q w a = elim (Bool-cases (p.path == q)) [
    | inl e ↦ rw e (rw (← ==→eq p.path q e) (read-write d d₁ p.after p.path w))
    | inr n ↦ rw n (read-write_apart d d₁ p.after p.path q w (a n))
  ]

  read-apply_all :
      (ps : List (Patch (Document V))) (d d' : Document V) (q : Text)
      → apply_all d ps ≡ ok d'
      → IsApart q ps
      → read d' q ≡ last_at q ps (read d q)
  read-apply_all [] d d' q h a = unfold apply_all in ap (λ c. read c q) (ground arith)
  read-apply_all (p ∷ ps) d d' q h a =
      let (d₁, w, rest) = apply_all-inv d d' p ps h in
      read-apply_all ps d₁ d' q rest a.1 ∙ ap (last_at q ps) (read_step d d₁ p q w (apart a.0))
    where
      apart :
          (p.path == q || not (overlap (split dot p.path) (split dot q))) ≡ true
          → (p.path == q) ≡ false
          → overlap (split dot p.path) (split dot q) ≡ false
      apart u n = ground arith

  -- If the journal applies and no other path that it patches overlaps `q`, the document that it gives
  -- reads at `q` the value of the last patch at `q`, or what the loaded document reads there if no
  -- patch is at `q`.
  pub read-applied :
      (d d' : Document V) (j : EditJournal V) (q : Text)
      → applied d j ≡ ok d'
      → IsApart q j.patches
      → read d' q ≡ last_at q j.patches (read d q)
  unfolding applied
  read-applied d d' j q h a = read-apply_all j.patches d d' q h a
