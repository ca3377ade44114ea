-- ===== src/Console/Ledger/Run.antt =====
-- A revert run hands out the revertible rows, last written first, between one start and one finish.
use project008_soundtech_ass.Prelude.{
  ◌≡◌, refl, Bool, false, none, some, List, [], ◌∷◌, ◌++◌, arith, reverse, filter_by, ◌∙◌,
  append_assoc, ap, length, ◌+◌, ◌-◌, ℕ,
}
use project008_soundtech_ass.Console.Ledger.{
  Emitted, run_started, run_finished, routed, reverted, SentLedger, advance, revert_all, step_done,
}

module _ {R : Type 0} where
  -- Each row that is handed out is written, and the run goes on.
  abbrev pub all_done : List R → SentLedger R → SentLedger R
  all_done [] l = l
  all_done (r ∷ rest) l = all_done rest (step_done (some r) l)

  -- What a run over the rows emits after its start.
  abbrev pub each_done : List R → List (Emitted R)
  each_done [] = run_finished ∷ []
  each_done (r ∷ rest) = routed r ∷ reverted r ∷ each_done rest

  advance_cons :
      (r : R) (rest : List R) (l : SentLedger R) (total done : ℕ)
      → l.queue ≡ some (record { pending = r ∷ rest; total = total; done = done; stopped = false })
      → advance l ≡ record l {
        queue = some (record { pending = rest; total = total; done = done + 1; stopped = false });
        emitted = l.emitted ++ (routed r ∷ []);
      }
  unfolding advance
  advance_cons r rest l total done e = ground arith

  step_done-advance :
      (r : R) (l : SentLedger R)
      → step_done (some r) l ≡ advance (record l { emitted = l.emitted ++ (reverted r ∷ []) })
  unfolding step_done
  step_done-advance r l = refl

  -- The ledger after `r` was handed out and sent, before the next row is.
  abbrev after : R → List R → ℕ → ℕ → SentLedger R → SentLedger R
  after r rest total done l = record l {
    queue = some (record { pending = rest; total = total; done = done + 1; stopped = false });
    emitted = (l.emitted ++ (routed r ∷ [])) ++ (reverted r ∷ []);
  }

  all_done-cons :
      (r : R) (rest : List R) (l : SentLedger R) (total done : ℕ)
      → l.queue ≡ some (record { pending = r ∷ rest; total = total; done = done; stopped = false })
      → all_done (r ∷ rest) (advance l) ≡ all_done rest (advance (after r rest total done l))
  all_done-cons r rest l total done e =
      ap (all_done rest)
        (ap (step_done (some r)) (advance_cons r rest l total done e) ∙ step_done-advance r _)

  all_done-advance :
      (rest : List R) (l : SentLedger R) (total done : ℕ)
      → l.queue ≡ some (record { pending = rest; total = total; done = done; stopped = false })
      → ((all_done rest (advance l)).emitted ≡ l.emitted ++ each_done rest)
        × ((all_done rest (advance l)).queue ≡ none)
  all_done-advance [] l total done e = unfold advance in ground arith
  all_done-advance (r ∷ rest) l total done e =
      let (told, closed) =
        all_done-advance rest (after r rest total done l) total (done + 1) refl in
      let same = all_done-cons r rest l total done e in
      (ap (λ m. m.emitted) same ∙ (told ∙ simp append_assoc), ap (λ m. m.queue) same ∙ closed)

module _ {R : Type 0} (known : R → Bool) where
  abbrev pub revertible : SentLedger R → List R
  revertible l = reverse (filter_by known l.records)

  abbrev open_run : SentLedger R → SentLedger R
  open_run l = record l {
    queue = some (record {
      pending = revertible l;
      total = length (filter_by known l.records);
      done = 0;
      stopped = false;
    });
    skipped = length l.records - length (filter_by known l.records);
    emitted = l.emitted ++ (run_started ∷ []);
  }

  revert_all_open : (l : SentLedger R) → l.queue ≡ none → revert_all known l ≡ advance (open_run l)
  unfolding revert_all
  revert_all_open l e = ground arith

  -- If no run is open and every row that is handed out is sent, `revert_all` emits its start, then
  -- each row whose desk value is known, from the last written to the first, each reverted before the
  -- next is handed out, and then its finish; and no run is open.
  pub revert_all-each_done :
      (l : SentLedger R)
      → l.queue ≡ none
      → ((all_done (revertible l) (revert_all known l)).emitted
          ≡ l.emitted ++ (run_started ∷ each_done (revertible l)))
        × ((all_done (revertible l) (revert_all known l)).queue ≡ none)
  revert_all-each_done l e =
      let opened = open_run l in
      let (told, closed) = all_done-advance (revertible l) opened _ 0 refl in
      let same = ap (all_done (revertible l)) (revert_all_open l e) in
      (ap (λ m. m.emitted) same ∙ (told ∙ simp append_assoc), ap (λ m. m.queue) same ∙ closed)
