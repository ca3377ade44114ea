-- ===== src/Console/Ledger/Bracket.antt =====
-- The runs of a ledger are bracketed, and only rows that can be reverted are handed out.
use project008_soundtech_ass.Prelude.{
  ◌≡◌, refl, Bool, true, false, ◌&&◌, Option, none, some, List, [], ◌∷◌, ◌++◌, arith, reverse,
  filter_by, ◌+◌, ℕ, Option-cases, inl, inr, length, ap, ◌-◌, suc, Bool-cases,
}
use mathlib.Core.List.{reverse_aux}
use project008_soundtech_ass.Console.Ledger.{
  RevertQueue, next, hand_out, stop, Emitted, run_started, run_finished, routed, reverted,
  SentLedger, end_run, handed, advance, revert_all, stop_run, Operation, add_row, press_revert_all,
  press_stop, row_sent, step, run, new_ledger,
}

module _ {R : Type 0} where
  abbrev pub starts : List (Emitted R) → ℕ
  starts [] = 0
  starts (run_started ∷ l) = suc (starts l)
  starts (_ ∷ l) = starts l

  abbrev pub finishes : List (Emitted R) → ℕ
  finishes [] = 0
  finishes (run_finished ∷ l) = suc (finishes l)
  finishes (_ ∷ l) = finishes l

  -- 1 while a run is open.
  abbrev pub opened_of : Option (RevertQueue R) → ℕ
  opened_of none = 0
  opened_of (some _) = 1

  abbrev pub opened : SentLedger R → ℕ
  opened l = opened_of l.queue

  starts-append : (l m : List (Emitted R)) → starts (l ++ m) ≡ starts l + starts m
  starts-append [] m = omega arith
  starts-append (run_started ∷ l) m = omega (arith, starts-append l m)
  starts-append (run_finished ∷ l) m = starts-append l m
  starts-append (routed r ∷ l) m = starts-append l m
  starts-append (reverted r ∷ l) m = starts-append l m

  finishes-append : (l m : List (Emitted R)) → finishes (l ++ m) ≡ finishes l + finishes m
  finishes-append [] m = omega arith
  finishes-append (run_started ∷ l) m = finishes-append l m
  finishes-append (run_finished ∷ l) m = omega (arith, finishes-append l m)
  finishes-append (routed r ∷ l) m = finishes-append l m
  finishes-append (reverted r ∷ l) m = finishes-append l m

module _ {R : Type 0} (known : R → Bool) where
  abbrev pub all_known : List R → Bool
  all_known [] = true
  all_known (r ∷ l) = known r && all_known l

  abbrev pub routed_known : List (Emitted R) → Bool
  routed_known [] = true
  routed_known (routed r ∷ l) = known r && routed_known l
  routed_known (_ ∷ l) = routed_known l

  abbrev pending_known : SentLedger R → Bool
  pending_known l = elim l.queue [ none ↦ true | some q ↦ all_known q.pending ]

  routed_known-append :
      (l m : List (Emitted R))
      → routed_known l ≡ true
      → routed_known m ≡ true
      → routed_known (l ++ m) ≡ true
  routed_known-append [] m h k = k
  routed_known-append (routed r ∷ l) m h k = ground (arith, routed_known-append l m)
  routed_known-append (run_started ∷ l) m h k = routed_known-append l m h k
  routed_known-append (run_finished ∷ l) m h k = routed_known-append l m h k
  routed_known-append (reverted r ∷ l) m h k = routed_known-append l m h k

  all_known-filter_by : (l : List R) → all_known (filter_by known l) ≡ true
  all_known-filter_by [] = refl
  all_known-filter_by (r ∷ l) = ground (arith, all_known-filter_by l)

  all_known-reverse_aux :
      (l m : List R) → all_known l ≡ true → all_known m ≡ true → all_known (reverse_aux l m) ≡ true
  all_known-reverse_aux [] m h k = k
  all_known-reverse_aux (r ∷ l) m h k =
      all_known-reverse_aux l (r ∷ m) (ground arith) (ground arith)

  -- Runs started are runs finished and the one open, and rows handed out have a known desk value.
  pub record IsBracketed (l : SentLedger R) : Type 0 where
    pub paired : starts l.emitted ≡ finishes l.emitted + opened l
    pub safe : routed_known l.emitted ≡ true
    waiting : pending_known l ≡ true

  advance_closed : (l : SentLedger R) → l.queue ≡ none → advance l ≡ l
  unfolding advance
  advance_closed l e = ground arith

  advance_open :
      (l : SentLedger R) (q : RevertQueue R) → l.queue ≡ some q → advance l ≡ handed (next q) l
  unfolding advance
  advance_open l q e = ground arith

  stop_closed : (l : SentLedger R) → l.queue ≡ none → stop_run l ≡ l
  unfolding stop_run
  stop_closed l e = ground arith

  stop_open :
      (l : SentLedger R) (q : RevertQueue R)
      → l.queue ≡ some q
      → stop_run l ≡ end_run (record l { queue = some (stop q) })
  unfolding stop_run
  stop_open l q e = ground arith

  abbrev started : SentLedger R → SentLedger R
  started l = record l {
    queue = some (record {
      pending = reverse (filter_by known l.records);
      total = length (filter_by known l.records);
      done = 0;
      stopped = false;
    });
    skipped = length l.records - length (filter_by known l.records);
    emitted = l.emitted ++ (run_started ∷ []);
  }

  revert_all_closed : (l : SentLedger R) → l.queue ≡ none → revert_all known l ≡ advance (started l)
  unfolding revert_all
  revert_all_closed l e = ground arith

  revert_all_open :
      (l : SentLedger R) (q : RevertQueue R) → l.queue ≡ some q → revert_all known l ≡ l
  unfolding revert_all
  revert_all_open l q e = ground arith

  abbrev handed_known : Option R × RevertQueue R → Bool
  handed_known (o, q) = (elim o [ none ↦ true | some r ↦ known r ]) && all_known q.pending

  hand_out-known :
      (rs : List R) (q : RevertQueue R)
      → all_known rs ≡ true
      → q.pending ≡ rs
      → handed_known (hand_out rs q) ≡ true
  unfolding hand_out
  hand_out-known [] q h e = rw e
  hand_out-known (r ∷ rs) q h e = h

  next-known : (q : RevertQueue R) → all_known q.pending ≡ true → handed_known (next q) ≡ true
  unfolding next
  next-known q h = elim (Bool-cases q.stopped) [
    | inl s ↦ ground arith
    | inr s ↦ simp s (hand_out-known q.pending q h refl)
  ]

  end_run-IsBracketed :
      (l : SentLedger R)
      → starts l.emitted ≡ finishes l.emitted + 1
      → routed_known l.emitted ≡ true
      → IsBracketed (end_run l)
  unfolding end_run
  end_run-IsBracketed l p s = record {
    paired = omega (
      arith,
      starts-append l.emitted (run_finished ∷ []),
      finishes-append l.emitted (run_finished ∷ []),
    );
    safe = routed_known-append l.emitted (run_finished ∷ []) s refl;
    waiting = refl;
  }

  handed-IsBracketed :
      (oq : Option R × RevertQueue R) (l : SentLedger R)
      → handed_known oq ≡ true
      → starts l.emitted ≡ finishes l.emitted + 1
      → routed_known l.emitted ≡ true
      → IsBracketed (handed oq l)
  unfolding handed
  handed-IsBracketed (none, q) l h p s = end_run-IsBracketed (record l { queue = some q }) p s
  handed-IsBracketed (some r, q) l h p s = record {
    paired =
        omega (
          arith,
          starts-append l.emitted (routed r ∷ []),
          finishes-append l.emitted (routed r ∷ []),
        );
    safe = routed_known-append l.emitted (routed r ∷ []) s (ground arith);
    waiting = ground arith;
  }

  advance-IsBracketed : (l : SentLedger R) → IsBracketed l → IsBracketed (advance l)
  advance-IsBracketed l b = elim (Option-cases l.queue) [
    | inl e ↦ rw (advance_closed l e) b
    | inr (q, e) ↦
        rw (advance_open l q e)
          (handed-IsBracketed (next q) l (next-known q (ground arith)) (ground arith) b.safe)
  ]

  told-IsBracketed :
      (r : R) (l : SentLedger R)
      → IsBracketed l
      → IsBracketed (record l { emitted = l.emitted ++ (reverted r ∷ []) })
  told-IsBracketed r l b = record {
    paired = omega (
      arith,
      b.paired,
      starts-append l.emitted (reverted r ∷ []),
      finishes-append l.emitted (reverted r ∷ []),
    );
    safe = routed_known-append l.emitted (reverted r ∷ []) b.safe refl;
    waiting = b.waiting;
  }

  stop_run-IsBracketed : (l : SentLedger R) → IsBracketed l → IsBracketed (stop_run l)
  stop_run-IsBracketed l b = elim (Option-cases l.queue) [
    | inl e ↦ rw (stop_closed l e) b
    | inr (q, e) ↦
        rw (stop_open l q e)
          (end_run-IsBracketed (record l { queue = some (stop q) }) (ground arith) b.safe)
  ]

  revert_all-IsBracketed : (l : SentLedger R) → IsBracketed l → IsBracketed (revert_all known l)
  revert_all-IsBracketed l b = elim (Option-cases l.queue) [
    | inl e ↦ rw (revert_all_closed l e) (
        advance-IsBracketed (started l) (record {
          paired = omega (
            arith,
            b.paired,
            ap opened_of e,
            starts-append l.emitted (run_started ∷ []),
            finishes-append l.emitted (run_started ∷ []),
          );
          safe = routed_known-append l.emitted (run_started ∷ []) b.safe refl;
          waiting =
              all_known-reverse_aux (filter_by known l.records) [] (all_known-filter_by l.records)
                refl;
        }))
    | inr (q, e) ↦ rw (revert_all_open l q e) b
  ]

  step-IsBracketed :
      (op : Operation R) (l : SentLedger R) → IsBracketed l → IsBracketed (step known op l)
  step-IsBracketed (add_row r) l b =
      unfold step in record { paired = b.paired; safe = b.safe; waiting = b.waiting }
  step-IsBracketed press_revert_all l b = unfold step in revert_all-IsBracketed l b
  step-IsBracketed press_stop l b = unfold step in stop_run-IsBracketed l b
  step-IsBracketed (row_sent none) l b = unfold step in advance-IsBracketed l b
  step-IsBracketed (row_sent (some r)) l b =
      unfold step in advance-IsBracketed _ (told-IsBracketed r l b)

  run_from :
      (ops : List (Operation R)) (l : SentLedger R) → IsBracketed l → IsBracketed (run known ops l)
  unfolding run
  run_from [] l b = b
  run_from (op ∷ ops) l b = run_from ops (step known op l) (step-IsBracketed op l b)

  -- Whatever happens to a new ledger, the runs it started are those it finished and the one that is
  -- open, and every row that a run handed out has a known desk value to put back.
  pub run-bracketed :
      (ops : List (Operation R))
      → (starts (run known ops new_ledger).emitted
          ≡ finishes (run known ops new_ledger).emitted + opened (run known ops new_ledger))
        × (routed_known (run known ops new_ledger).emitted ≡ true)
  run-bracketed ops =
      let b = run_from ops new_ledger (record { paired = refl; safe = refl; waiting = refl }) in
      (b.paired, b.safe)
