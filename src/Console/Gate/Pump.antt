-- ===== src/Console/Gate/Pump.antt =====
-- What each operation of the gate does to the queue, as an equation between gates.
use project008_soundtech_ass.Prelude.{
  ◌≡◌, refl, true, false, Option, none, some, List, [], ◌∷◌, ◌++◌, arith,
}
use project008_soundtech_ass.Console.Queue.{launched, refused, Attempts, pump_pending}
use project008_soundtech_ass.Console.Gate.{
  WriteGate, ended, Settled, ending_of, running, ready, start, pumped, submit, settled,
}

abbrev pub all_refused : {J : Type 0} → List J → Attempts J
all_refused [] = []
all_refused (x ∷ xs) = (x, refused) ∷ all_refused xs

module _ {J I S H : Type 0} where
  -- A ready gate with an idle runner launches the first pending job.
  pub pump-ready :
      (g : WriteGate J I S H) (x : J) (xs : List J)
      → ready g ≡ true
      → g.active ≡ none
      → pump_pending (start g) (x ∷ xs)
        ≡ (record { pending = xs; in_flight = some x }, (x, launched) ∷ [])
  unfolding pump_pending start
  pump-ready g x xs r a = ground arith

  -- A gate that is not ready refuses every pending job.
  pub pump-not_ready :
      (g : WriteGate J I S H) (xs : List J)
      → ready g ≡ false
      → pump_pending (start g) xs ≡ (record { pending = []; in_flight = none }, all_refused xs)
  unfolding pump_pending start
  pump-not_ready g [] r = refl
  pump-not_ready g (x ∷ xs) r = ground (arith, pump-not_ready g xs r)

pub running-all_refused :
    {J : Type 0} (old : Option J) (xs : List J) → running old (all_refused xs) ≡ old
unfolding running
running-all_refused old [] = refl
running-all_refused old (x ∷ xs) = running-all_refused old xs

module _ {J I S H : Type 0} where
  pub submit_busy :
      (job y : J) (g : WriteGate J I S H)
      → g.queue.in_flight ≡ some y
      → submit job g ≡ record g {
        queue = record g.queue { pending = g.queue.pending ++ (job ∷ []) };
        log = g.log ++ [];
      }
  unfolding submit
  submit_busy job y g e = ground arith

  pub submit_free :
      (job : J) (g : WriteGate J I S H)
      → g.queue.in_flight ≡ none
      → submit job g ≡ pumped g (pump_pending (start g) (g.queue.pending ++ (job ∷ [])))
  unfolding submit
  submit_free job g e = ground arith

  abbrev pub freed : WriteGate J I S H → WriteGate J I S H
  freed g = record g { active = none }

  pub settled_call :
      (how : Settled) (job : J) (g : WriteGate J I S H)
      → g.active ≡ some job
      → settled how g ≡ (
          let g' = pumped (freed g) (pump_pending (start (freed g)) g.queue.pending) in
          record g' { log = g'.log ++ (ended job (ending_of how) ∷ []) })
  unfolding settled
  settled_call how job g e = ground arith

  pub settled_idle : (how : Settled) (g : WriteGate J I S H) → g.active ≡ none → settled how g ≡ g
  unfolding settled
  settled_idle how g e = ground arith
