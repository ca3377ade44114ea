-- ===== src/Console/Gate/Count.antt =====
-- Each submitted job has one place: waiting, in flight, or told once how it ended.
use project008_soundtech_ass.Prelude.{
  ℕ, ◌+◌, ◌≡◌, refl, Bool, true, Option, none, some, List, [], ◌∷◌, ◌++◌, arith, Bool-cases,
  Option-cases, inl, inr, ap, sym, if◌then◌else◌, ◌∙◌,
}
use project008_soundtech_ass.Console.Live.{Event}
use project008_soundtech_ass.Console.Queue.{pump_pending}
use project008_soundtech_ass.Console.Gate.{
  WriteGate, Notice, sent, ended, crashed, Settled, Operation, submit_job, call_settled, close_gate,
  ending_of, fire_event, arm_gate, notices, ready, start, pumped, submit, settled, close, told,
  fire, step, run, new_gate,
}
use project008_soundtech_ass.Console.Gate.Pump.{
  all_refused, pump-ready, pump-not_ready, submit_busy, submit_free, freed, settled_call,
  settled_idle,
}
use project008_soundtech_ass.Console.Gate.Wire.{IsWired, step-IsWired, IsWired-new}

module _ {J : Type 0} (p : J → Bool) where
  -- How many of the jobs satisfy `p`.
  abbrev pub count : List J → ℕ
  count [] = 0
  count (x ∷ xs) = (if p x then 1 else 0) + count xs

  abbrev pub count_one : Option J → ℕ
  count_one none = 0
  count_one (some x) = if p x then 1 else 0

  -- How many callbacks of such jobs were called.
  abbrev pub count_ended : List (Notice J) → ℕ
  count_ended [] = 0
  count_ended (ended x _ ∷ l) = (if p x then 1 else 0) + count_ended l
  count_ended (_ ∷ l) = count_ended l

  count-append : (xs ys : List J) → count (xs ++ ys) ≡ count xs + count ys
  count-append [] ys = omega arith
  count-append (x ∷ xs) ys = omega (arith, count-append xs ys)

  count_ended-append :
      (l m : List (Notice J)) → count_ended (l ++ m) ≡ count_ended l + count_ended m
  count_ended-append [] m = omega arith
  count_ended-append (sent x ∷ l) m = count_ended-append l m
  count_ended-append (ended x e ∷ l) m = omega (arith, count_ended-append l m)
  count_ended-append (crashed x ∷ l) m = count_ended-append l m

  count_ended-all_refused : (xs : List J) → count_ended (notices (all_refused xs)) ≡ count xs
  unfolding notices
  count_ended-all_refused [] = refl
  count_ended-all_refused (x ∷ xs) =
      omega (arith, count_ended-all_refused xs, count_ended-append (notices (all_refused xs)))

  count_ended-told : (xs : List J) → count_ended (told xs) ≡ count xs
  unfolding told
  count_ended-told [] = refl
  count_ended-told (x ∷ xs) = omega (arith, count_ended-told xs)

module _ {J I S H : Type 0} (p : J → Bool) where
  -- The jobs that the gate holds and the callbacks that it has called.
  abbrev pub balance : WriteGate J I S H → ℕ
  balance g = count_ended p g.log + count_one p g.queue.in_flight + count p g.queue.pending

  balance-pumped :
      (g : WriteGate J I S H) (xs : List J)
      → g.active ≡ none
      → balance (pumped g (pump_pending (start g) xs)) ≡ count_ended p g.log + count p xs
  unfolding pumped
  balance-pumped g xs a = elim (Bool-cases (ready g)) [
    | inl r ↦ ready_case xs r
    | inr r ↦ rw (pump-not_ready g xs r) (
        omega (
          arith,
          count_ended-append p g.log (notices (all_refused xs)),
          count_ended-all_refused p xs,
        ))
  ]
    where
      ready_case :
          (ys : List J)
          → ready g ≡ true
          → balance (pumped g (pump_pending (start g) ys)) ≡ count_ended p g.log + count p ys
      ready_case [] r = unfold pump_pending notices in omega (arith, count_ended-append p g.log [])
      ready_case (x ∷ ys) r =
          rw (pump-ready g x ys r a)
            (unfold notices in omega (arith, count_ended-append p g.log (sent x ∷ [])))

  abbrev submitted : Operation J I S H → List J
  submitted (submit_job job) = job ∷ []
  submitted _ = []

  -- The jobs that the operations submit.
  abbrev pub all_submitted : List (Operation J I S H) → List J
  all_submitted [] = []
  all_submitted (op ∷ ops) = submitted op ++ all_submitted ops

  balance-submit :
      (job : J) (g : WriteGate J I S H)
      → IsWired g
      → balance (submit job g) ≡ balance g + count p (job ∷ [])
  balance-submit job g w = elim (Option-cases g.queue.in_flight) [
    | inl e ↦ rw (submit_free job g e) (
        rw (balance-pumped g _ (w.same ∙ e), e)
          (omega (arith, count-append p g.queue.pending (job ∷ []))))
    | inr (y, e) ↦
        rw (submit_busy job y g e)
          (omega (arith, count-append p g.queue.pending (job ∷ []), count_ended-append p g.log []))
  ]

  balance-settled :
      (how : Settled) (g : WriteGate J I S H) → IsWired g → balance (settled how g) ≡ balance g
  balance-settled how g w = elim (Option-cases g.active) [
    | inl e ↦ rw (settled_idle how g e)
    | inr (job, e) ↦
        let free = pumped (freed g) (pump_pending (start (freed g)) g.queue.pending) in
        rw (settled_call how job g e) (
          omega (
            arith,
            count_ended-append p free.log (ended job (ending_of how) ∷ []),
            balance-pumped (freed g) g.queue.pending refl,
            ap (count_one p) (sym w.same ∙ e),
          ))
  ]

  balance_close : (g : WriteGate J I S H) → balance (close g) ≡ balance g
  unfolding close
  balance_close g =
      omega (
        arith,
        count_ended-append p g.log (told g.queue.pending),
        count_ended-told p g.queue.pending,
      )

  balance-fire : (e : Event) (g : WriteGate J I S H) → balance (fire e g) ≡ balance g
  unfolding fire
  balance-fire e g = ground arith

  balance-step :
      (op : Operation J I S H) (g : WriteGate J I S H)
      → IsWired g
      → balance (step op g) ≡ balance g + count p (submitted op)
  unfolding step
  balance-step (submit_job job) g w = balance-submit job g w
  balance-step (call_settled how) g w = omega (arith, balance-settled how g w)
  balance-step close_gate g w = omega (arith, balance_close g)
  balance-step (fire_event e) g w = omega (arith, balance-fire e g)
  balance-step (arm_gate i s h) g w = omega arith

  balance-run :
      (ops : List (Operation J I S H)) (g : WriteGate J I S H)
      → IsWired g
      → balance (run ops g) ≡ balance g + count p (all_submitted ops)
  unfolding run
  balance-run [] g w = omega arith
  balance-run (op ∷ ops) g w = omega (
    arith,
    balance-run ops (step op g) (step-IsWired op g w),
    balance-step op g w,
    count-append p (submitted op) (all_submitted ops),
  )

  -- Whatever happens to a new gate, the jobs submitted are, counted by any test, the jobs whose
  -- callback was called, the one in flight and those pending.
  pub run-balance :
      (ops : List (Operation J I S H)) → count p (all_submitted ops) ≡ balance (run ops new_gate)
  run-balance ops = omega (arith, balance-run ops new_gate IsWired-new)
