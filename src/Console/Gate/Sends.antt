-- ===== src/Console/Gate/Sends.antt =====
-- No packet without both gates.
use project008_soundtech_ass.Prelude.{
  ◌≡◌, refl, false, List, [], ◌∷◌, ◌++◌, arith, Option-cases, inl, inr, ◌∙◌, ap, All, append-nil,
}
use project008_soundtech_ass.Console.Live.{Event}
use project008_soundtech_ass.Console.Arm.{armed, disarm}
use project008_soundtech_ass.Console.Queue.{pump_pending}
use project008_soundtech_ass.Console.Gate.{
  WriteGate, Notice, sent, ended, crashed, Settled, Operation, submit_job, call_settled, close_gate,
  ending_of, fire_event, arm_gate, notices, ready, start, pumped, submit, settled, close, told,
  fire, step, run,
}
use project008_soundtech_ass.Console.Gate.Pump.{
  all_refused, pump-not_ready, submit_busy, submit_free, freed, settled_call, settled_idle,
}

-- The jobs whose call was started.
abbrev pub sends : {J : Type 0} → List (Notice J) → List J
sends [] = []
sends (sent x ∷ l) = x ∷ sends l
sends (_ ∷ l) = sends l

sends-append : {J : Type 0} (l m : List (Notice J)) → sends (l ++ m) ≡ sends l ++ sends m
sends-append [] m = refl
sends-append (sent x ∷ l) m = ap (λ ys. x ∷ ys) (sends-append l m)
sends-append (ended x e ∷ l) m = sends-append l m
sends-append (crashed x ∷ l) m = sends-append l m

sends-all_refused : {J : Type 0} (xs : List J) → sends (notices (all_refused xs)) ≡ []
unfolding notices
sends-all_refused [] = refl
sends-all_refused (x ∷ xs) =
    sends-append (notices (all_refused xs)) _ ∙ (append-nil _ ∙ sends-all_refused xs)

sends-told : {J : Type 0} (xs : List J) → sends (told xs) ≡ []
unfolding told
sends-told [] = refl
sends-told (x ∷ xs) = sends-told xs

sends_quiet : {J : Type 0} (l m : List (Notice J)) → sends m ≡ [] → sends (l ++ m) ≡ sends l
sends_quiet l m q = sends-append l m ∙ (ap (λ ys. sends l ++ ys) q ∙ append-nil (sends l))

module _ {J I S H : Type 0} where
  pumped_quiet :
      (g : WriteGate J I S H) (xs : List J)
      → ready g ≡ false
      → sends (pumped g (pump_pending (start g) xs)).log ≡ sends g.log
  unfolding pumped
  pumped_quiet g xs r =
      rw (pump-not_ready g xs r)
        (sends_quiet g.log (notices (all_refused xs)) (sends-all_refused xs))

  submit_quiet :
      (job : J) (g : WriteGate J I S H) → ready g ≡ false → sends (submit job g).log ≡ sends g.log
  submit_quiet job g r = elim (Option-cases g.queue.in_flight) [
    | inl e ↦ rw (submit_free job g e) (pumped_quiet g (g.queue.pending ++ (job ∷ [])) r)
    | inr (y, e) ↦ rw (submit_busy job y g e) (sends_quiet g.log [] refl)
  ]

  ready-freed : (g : WriteGate J I S H) → ready (freed g) ≡ ready g
  unfolding ready
  ready-freed g = refl

  settled_quiet :
      (how : Settled) (g : WriteGate J I S H)
      → ready g ≡ false
      → sends (settled how g).log ≡ sends g.log
  settled_quiet how g r = elim (Option-cases g.active) [
    | inl e ↦ rw (settled_idle how g e)
    | inr (job, e) ↦
        let free = pumped (freed g) (pump_pending (start (freed g)) g.queue.pending) in
        rw (settled_call how job g e) (
          sends_quiet free.log (ended job (ending_of how) ∷ []) refl
          ∙ pumped_quiet (freed g) g.queue.pending (ready-freed g ∙ r))
  ]

  close_quiet : (g : WriteGate J I S H) → sends (close g).log ≡ sends g.log
  unfolding close
  close_quiet g = sends_quiet g.log (told g.queue.pending) (sends-told g.queue.pending)

  fire_quiet : (e : Event) (g : WriteGate J I S H) → (fire e g).log ≡ g.log
  unfolding fire
  fire_quiet e g = ground arith

  -- While the page offers no write or the gate is not armed, no operation starts a call.
  step_quiet :
      (op : Operation J I S H) (g : WriteGate J I S H)
      → ready g ≡ false
      → sends (step op g).log ≡ sends g.log
  unfolding step
  step_quiet (submit_job job) g r = submit_quiet job g r
  step_quiet (call_settled how) g r = settled_quiet how g r
  step_quiet close_gate g r = close_quiet g
  step_quiet (fire_event e) g r = ap sends (fire_quiet e g)
  step_quiet (arm_gate i s h) g r = refl

  abbrev pub NotArming : Operation J I S H → Type 0
  NotArming (arm_gate _ _ _) = ⊥
  NotArming _ = Unit

  step-arming :
      (op : Operation J I S H) (g : WriteGate J I S H)
      → NotArming op
      → armed g.arming ≡ false
      → armed (step op g).arming ≡ false
  unfolding step
  step-arming (submit_job job) g n a = a
  step-arming (call_settled how) g n a = ground arith
  step-arming close_gate g n a = unfold close armed disarm in refl
  step-arming (fire_event e) g n a = ground arith
  step-arming (arm_gate i s h) g n a = absurd n

  unarmed : (g : WriteGate J I S H) → armed g.arming ≡ false → ready g ≡ false
  unfolding ready
  unarmed g a = ground arith

  run_quiet :
      (ops : List (Operation J I S H)) (g : WriteGate J I S H)
      → All NotArming ops
      → armed g.arming ≡ false
      → sends (run ops g).log ≡ sends g.log
  unfolding run
  run_quiet [] g n a = refl
  run_quiet (op ∷ ops) g n a =
      run_quiet ops (step op g) n.1 (step-arming op g n.0 a) ∙ step_quiet op g (unarmed g a)

  -- After `close` no call is started until somebody arms the gate again, whatever else happens.
  pub close-quiet :
      (g : WriteGate J I S H) (ops : List (Operation J I S H))
      → All NotArming ops
      → sends (run ops (close g)).log ≡ sends g.log
  close-quiet g ops n =
      run_quiet ops (close g) n (unfold close armed disarm in refl) ∙ close_quiet g
