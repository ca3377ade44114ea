-- ===== src/Console/Gate/Wire.antt =====
-- One write on the wire, and a runner that is never started while it runs.
use project008_soundtech_ass.Prelude.{
  ◌≡◌, refl, Bool, true, false, ◌||◌, Option, none, some, ap, List, [], ◌∷◌, ◌++◌, arith,
  Bool-cases, Option-cases, inl, inr, if◌then◌else◌, ◌∙◌,
}
use project008_soundtech_ass.Console.Live.{Event, transition}
use project008_soundtech_ass.Console.Queue.{pump_pending}
use project008_soundtech_ass.Console.Gate.{
  WriteGate, Notice, sent, ended, crashed, Ending, Settled, Operation, submit_job, call_settled,
  close_gate, ending_of, fire_event, arm_gate, notices, running, ready, start, pumped, submit,
  settled, close, told, fire, step, run, new_gate,
}
use project008_soundtech_ass.Console.Gate.Pump.{
  all_refused, pump-ready, pump-not_ready, running-all_refused, submit_busy, submit_free, freed,
  settled_call, settled_idle,
}

-- Every log entry satisfies `p`.
abbrev pub every : {J : Type 0} → (Notice J → Bool) → List (Notice J) → Bool
every p [] = true
every p (x ∷ l) = if p x then every p l else false

abbrev pub no_crash : {J : Type 0} → Notice J → Bool
no_crash (crashed _) = false
no_crash _ = true

every-append :
    {J : Type 0} (p : Notice J → Bool) (l m : List (Notice J))
    → every p l ≡ true
    → every p m ≡ true
    → every p (l ++ m) ≡ true
every-append p [] m h k = k
every-append p (x ∷ l) m h k = ground (arith, every-append p l m)

no_crash-all_refused : {J : Type 0} (xs : List J) → every no_crash (notices (all_refused xs)) ≡ true
unfolding notices
no_crash-all_refused [] = refl
no_crash-all_refused (x ∷ xs) =
    every-append no_crash (notices (all_refused xs)) _ (no_crash-all_refused xs) refl

no_crash-told : {J : Type 0} (xs : List J) → every no_crash (told xs) ≡ true
unfolding told
no_crash-told [] = refl
no_crash-told (x ∷ xs) = no_crash-told xs

abbrev pub is_nil : {A : Type 0} → List A → Bool
is_nil [] = true
is_nil (_ ∷ _) = false

abbrev pub is_some : {A : Type 0} → Option A → Bool
is_some none = false
is_some (some _) = true

free_slot :
    {A : Type 0} (o : Option A) (xs : List A)
    → (o ≡ none → xs ≡ [])
    → (is_some o || is_nil xs) ≡ true
free_slot (some x) xs h = refl
free_slot none xs h = ap is_nil (h refl)

-- The runner runs the job in flight, a free slot leaves nothing pending, and `_start` never raised.
pub record IsWired {J I S H : Type 0} (g : WriteGate J I S H) : Type 0 where
  pub same : g.active ≡ g.queue.in_flight
  pub busy : g.queue.in_flight ≡ none → g.queue.pending ≡ []
  pub calm : every no_crash g.log ≡ true

module _ {J I S H : Type 0} where
  pumped_not_ready :
      (g : WriteGate J I S H) (xs : List J)
      → ready g ≡ false
      → g.active ≡ none
      → every no_crash g.log ≡ true
      → IsWired (pumped g (pump_pending (start g) xs))
  unfolding pumped
  pumped_not_ready g xs r a c = rw (pump-not_ready g xs r) (record {
    same = running-all_refused g.active xs ∙ a;
    busy = λ _. refl;
    calm = every-append no_crash g.log (notices (all_refused xs)) c (no_crash-all_refused xs);
  })

  pumped-ready :
      (g : WriteGate J I S H) (xs : List J)
      → ready g ≡ true
      → g.active ≡ none
      → every no_crash g.log ≡ true
      → IsWired (pumped g (pump_pending (start g) xs))
  unfolding pumped notices running
  pumped-ready g [] r a c = record {
    same = unfold pump_pending in a;
    busy = unfold pump_pending in λ _. refl;
    calm = unfold pump_pending in every-append no_crash g.log [] c refl;
  }
  pumped-ready g (x ∷ xs) r a c = rw (pump-ready g x xs r a) (record {
    same = refl;
    busy = λ h. cc;
    calm = every-append no_crash g.log (sent x ∷ []) c refl;
  })

  pumped-IsWired :
      (g : WriteGate J I S H) (xs : List J)
      → g.active ≡ none
      → every no_crash g.log ≡ true
      → IsWired (pumped g (pump_pending (start g) xs))
  pumped-IsWired g xs a c = elim (Bool-cases (ready g)) [
    | inl r ↦ pumped-ready g xs r a c
    | inr r ↦ pumped_not_ready g xs r a c
  ]

  submit-IsWired : (job : J) (g : WriteGate J I S H) → IsWired g → IsWired (submit job g)
  submit-IsWired job g w = elim (Option-cases g.queue.in_flight) [
    | inl e ↦
        rw (submit_free job g e)
          (pumped-IsWired g (g.queue.pending ++ (job ∷ [])) (w.same ∙ e) w.calm)
    | inr (y, e) ↦ rw (submit_busy job y g e) (record {
      same = w.same;
      busy = λ h. cc (e, h);
      calm = every-append no_crash g.log [] w.calm refl;
    })
  ]

  ended-IsWired :
      (g : WriteGate J I S H) (job : J) (how : Ending)
      → IsWired g
      → IsWired (record g { log = g.log ++ (ended job how ∷ []) })
  ended-IsWired g job how w = record {
    same = w.same;
    busy = w.busy;
    calm = every-append no_crash g.log (ended job how ∷ []) w.calm refl;
  }

  settled-IsWired : (how : Settled) (g : WriteGate J I S H) → IsWired g → IsWired (settled how g)
  settled-IsWired how g w = elim (Option-cases g.active) [
    | inl e ↦ rw (settled_idle how g e) w
    | inr (job, e) ↦
        rw (settled_call how job g e) (
          ended-IsWired _ job (ending_of how)
            (pumped-IsWired (freed g) g.queue.pending refl w.calm))
  ]

  fire-IsWired : (e : Event) (g : WriteGate J I S H) → IsWired g → IsWired (fire e g)
  unfolding fire
  fire-IsWired e g w = elim (Option-cases (transition g.page e)) [
    | inl h ↦ rw (h, fire) w
    | inr (s, h) ↦ rw (h, fire) (record { same = w.same; busy = w.busy; calm = w.calm })
  ]

  close-IsWired : (g : WriteGate J I S H) → IsWired g → IsWired (close g)
  unfolding close
  close-IsWired g w = record {
    same = w.same;
    busy = λ _. refl;
    calm =
        every-append no_crash g.log (told g.queue.pending) w.calm (no_crash-told g.queue.pending);
  }

  pub step-IsWired :
      (op : Operation J I S H) (g : WriteGate J I S H) → IsWired g → IsWired (step op g)
  unfolding step
  step-IsWired (submit_job job) g w = submit-IsWired job g w
  step-IsWired (call_settled how) g w = settled-IsWired how g w
  step-IsWired close_gate g w = close-IsWired g w
  step-IsWired (fire_event e) g w = fire-IsWired e g w
  step-IsWired (arm_gate i s h) g w = record { same = w.same; busy = w.busy; calm = w.calm }

-- A new gate is idle.
pub IsWired-new : {J I S H : Type 0} → IsWired {J = J} {I = I} {S = S} {H = H} new_gate
IsWired-new = record { same = refl; busy = λ _. refl; calm = refl }

module _ {J I S H : Type 0} where
  run-IsWired_from :
      (ops : List (Operation J I S H)) (g : WriteGate J I S H) → IsWired g → IsWired (run ops g)
  unfolding run
  run-IsWired_from [] g w = w
  run-IsWired_from (op ∷ ops) g w = run-IsWired_from ops (step op g) (step-IsWired op g w)

  run-IsWired : (ops : List (Operation J I S H)) → IsWired (run ops new_gate)
  run-IsWired ops = run-IsWired_from ops new_gate IsWired-new

  -- Whatever happens to a new gate, the runner's call is that of the job in flight, a free slot leaves
  -- no job pending, and `_start` has never met a busy runner.
  pub run-in_flight :
      (ops : List (Operation J I S H))
      → ((run ops new_gate).active ≡ (run ops new_gate).queue.in_flight)
        × ((is_some (run ops new_gate).queue.in_flight || is_nil (run ops new_gate).queue.pending)
            ≡ true)
        × (every no_crash (run ops new_gate).log ≡ true)
  run-in_flight ops =
      let w = run-IsWired ops in
      (
        w.same,
        free_slot (run ops new_gate).queue.in_flight (run ops new_gate).queue.pending w.busy,
        w.calm,
      )
