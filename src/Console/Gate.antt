-- ===== src/Console/Gate.antt =====
-- wing_parser/ui/write_gate.py: `WriteGate`, over the queue of Console.Queue and the `CallRunner` of
-- wing_parser/ui/workers.py. A job's two callbacks are arbitrary code: what the gate does is to call
-- one of them, which is a `Notice`; what a callback does then is a later operation.
mod Pump
pub mod Wire
pub mod Count
pub mod Sends
use project008_soundtech_ass.Prelude.{
  Bool, true, false, ◌&&◌, Option, none, some, List, [], ◌∷◌, ◌++◌, contains, if◌then◌else◌,
}
use project008_soundtech_ass.Console.Live.{LiveState, Event, Action, action_eq, transition}
use project008_soundtech_ass.Console.Live.{allowed_actions}
use project008_soundtech_ass.Console.Queue
use project008_soundtech_ass.Console.Queue.{
  Started, launched, refused, raised, WriteQueue, Attempts, new_queue,
}
use project008_soundtech_ass.Console.Arm.{ArmState, new_arm, arm, armed, disarm}

-- How a job's callbacks hear of its end: `on_result`, or `on_error` with the failure of the call or
-- with `GateClosed`.
pub data Ending : Type 0 where
  result failure gate_closed : Ending

pub data Notice (J : Type 0) : Type 0 where
  -- the runner started the job's call
  sent : J → Notice J
  -- one of the job's callbacks was called
  ended : J → Ending → Notice J
  -- `_start` raised `RuntimeError`
  crashed : J → Notice J

-- The three ways in which the runner's call can settle, a timeout being a failure.
pub data Settled : Type 0 where
  success failed cancelled : Settled

unfoldable pub ending_of : Settled → Ending
ending_of success = result
ending_of failed = failure
ending_of cancelled = gate_closed

-- `active` is the job whose call the runner runs. `log` is what the gate did, in order.
pub record WriteGate (J I S H : Type 0) : Type 0 where
  pub page : LiveState
  pub arming : ArmState I S H
  pub queue : WriteQueue J
  pub active : Option J
  pub log : List (Notice J)

abbrev pub new_gate : {J I S H : Type 0} → WriteGate J I S H
new_gate = record {
  page = LiveState.disconnected;
  arming = new_arm;
  queue = new_queue;
  active = none;
  log = [];
}

-- The callbacks of refused jobs run after the queue has settled, so the last refused comes first.
unfoldable pub notices : {J : Type 0} → Attempts J → List (Notice J)
notices [] = []
notices ((x, launched) ∷ l) = sent x ∷ notices l
notices ((x, refused) ∷ l) = notices l ++ (ended x gate_closed ∷ [])
notices ((x, raised) ∷ l) = crashed x ∷ notices l

-- The job that a sequence of calls of `_start` left to the runner, if any.
unfoldable pub running : {J : Type 0} → Option J → Attempts J → Option J
running old [] = old
running old ((x, launched) ∷ l) = running (some x) l
running old ((x, _) ∷ l) = running old l

-- Each dropped job is told that the gate is closed.
unfoldable pub told : {J : Type 0} → List J → List (Notice J)
told [] = []
told (x ∷ xs) = ended x gate_closed ∷ told xs

module _ {J I S H : Type 0} where
  unfoldable pub can_write : WriteGate J I S H → Bool
  unfolding allowed_actions action_eq
  can_write g = contains (allowed_actions g.page) Action.write

  unfoldable pub ready : WriteGate J I S H → Bool
  unfolding can_write armed
  ready g = can_write g && armed g.arming

  -- `_start`: refuse unless ready; otherwise `CallRunner.start`, which is False while a call runs
  unfoldable pub start : WriteGate J I S H → J → Started
  unfolding ready
  start g job = if ready g then (elim g.active [ none ↦ launched | some _ ↦ raised ]) else refused

  -- What the calls of `_start` in `outcome` leave.
  unfoldable pub pumped : WriteGate J I S H → WriteQueue J × Attempts J → WriteGate J I S H
  unfolding notices running
  pumped g (q, l) = record g { queue = q; active = running g.active l; log = g.log ++ notices l }

  unfoldable pub submit : J → WriteGate J I S H → WriteGate J I S H
  unfolding pumped start Queue.enqueue
  submit job g = pumped g (Queue.enqueue (start g) job g.queue)

  -- The runner's call settles, and `_settle_then` runs: the queue first, then the job's callback.
  unfoldable pub settle_then : J → Settled → WriteGate J I S H → WriteGate J I S H
  unfolding pumped start Queue.settle ending_of
  settle_then job how g =
      let free = record g { active = none } in
      let g' = pumped free (Queue.settle (start free) g.queue) in
      record g' { log = g'.log ++ (ended job (ending_of how) ∷ []) }

  -- A call that is no longer the runner's has settled before; its late result is discarded.
  unfoldable pub settled : Settled → WriteGate J I S H → WriteGate J I S H
  unfolding settle_then
  settled how g = elim g.active [ none ↦ g | some job ↦ settle_then job how g ]

  unfoldable pub close : WriteGate J I S H → WriteGate J I S H
  unfolding disarm Queue.clear told
  close g =
      let (q, dropped) = Queue.clear g.queue in
      record g { arming = disarm g.arming; queue = q; log = g.log ++ told dropped }

  -- The page fires an event; an illegal one raises, and the state stays.
  unfoldable pub fire : Event → WriteGate J I S H → WriteGate J I S H
  fire e g = elim (transition g.page e) [ none ↦ g | some s ↦ record g { page = s } ]

  unfoldable pub arm_for : I → Option S → Option H → WriteGate J I S H → WriteGate J I S H
  unfolding arm
  arm_for i s h g = record g { arming = arm i s h g.arming }

-- What can happen to the gate.
pub data Operation (J I S H : Type 0) : Type 0 where
  submit_job : J → Operation J I S H
  call_settled : Settled → Operation J I S H
  close_gate : Operation J I S H
  fire_event : Event → Operation J I S H
  arm_gate : I → Option S → Option H → Operation J I S H

module _ {J I S H : Type 0} where
  unfoldable pub step : Operation J I S H → WriteGate J I S H → WriteGate J I S H
  unfolding submit settled close fire arm_for
  step (submit_job job) = submit job
  step (call_settled how) = settled how
  step close_gate = close
  step (fire_event e) = fire e
  step (arm_gate i s h) = arm_for i s h

  unfoldable pub run : List (Operation J I S H) → WriteGate J I S H → WriteGate J I S H
  run [] g = g
  run (op ∷ ops) g = run ops (step op g)
