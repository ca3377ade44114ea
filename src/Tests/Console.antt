-- ===== src/Tests/Console.antt =====
-- The theorems on the console page, applied.
use project008_soundtech_ass.Prelude.{
  ℕ, ◌+◌, ◌≡◌, refl, Bool, true, false, ◌||◌, none, some, List, [], ◌∷◌, ◌++◌, eqb, if◌then◌else◌,
}
use project008_soundtech_ass.Prelude.Text.{codes}
use project008_soundtech_ass.Console.Live.{LiveState, Event, transition, action_eq, fire_all, error}
use project008_soundtech_ass.Console.Live.Paths.{is_down, can_write, fire_all-not_write}
use project008_soundtech_ass.Console.Queue.{Started, launched, refused, WriteQueue, settle}
use project008_soundtech_ass.Console.Queue.Order
use project008_soundtech_ass.Console.Queue.Order.{
  items, launches, to_list, has_raised, settle-releases,
}
use project008_soundtech_ass.Console.Records.{SetResult}
use project008_soundtech_ass.Console.Gate
use project008_soundtech_ass.Console.Gate.Wire.{is_some, is_nil, every, no_crash, run-in_flight}
use project008_soundtech_ass.Console.Gate.Count.{count, balance, all_submitted, run-balance}
use project008_soundtech_ass.Console.Gate.Sends.{sends, close-quiet}
use project008_soundtech_ass.Console.Ledger
use project008_soundtech_ass.Console.Ledger.Run.{
  all_done, each_done, revertible, revert_all-each_done,
}
use project008_soundtech_ass.Console.Ledger.Bracket.{
  starts, finishes, opened, routed_known, run-bracketed,
}
use project008_soundtech_ass.Console.Guard.{new_guard, rounds}
use project008_soundtech_ass.Console.Guard.Silence.{is_lost, has_silence, rounds-has_silence}

-- a connection that fails, and is tried again
abbrev retry : List Event
retry = Event.connect ∷ Event.fail ∷ Event.connect ∷ Event.fail ∷ []

fire_all-not_write_example : (is_down error ≡ true) × (can_write error ≡ false)
unfolding fire_all transition
fire_all-not_write_example =
    fire_all-not_write LiveState.disconnected retry error refl
      ((λ e. cc), ((λ e. cc), ((λ e. cc), ((λ e. cc), tt)))) refl

-- the second of three jobs can start
abbrev second_only : ℕ → Started
second_only n = if eqb n 2 then launched else refused

abbrev waiting : WriteQueue ℕ
waiting = record { in_flight = some 0; pending = 1 ∷ 2 ∷ 3 ∷ [] }

settle-releases_example :
    (items (settle second_only waiting).1 ++ (settle second_only waiting).0.pending
      ≡ waiting.pending)
    × (launches (settle second_only waiting).1 ≡ to_list (settle second_only waiting).0.in_flight)
    × ((Order.is_nil (settle second_only waiting).0.pending
          || Order.is_some (settle second_only waiting).0.in_flight
          || has_raised (settle second_only waiting).1)
        ≡ true)
settle-releases_example = settle-releases second_only waiting

abbrev clamped_write : SetResult ℕ
clamped_write = record {
  address = codes "/ch/1/mute";
  expected = some 1;
  sent = codes "1";
  dry_run = false;
  readback = some 0;
  matched = some false;
  error = none;
}

-- an armed session that submits two jobs, the first of which times out
abbrev session : List (Gate.Operation ℕ ℕ ℕ ℕ)
session =
    Gate.fire_event Event.connect
    ∷ Gate.fire_event Event.ok
    ∷ Gate.arm_gate 7 none none
    ∷ Gate.submit_job 1
    ∷ Gate.submit_job 2
    ∷ Gate.call_settled Gate.failed
    ∷ []

abbrev gate : Gate.WriteGate ℕ ℕ ℕ ℕ
gate = Gate.run session Gate.new_gate

run-in_flight_example :
    (gate.active ≡ gate.queue.in_flight)
    × ((is_some gate.queue.in_flight || is_nil gate.queue.pending) ≡ true)
    × (every no_crash gate.log ≡ true)
run-in_flight_example = run-in_flight session

run-balance_example :
    count (λ n. eqb n 2) (all_submitted (λ n. eqb n 2) session) ≡ balance (λ n. eqb n 2) gate
run-balance_example = run-balance (λ n. eqb n 2) session

close-quiet_example :
    sends (Gate.run (Gate.submit_job 3 ∷ Gate.call_settled Gate.success ∷ []) (Gate.close gate)).log
    ≡ sends gate.log
close-quiet_example =
    close-quiet gate (Gate.submit_job 3 ∷ Gate.call_settled Gate.success ∷ []) (tt, (tt, tt))

-- a row is a number, and that of an odd row is not known
abbrev known : ℕ → Bool
known n = eqb n 2 || eqb n 4

abbrev ledger : Ledger.SentLedger ℕ
ledger = Ledger.add 4 (Ledger.add 3 (Ledger.add 2 Ledger.new_ledger))

revert_all-each_done_example :
    ((all_done (revertible known ledger) (Ledger.revert_all known ledger)).emitted
      ≡ ledger.emitted ++ (Ledger.run_started ∷ each_done (revertible known ledger)))
    × ((all_done (revertible known ledger) (Ledger.revert_all known ledger)).queue ≡ none)
unfolding Ledger.add
revert_all-each_done_example = revert_all-each_done known ledger refl

abbrev presses : List (Ledger.Operation ℕ)
presses =
    Ledger.add_row 2
    ∷ Ledger.add_row 4
    ∷ Ledger.press_revert_all
    ∷ Ledger.press_stop
    ∷ Ledger.row_sent (some 4)
    ∷ []

run-bracketed_example :
    (starts (Ledger.run known presses Ledger.new_ledger).emitted
      ≡ finishes (Ledger.run known presses Ledger.new_ledger).emitted
        + opened (Ledger.run known presses Ledger.new_ledger))
    × (routed_known known (Ledger.run known presses Ledger.new_ledger).emitted ≡ true)
run-bracketed_example = run-bracketed known presses

-- three rounds, the last two of them silent
abbrev heard : List (Bool × ℕ × ℕ)
heard = (false, 4, 4) ∷ (false, 4, 0) ∷ (false, 4, 0) ∷ []

rounds-has_silence_example :
    is_lost (rounds (λ n. n) heard (new_guard 2)).1 ≡ has_silence (λ n. n) 2 heard
rounds-has_silence_example = rounds-has_silence (λ n. n) 1 heard (refl, (refl, (refl, tt)))
