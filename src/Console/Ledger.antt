-- ===== src/Console/Ledger.antt =====
-- The revert run: `RevertQueue` of wing_parser/ui/apply_level.py, and the part of `SentLedger` of
-- wing_parser/ui/changes_ledger.py that keeps state. The labels are not modelled.
pub mod Run
pub mod Bracket
use project008_soundtech_ass.Prelude.{
  ℕ, ◌+◌, ◌-◌, Bool, true, false, Option, none, some, List, [], ◌∷◌, ◌++◌, reverse, length,
  filter_by, if◌then◌else◌,
}

-- `R` is the type of the ledger rows.
pub record RevertQueue (R : Type 0) : Type 0 where
  pub pending : List R
  pub total : ℕ
  pub done : ℕ
  pub stopped : Bool

module _ {R : Type 0} where
  unfoldable pub new_revert : List R → RevertQueue R
  new_revert records = record {
    pending = reverse records;
    total = length records;
    done = 0;
    stopped = false;
  }

  unfoldable pub hand_out : List R → RevertQueue R → Option R × RevertQueue R
  hand_out [] q = (none, q)
  hand_out (r ∷ rest) q = (some r, record q { pending = rest; done = q.done + 1 })

  unfoldable pub next : RevertQueue R → Option R × RevertQueue R
  unfolding hand_out
  next q = if q.stopped then (none, q) else hand_out q.pending q

  unfoldable pub stop : RevertQueue R → RevertQueue R
  stop q = record q { stopped = true }

-- What the ledger did, in order: its two signals, a row handed to `route_revert`, and the `reverted`
-- signal of a row.
pub data Emitted (R : Type 0) : Type 0 where
  run_started run_finished : Emitted R
  routed reverted : R → Emitted R

pub record SentLedger (R : Type 0) : Type 0 where
  pub records : List R
  pub queue : Option (RevertQueue R)
  pub skipped : ℕ
  pub emitted : List (Emitted R)

module _ {R : Type 0} where
  unfoldable pub add : R → SentLedger R → SentLedger R
  add r l = record l { records = l.records ++ (r ∷ []) }

  unfoldable pub end_run : SentLedger R → SentLedger R
  end_run l = record l { queue = none; emitted = l.emitted ++ (run_finished ∷ []) }

  unfoldable pub handed : Option R × RevertQueue R → SentLedger R → SentLedger R
  unfolding end_run
  handed (none, q) l = end_run (record l { queue = some q })
  handed (some r, q) l = record l { queue = some q; emitted = l.emitted ++ (routed r ∷ []) }

  -- `_next`
  unfoldable pub advance : SentLedger R → SentLedger R
  unfolding handed next
  advance l = elim l.queue [ none ↦ l | some q ↦ handed (next q) l ]

  -- `stop`, and `_step_failed`: the run ends; they differ in a label
  unfoldable pub stop_run : SentLedger R → SentLedger R
  unfolding stop end_run
  stop_run l = elim l.queue [ none ↦ l | some q ↦ end_run (record l { queue = some (stop q) }) ]

  -- `_step_done`: the write of a row was sent; its record may be None
  unfoldable pub step_done : Option R → SentLedger R → SentLedger R
  unfolding advance
  step_done none l = advance l
  step_done (some r) l = advance (record l { emitted = l.emitted ++ (reverted r ∷ []) })

-- `known` says that the row's `desk_before` is not `None`.
module _ {R : Type 0} (known : R → Bool) where
  unfoldable pub revert_all : SentLedger R → SentLedger R
  unfolding advance new_revert
  revert_all l = elim l.queue [
    | some q ↦ l
    | none ↦
        let can = filter_by known l.records in
        advance (record l {
          queue = some (new_revert can);
          skipped = length l.records - length can;
          emitted = l.emitted ++ (run_started ∷ []);
        })
  ]

-- What can happen to the ledger.
pub data Operation (R : Type 0) : Type 0 where
  add_row : R → Operation R
  press_revert_all : Operation R
  press_stop : Operation R
  row_sent : Option R → Operation R

module _ {R : Type 0} (known : R → Bool) where
  unfoldable pub step : Operation R → SentLedger R → SentLedger R
  unfolding add stop_run step_done revert_all
  step (add_row r) = add r
  step press_revert_all = revert_all known
  step press_stop = stop_run
  step (row_sent r) = step_done r

  unfoldable pub run : List (Operation R) → SentLedger R → SentLedger R
  run [] l = l
  run (op ∷ ops) l = run ops (step op l)

abbrev pub new_ledger : {R : Type 0} → SentLedger R
new_ledger = record { records = []; queue = none; skipped = 0; emitted = [] }
