-- ===== src/Console/Queue.antt =====
-- wing_parser/ui/write_queue.py: `WriteQueue`, one write in flight at a time. `start` is the
-- callback; `Started` is how a call of it ends.
pub mod Order
use project008_soundtech_ass.Prelude.{Option, none, some, List, [], ◌∷◌, ◌++◌}

pub data Started : Type 0 where
  -- the write went out, and some terminal path will call `settle` later
  launched : Started
  -- `start` called `settle` itself before it returned
  refused : Started
  -- `start` raised
  raised : Started

pub record WriteQueue {ℓ} (A : Type ℓ) : Type ℓ where
  pub pending : List A
  pub in_flight : Option A

-- Calls of `start`, in order, each with how it ended.
abbrev pub Attempts {ℓ} : Type ℓ → Type ℓ
Attempts A = List (A × Started)

abbrev pub new_queue {ℓ} : {A : Type ℓ} → WriteQueue A
new_queue = record { pending = []; in_flight = none }

module _ {ℓ} {A : Type ℓ} (start : A → Started) where
  -- `_pump` with a free slot. A refused item settles inside `start`, which pumps the rest.
  unfoldable pub pump_pending : List A → WriteQueue A × Attempts A
  pump_pending [] = (record { pending = []; in_flight = none }, [])
  pump_pending (x ∷ xs) =
      let later = pump_pending xs in
      elim (start x) [
        | launched ↦ (record { pending = xs; in_flight = some x }, (x, launched) ∷ [])
        | refused ↦ (later.0, (x, refused) ∷ later.1)
        | raised ↦ (record { pending = xs; in_flight = none }, (x, raised) ∷ [])
      ]

  -- `_pump`
  unfoldable pub pump : WriteQueue A → WriteQueue A × Attempts A
  unfolding pump_pending
  pump q = elim q.in_flight [ some y ↦ (q, []) | none ↦ pump_pending q.pending ]

  unfoldable pub enqueue : A → WriteQueue A → WriteQueue A × Attempts A
  unfolding pump
  enqueue x q = pump (record q { pending = q.pending ++ (x ∷ []) })

  unfoldable pub settle : WriteQueue A → WriteQueue A × Attempts A
  unfolding pump
  settle q = pump (record q { in_flight = none })

-- The queue with nothing pending, and what was dropped. The item in flight stays.
unfoldable pub clear {ℓ} : {A : Type ℓ} → WriteQueue A → WriteQueue A × List A
clear q = (record q { pending = [] }, q.pending)
