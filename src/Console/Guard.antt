-- ===== src/Console/Guard.antt =====
-- wing_parser/ui/live_guard.py: `RoundGuard`, the counting proxy around a watch's client.
pub mod Silence
use project008_soundtech_ass.Prelude.{
  ℕ, zero, suc, ◌+◌, Bool, true, false, List, [], ◌∷◌, ◌++◌, leb, eqb, if◌then◌else◌,
}

-- What a `get_many` through the guard gives: the client's result, `Cancelled`, or `DeskLost` with
-- the number of silent rounds.
pub data Round (B : Type 0) : Type 0 where
  answered : B → Round B
  cancelled : Round B
  desk_lost : ℕ → Round B

-- `reported` is what `on_round` was told, in order.
pub record RoundGuard : Type 0 where
  pub lost_after : ℕ
  pub silent_rounds : ℕ
  pub reported : List (ℕ × ℕ)

abbrev pub new_guard : ℕ → RoundGuard
new_guard lost_after = record { lost_after = lost_after; silent_rounds = 0; reported = [] }

module _ {B : Type 0} (replies : B → ℕ) where
  -- After the client has answered with `batch`, for `total` addresses.
  unfoldable pub after_round : ℕ → B → RoundGuard → Round B × RoundGuard
  after_round total batch g =
      let heard = replies batch in
      let told = record g { reported = g.reported ++ ((heard, total) ∷ []) } in
      let silent = suc g.silent_rounds in
      if eqb heard 0
      then (
        if leb g.lost_after silent then desk_lost silent else answered batch,
        record told { silent_rounds = silent },
      )
      else (answered batch, record told { silent_rounds = 0 })

  -- `get_many`, with what the cancel event is when the call begins, and what the client would give.
  unfoldable pub get_many : Bool → ℕ → B → RoundGuard → Round B × RoundGuard
  unfolding after_round
  get_many cancel total batch g = if cancel then (cancelled, g) else after_round total batch g

  -- The rounds of a watch, each with what the cancel event is, the number of addresses and what the
  -- client would give, until one raises. The batches that were returned, and how the rounds ended.
  unfoldable pub rounds : List (Bool × ℕ × B) → RoundGuard → List B × Round (Unit {0})
  unfolding get_many
  rounds [] g = ([], answered tt)
  rounds ((cancel, total, batch) ∷ more) g =
      let (got, g') = get_many cancel total batch g in
      let later = rounds more g' in
      elim got [
        | answered b ↦ (b ∷ later.0, later.1)
        | cancelled ↦ ([], cancelled)
        | desk_lost n ↦ ([], desk_lost n)
      ]
