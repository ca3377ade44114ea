-- ===== src/Net/Watch.antt =====
-- wing_parser/net/watch/poller.py, with `Change` and `split_address` of wing_parser/net/watch/events.py.
-- The client's replies, the clock and the pace of each round are what the environment gives; times are
-- counted in ticks of the clock. Values are compared by a decidable equality: NaN, which is not equal to
-- itself, and numbers of two types that are equal are left out.
pub mod Chain
use project008_soundtech_ass.Prelude.{
  ℕ, zero, suc, ◌+◌, ◌-◌, Bool, true, false, ◌&&◌, ◌||◌, not, Option, none, some, List, [], ◌∷◌,
  ◌++◌, Eq, ◌==◌, leb, ltb, eqb, if◌then◌else◌,
}
use project008_soundtech_ass.Prelude.Text.{Text, text_eq}
use project008_soundtech_ass.Prelude.Dict.{Dict, lookup, insert, update}
use project008_soundtech_ass.Net.Address.{slash}

pub record Change (V : Type 0) : Type 0 where
  pub address : Text
  pub strip : Text
  pub key : Text
  pub label : Text
  pub before : V
  pub after : V
  pub elapsed : ℕ

-- What stands before and after the last slash, if there is one.
unfoldable pub last_cut : Text → Option (Text × Text)
last_cut [] = none
last_cut (c ∷ s) = elim (last_cut s) [
  | some (strip, key) ↦ some (c ∷ strip, key)
  | none ↦ if eqb c slash then some ([], s) else none
]

-- `address.rpartition("/")` without the separator
unfoldable pub split_address : Text → Text × Text
unfolding last_cut
split_address address = elim (last_cut address) [ none ↦ ([], address) | some parts ↦ parts ]

-- `leaf_value` is that of wing_parser/net/codec.py, none for its `ValueError`.
module _ {M V : Type 0} (leaf_value : M → Option V) where
  -- The loop of `sample` over the replies of `get_many`.
  unfoldable pub sample_from : Dict Text V → Dict Text M → Dict Text V
  sample_from values [] = values
  sample_from values ((address, m) ∷ more) =
      let skipped = sample_from values more in
      elim (leaf_value m) [
        | none ↦ skipped
        | some value ↦ sample_from (insert address value values) more
      ]

  unfoldable pub sample : Dict Text M → Dict Text V
  unfolding sample_from
  sample replies = sample_from [] replies

  -- `read_labels` at the replies to the `name` leaves; `show` is Python's `str` of a value.
  module _ (show : V → Text) where
    unfoldable pub labels_from : Dict Text Text → Dict Text M → Dict Text Text
    unfolding split_address
    labels_from labels [] = labels
    labels_from labels ((address, m) ∷ more) =
        let skipped = labels_from labels more in
        elim (leaf_value m) [
          | none ↦ skipped
          | some value ↦ labels_from (insert (split_address address).0 (show value) labels) more
        ]

-- What one round of the loop meets: the replies, and whether the wait at its end is cut short by the
-- cancel event.
pub record Round (M : Type 0) : Type 0 where
  pub replies : Dict Text M
  pub cancelled : Bool

-- The parameters of `watch`; `clock` is the reading at each call, counted from the first.
pub record Session : Type 0 where
  pub interval : ℕ
  pub duration : Option ℕ
  pub max_rounds : Option ℕ
  pub clock : ℕ → ℕ

module _ (S : Session) where
  abbrev pub enough_rounds : ℕ → Bool
  enough_rounds rounds = elim S.max_rounds [ none ↦ false | some n ↦ leb n rounds ]

  abbrev pub enough_time : ℕ → ℕ → Bool
  enough_time started now = elim S.duration [ none ↦ false | some d ↦ leb d (now - started) ]

module _ {V : Type 0} ⦃e : Eq V⦄ (S : Session) where
  -- The loop over one round's sample: the changes, and the number of clock calls after it.
  unfoldable pub changes : Dict Text Text → ℕ → ℕ → Dict Text V → Dict Text V → List (Change V) × ℕ
  unfolding split_address
  changes labels started calls previous [] = ([], calls)
  changes labels started calls previous ((address, after) ∷ more) =
      let quiet = changes labels started calls previous more in
      let (later, calls') = changes labels started (suc calls) previous more in
      elim (lookup address previous) [
        | none ↦ quiet
        | some before ↦ if before == after then quiet else (
          record {
            address = address;
            strip = (split_address address).0;
            key = (split_address address).1;
            label = elim (lookup (split_address address).0 labels) [ none ↦ [] | some l ↦ l ];
            before = before;
            after = after;
            elapsed = S.clock calls - started;
          }
              ∷ later,
          calls',
        )
      ]

module _ {M V : Type 0} ⦃e : Eq V⦄ (leaf_value : M → Option V) (S : Session) where
  -- The rounds that the watch is given, until it returns or its consumer stops.
  unfoldable pub watch_rounds :
      Dict Text Text → ℕ → ℕ → ℕ → Dict Text V → List (Round M) → List (Change V)
  unfolding changes sample update
  watch_rounds labels started rounds calls previous [] = []
  watch_rounds labels started rounds calls previous (r ∷ more) =
      let now = S.clock calls in
      let current = sample leaf_value r.replies in
      let (found, calls') = changes S labels started (suc calls) previous current in
      let later =
        watch_rounds labels started (suc rounds) (suc calls') (update previous current) more in
      let spent = S.clock calls' - now in
      if enough_rounds S rounds
      then []
      else if enough_time S started now
      then []
      else if ltb spent S.interval && r.cancelled
      then found
      else found ++ later

  -- `first` are the replies to the round before the loop.
  unfoldable pub watch : Dict Text Text → Dict Text M → List (Round M) → List (Change V)
  unfolding watch_rounds
  watch labels first rounds = watch_rounds labels (S.clock 0) 0 1 (sample leaf_value first) rounds
