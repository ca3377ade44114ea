-- ===== src/Console/Records.antt =====
-- wing_parser/ui/write_records.py, and the `SetResult` of wing_parser/net/write.py that it reads.
-- `V` is the type of the leaf values, without `None`.
pub mod Scene
use project008_soundtech_ass.Prelude.{
  Bool, true, false, Option, none, some, List, Result, ok, err, ◌>>=◌, if◌then◌else◌,
}
use project008_soundtech_ass.Prelude.Text.{Text}
use project008_soundtech_ass.Edit.Journal.{Patch}
use project008_soundtech_ass.Net.Address.{PathError, osc_address, is_boolean_shape}

-- `matched` is `None` for a dry run only.
pub record SetResult (V : Type 0) : Type 0 where
  pub address : Text
  pub expected : Option V
  pub sent : Text
  pub dry_run : Bool
  pub readback : Option V
  pub matched : Option Bool
  pub error : Option Text

pub record WingIdentity : Type 0 where
  pub ip : Text
  pub name : Text
  pub model : Text
  pub serial : Text
  pub firmware : Text

pub record WriteConfirmation (V : Type 0) : Type 0 where
  pub host : Text
  pub address : Text
  pub after : V
  pub identity : WingIdentity
  pub desk_before : Option V

pub record SentWrite (V : Type 0) : Type 0 where
  pub address : Text
  pub path : Text
  pub desk_before : Option V
  pub written : V
  pub result : SetResult V
  pub identity : Option WingIdentity

pub data Outcome : Type 0 where
  sent clamped no_reply : Outcome

-- `if result.matched`
abbrev pub is_matched : {V : Type 0} → SetResult V → Bool
is_matched r = elim r.matched [ some b ↦ b | none ↦ false ]

unfoldable pub outcome : {V : Type 0} → SetResult V → Outcome
outcome r = if is_matched r then sent else (elim r.readback [ some _ ↦ clamped | none ↦ no_reply ])

-- `shapes` is the oracle of wing_parser/net/jsontypes.py; `truth` is Python's `bool(value)` and
-- `of_bool` the value that a Boolean is.
module _ {V : Type 0} (shapes : List Text) (truth : V → Bool) (of_bool : Bool → V) where
  unfoldable pub scene_value : List Text → Option V → Option V
  scene_value parts none = none
  scene_value parts (some v) =
      if is_boolean_shape shapes parts then some (of_bool (truth v)) else some v

  unfoldable pub settle_scene : List Text → V → SetResult V → Option V
  unfolding scene_value
  settle_scene parts after r = if is_matched r then some after else scene_value parts r.readback

-- The address and the value that a write dialog sends; a revert writes what the desk held.
unfoldable pub plan_write :
    {V : Type 0} → Patch V → Option (SentWrite V) → Result PathError (Text × Option V)
plan_write patch revert = do
  address ← osc_address patch.path
  ok (address, elim revert [ none ↦ some patch.after | some record' ↦ record'.desk_before ])

unfoldable pub confirmation_for :
    {V : Type 0} → Text → Text → V → WingIdentity → Option V → WriteConfirmation V
confirmation_for host address after identity desk_before = record {
  host = host;
  address = address;
  after = after;
  identity = identity;
  desk_before = desk_before;
}

unfoldable pub desk_now : {V : Type 0} → SentWrite V → V
desk_now r = elim r.result.readback [ none ↦ r.written | some v ↦ v ]
