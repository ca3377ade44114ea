-- ===== src/Console/Arm.antt =====
-- wing_parser/ui/apply_level.py: the apply level and what the writes are armed for.
use project008_soundtech_ass.Prelude.{Bool, true, false, Option, none, some}

pub data ApplyLevel : Type 0 where
  manual delayed immediate : ApplyLevel

-- `I` is the identity of a desk, `S` the show and `H` the address. An empty `show` dict counts as no
-- show, so it is `none`.
pub record ArmState (I S H : Type 0) : Type 0 where
  pub identity : Option I
  pub show : Option S
  pub host : Option H
  pub level : ApplyLevel

abbrev pub new_arm : {I S H : Type 0} → ArmState I S H
new_arm = record { identity = none; show = none; host = none; level = manual }

module _ {I S H : Type 0} where
  -- `arm`; the level stays
  unfoldable pub arm : I → Option S → Option H → ArmState I S H → ArmState I S H
  arm identity show host a = record a { identity = some identity; show = show; host = host }

  unfoldable pub armed : ArmState I S H → Bool
  armed a = elim a.identity [ none ↦ false | some _ ↦ true ]

  -- `disarm`: the level falls back with the identity
  unfoldable pub disarm : ArmState I S H → ArmState I S H
  disarm a = record { identity = none; show = none; host = none; level = manual }
