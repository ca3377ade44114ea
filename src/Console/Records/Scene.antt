-- ===== src/Console/Records/Scene.antt =====
-- The outcome of a write, and what the scene leaf holds after it.
use project008_soundtech_ass.Prelude.{◌≡◌, Bool, none, some, List, arith}
use project008_soundtech_ass.Prelude.Text.{Text}
use project008_soundtech_ass.Console.Records.{
  SetResult, sent, clamped, no_reply, outcome, scene_value, settle_scene,
}

module _ {V : Type 0} (shapes : List Text) (truth : V → Bool) (of_bool : Bool → V) where
  -- After a write, the scene leaf becomes the value written on `sent`, what the desk answered, as a
  -- Boolean at a Boolean leaf, on `clamped`, and is left alone on `no_reply`.
  settle_scene-outcome :
      (parts : List Text) (after : V) (r : SetResult V)
      → settle_scene shapes truth of_bool parts after r ≡ (elim (outcome r) [
        | sent ↦ some after
        | clamped ↦ scene_value shapes truth of_bool parts r.readback
        | no_reply ↦ none
      ])
  unfolding outcome settle_scene
  settle_scene-outcome parts after r = ground arith
