-- ===== src/Advisory/Targets.antt =====
-- wing_parser/advisory/evaluator.py: the iterators over the targets of a scene. `C` is the type of the
-- confidences, `zero` and `full` are 0.0 and 1.0, and `show` is Python's `str` of a number.
pub mod Shows
use project008_soundtech_ass.Prelude.{
  ℕ, Bool, true, false, Option, none, some, List, [], ◌∷◌, ◌++◌, ◌==◌, eqb, if◌then◌else◌,
}
use project008_soundtech_ass.Prelude.Text.{Text, codes, text_eq}
use project008_soundtech_ass.Prelude.Dict.{Dict}
use project008_soundtech_ass.Advisory.Evaluator.{Target}

pub record Send : Type 0 where
  pub dest_kind : Text
  pub dest : ℕ

-- What the iterators read of a channel, of an output, and of the show.
pub record Channel (C : Type 0) : Type 0 where
  pub number : ℕ
  pub confidence : C
  pub sends : List Send
  pub main_sends : List ℕ

pub record Output (C : Type 0) : Type 0 where
  pub kind : Text
  pub number : ℕ
  pub confidence : C

pub record Segment : Type 0 where
  pub target_name : Text
  pub cues : List Text

pub record Scene (C : Type 0) : Type 0 where
  pub channels : List (Channel C)
  pub bus_family : List (Output C)
  pub segments : List Segment
  pub expectations : List Text

-- What a context binds; a destination that the scene lacks is `None`.
pub data Bound (C : Type 0) : Type 0 where
  channel : Channel C → Bound C
  send : Send → Bound C
  main_send : ℕ → Bound C
  output : Output C → Bound C
  cue : Text → Bound C
  segment : Segment → Bound C
  expectation : Text → Bound C
  absent : Bound C

abbrev pub Context : Type 0 → Type 0
Context C = Dict Text (Bound C)

module _ {C : Type 0} where
  -- `scene.family(kind)`, and its entry for a number
  unfoldable pub family : Text → List (Output C) → List (Output C)
  family kind [] = []
  family kind (o ∷ os) = let rest = family kind os in if o.kind == kind then o ∷ rest else rest

  unfoldable pub numbered : ℕ → List (Output C) → Option (Output C)
  numbered n [] = none
  numbered n (o ∷ os) = elim (numbered n os) [
    | some later ↦ some later
    | none ↦ if eqb o.number n then some o else none
  ]

  unfoldable pub bound : Option (Output C) → Bound C
  bound none = absent
  bound (some o) = output o

module _ {C : Type 0} («zero» full : C) (show : ℕ → Text) where
  unfoldable pub confidence_of : Option (Output C) → C
  confidence_of none = «zero»
  confidence_of (some o) = o.confidence

  unfoldable pub channel_targets : List (Channel C) → List (Target (Context C) C)
  channel_targets [] = []
  channel_targets (ch ∷ chs) =
      record {
        name = codes "ch." ++ show ch.number;
        context = (codes "channel", channel ch) ∷ [];
        confidence = ch.confidence;
      }
      ∷ channel_targets chs

  -- `prefix` is what stands before the number of the destination in the file, "MX" for a matrix.
  unfoldable pub send_target : Channel C → Send → Text → Option (Output C) → Target (Context C) C
  unfolding bound confidence_of
  send_target ch s «prefix» destination = record {
    name = codes "ch." ++ show ch.number ++ codes ".send." ++ «prefix» ++ show s.dest;
    context =
        (codes "channel", channel ch)
        ∷ (codes "send", send s)
        ∷ (codes "destination_bus", bound destination)
        ∷ [];
    confidence = confidence_of destination;
  }

  unfoldable pub sends_of_channel :
      List (Output C) → Channel C → List Send → List (Target (Context C) C)
  unfolding numbered family send_target
  sends_of_channel outputs ch [] = []
  sends_of_channel outputs ch (s ∷ ss) =
      let rest = sends_of_channel outputs ch ss in
      if s.dest_kind == codes "bus"
      then send_target ch s [] (numbered s.dest (family (codes "bus") outputs)) ∷ rest
      else if s.dest_kind == codes "matrix"
      then send_target ch s (codes "MX") (numbered s.dest (family (codes "matrix") outputs)) ∷ rest
      else rest

  unfoldable pub channel_sends : List (Output C) → List (Channel C) → List (Target (Context C) C)
  unfolding sends_of_channel
  channel_sends outputs [] = []
  channel_sends outputs (ch ∷ chs) =
      sends_of_channel outputs ch ch.sends ++ channel_sends outputs chs

  unfoldable pub output_targets : (Output C → Text) → List (Output C) → List (Target (Context C) C)
  output_targets name [] = []
  output_targets name (o ∷ os) =
      record {
        name = name o ++ codes "." ++ show o.number;
        context = (codes "bus", output o) ∷ [];
        confidence = o.confidence;
      }
      ∷ output_targets name os

  unfoldable pub mains_of_channel :
      List (Output C) → Channel C → List ℕ → List (Target (Context C) C)
  unfolding numbered bound confidence_of
  mains_of_channel mains ch [] = []
  mains_of_channel mains ch (dest ∷ dests) =
      record {
        name = codes "ch." ++ show ch.number ++ codes ".main." ++ show dest;
        context =
            (codes "channel", channel ch)
            ∷ (codes "main_send", main_send dest)
            ∷ (codes "destination_main", bound (numbered dest mains))
            ∷ [];
        confidence = confidence_of (numbered dest mains);
      }
      ∷ mains_of_channel mains ch dests

  unfoldable pub channel_main_sends :
      List (Output C) → List (Channel C) → List (Target (Context C) C)
  unfolding mains_of_channel
  channel_main_sends mains [] = []
  channel_main_sends mains (ch ∷ chs) =
      mains_of_channel mains ch ch.main_sends ++ channel_main_sends mains chs

  unfoldable pub cues_of : Segment → List Text → List (Target (Context C) C)
  cues_of s [] = []
  cues_of s (name ∷ names) =
      record {
        name = name;
        context = (codes "cue", cue name) ∷ (codes "segment", segment s) ∷ [];
        confidence = full;
      }
      ∷ cues_of s names

  unfoldable pub cue_targets : List Segment → List (Target (Context C) C)
  unfolding cues_of
  cue_targets [] = []
  cue_targets (s ∷ ss) = cues_of s s.cues ++ cue_targets ss

  unfoldable pub segment_targets : List Segment → List (Target (Context C) C)
  segment_targets [] = []
  segment_targets (s ∷ ss) =
      record {
        name = s.target_name;
        context = (codes "segment", segment s) ∷ [];
        confidence = full;
      }
      ∷ segment_targets ss

  unfoldable pub expectation_targets : List Text → List (Target (Context C) C)
  expectation_targets [] = []
  expectation_targets (name ∷ names) =
      record {
        name = name;
        context = (codes "expectation", expectation name) ∷ [];
        confidence = full;
      }
      ∷ expectation_targets names

  -- `ITERATORS` and `targets_for`; `none` is the `KeyError`.
  unfoldable pub targets_for : Scene C → Text → Option (List (Target (Context C) C))
  unfolding channel_targets channel_sends channel_main_sends output_targets cue_targets
      segment_targets expectation_targets family
  targets_for scene for_each =
      if for_each == codes "channel"
      then some (channel_targets scene.channels)
      else if for_each == codes "channel.sends"
      then some (channel_sends scene.bus_family scene.channels)
      else if for_each == codes "channel.main_sends"
      then some (channel_main_sends (family (codes "main") scene.bus_family) scene.channels)
      else if for_each == codes "bus"
      then some (output_targets (λ _. codes "bus") (family (codes "bus") scene.bus_family))
      else if for_each == codes "output"
      then some (output_targets (λ o. o.kind) scene.bus_family)
      else if for_each == codes "cue"
      then some (cue_targets scene.segments)
      else if for_each == codes "segment"
      then some (segment_targets scene.segments)
      else if for_each == codes "expects"
      then some (expectation_targets scene.expectations)
      else if for_each == codes "none"
      then some []
      else none
