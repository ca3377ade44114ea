-- ===== src/Query/Routing.antt =====
-- wing_parser/query/routing.py: the sends that feed a destination, and the summary of the channels. `L` is
-- the type of the levels.
pub mod Feeds
pub mod Summary
use project008_soundtech_ass.Prelude.{
  ℕ, suc, Bool, true, false, ◌&&◌, ◌||◌, not, Option, none, some, List, [], ◌∷◌, ◌++◌, ◌==◌, eqb,
  if◌then◌else◌,
}
use project008_soundtech_ass.Prelude.Text.{Text, codes, text_eq}

-- A send to a bus or a matrix.
pub record Send (L : Type 0) : Type 0 where
  pub dest_kind : Text
  pub dest : ℕ
  pub on : Bool
  pub level : L
  pub mode : Text

pub record MainSend (L : Type 0) : Type 0 where
  pub dest : ℕ
  pub on : Bool
  pub level : L

-- What is read of a channel or of an entry of the bus family.
pub record View (L : Type 0) : Type 0 where
  pub number : ℕ
  pub name : Text
  pub muted : Bool
  pub fader : L
  pub sends : List (Send L)
  pub main_sends : List (MainSend L)
  pub alt_is_off : Bool
  pub source_is_off : Bool

pub record Feed (L : Type 0) : Type 0 where
  pub kind : Text
  pub number : ℕ
  pub name : Text
  pub level : L
  pub mode : Text
  pub on : Bool

pub record RoutingSummary : Type 0 where
  pub orphan_channels : List ℕ
  pub alt_sourced_channels : List ℕ
  pub unpatched_channels : List ℕ
  pub unnamed_but_live : List ℕ
  pub live_channel_count : ℕ

-- The entries of `SEND_SECTION`: the sends of one kind, or the main sends.
pub data Section : Type 0 where
  sends_of : Text → Section
  main_section : Section

unfoldable pub send_section : Text → Option Section
send_section kind =
    if kind == codes "bus"
    then some (sends_of (codes "bus"))
    else if kind == codes "matrix"
    then some (sends_of (codes "matrix"))
    else if kind == codes "main"
    then some main_section
    else none

module _ {L : Type 0} where
  abbrev pub feed : Text → View L → L → Text → Bool → Feed L
  feed kind v level mode on = record {
    kind = kind;
    number = v.number;
    name = v.name;
    level = level;
    mode = mode;
    on = on;
  }

  unfoldable pub feeds_of_sends : Text → View L → Text → ℕ → List (Send L) → List (Feed L)
  feeds_of_sends source v dest_kind number [] = []
  feeds_of_sends source v dest_kind number (s ∷ ss) =
      let rest = feeds_of_sends source v dest_kind number ss in
      if not (s.dest_kind == dest_kind)
      then rest
      else if eqb s.dest number && s.on
      then feed source v s.level s.mode s.on ∷ rest
      else rest

  unfoldable pub feeds_of_mains : Text → View L → ℕ → List (MainSend L) → List (Feed L)
  feeds_of_mains source v number [] = []
  feeds_of_mains source v number (s ∷ ss) =
      let rest = feeds_of_mains source v number ss in
      if eqb s.dest number && s.on then feed source v s.level (codes "MAIN") s.on ∷ rest else rest

  unfoldable pub feeds_of : Text → View L → Section → ℕ → List (Feed L)
  unfolding feeds_of_sends feeds_of_mains
  feeds_of source v (sends_of dest_kind) number = feeds_of_sends source v dest_kind number v.sends
  feeds_of source v main_section number = feeds_of_mains source v number v.main_sends

  -- The loop over the sources.
  unfoldable pub feeds_from : Text → Section → ℕ → List (Text × View L) → List (Feed L)
  unfolding feeds_of
  feeds_from kind section number [] = []
  feeds_from kind section number ((source, v) ∷ more) =
      let rest = feeds_from kind section number more in
      if source == kind && eqb v.number number
      then rest
      else feeds_of source v section number ++ rest

  abbrev pub channel_sources : List (View L) → List (Text × View L)
  channel_sources [] = []
  channel_sources (v ∷ vs) = (codes "channel", v) ∷ channel_sources vs

  -- `family` is `scene.bus_family()`, each entry with its kind; `none` is the `ValueError`.
  unfoldable pub feeds_into :
      List (View L) → List (Text × View L) → Text → ℕ → Option (List (Feed L))
  unfolding send_section feeds_from
  feeds_into channels family kind number = elim (send_section kind) [
    | none ↦ none
    | some section ↦ some (feeds_from kind section number (channel_sources channels ++ family))
  ]

  abbrev pub any_on : List (Send L) → Bool
  any_on [] = false
  any_on (s ∷ ss) = s.on || any_on ss

  abbrev pub any_main_on : List (MainSend L) → Bool
  any_main_on [] = false
  any_main_on (s ∷ ss) = s.on || any_main_on ss

  unfoldable pub feeds_anything : View L → Bool
  feeds_anything v = any_on v.sends || any_main_on v.main_sends

  -- `is_silent` is that of wing_parser/core/normalizer.py, and `is_blank` whether `strip` leaves nothing.
  module _ (is_silent : L → Bool) (is_blank : Text → Bool) where
    unfoldable pub is_live : View L → Bool
    is_live v = not v.muted && not (is_silent v.fader)

    -- The body of the loop of `summarise`.
    unfoldable pub note_channel : View L → RoutingSummary → RoutingSummary
    unfolding is_live feeds_anything
    note_channel v r =
        let live = is_live v in
        record {
          orphan_channels =
              if live && not (feeds_anything v)
              then r.orphan_channels ++ (v.number ∷ [])
              else r.orphan_channels;
          alt_sourced_channels =
              if v.alt_is_off
              then r.alt_sourced_channels
              else r.alt_sourced_channels ++ (v.number ∷ []);
          unpatched_channels =
              if v.source_is_off
              then r.unpatched_channels ++ (v.number ∷ [])
              else r.unpatched_channels;
          unnamed_but_live =
              if live && is_blank v.name
              then r.unnamed_but_live ++ (v.number ∷ [])
              else r.unnamed_but_live;
          live_channel_count = if live then suc r.live_channel_count else r.live_channel_count;
        }

    unfoldable pub summarise_from : RoutingSummary → List (View L) → RoutingSummary
    unfolding note_channel
    summarise_from r [] = r
    summarise_from r (v ∷ vs) = summarise_from (note_channel v r) vs

    unfoldable pub summarise : List (View L) → RoutingSummary
    unfolding summarise_from
    summarise channels =
        summarise_from
          (record {
            orphan_channels = [];
            alt_sourced_channels = [];
            unpatched_channels = [];
            unnamed_but_live = [];
            live_channel_count = 0;
          })
          channels
