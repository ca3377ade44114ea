-- ===== src/Query/Routing/Summary.antt =====
-- The summary is five filters over the channels.
use project008_soundtech_ass.Prelude.{
  ℕ, ◌+◌, ◌≡◌, ◌∙◌, Bool, ◌&&◌, not, List, [], ◌∷◌, ◌++◌, map, append-nil, append_assoc, length,
  arith, filter_by,
}
use project008_soundtech_ass.Prelude.Text.{Text}
use project008_soundtech_ass.Query.Routing.{
  View, RoutingSummary, feeds_anything, is_live, note_channel, summarise_from, summarise,
}

module _ {L : Type 0} where
  -- the numbers of the channels that pass a test
  abbrev pub numbers : (View L → Bool) → List (View L) → List ℕ
  numbers p vs = map (λ v. v.number) (filter_by p vs)

  module _ (is_silent : L → Bool) (is_blank : Text → Bool) where
    abbrev pub reference : List (View L) → RoutingSummary
    reference vs = record {
      orphan_channels = numbers (λ v. is_live is_silent is_blank v && not (feeds_anything v)) vs;
      alt_sourced_channels = numbers (λ v. not v.alt_is_off) vs;
      unpatched_channels = numbers (λ v. v.source_is_off) vs;
      unnamed_but_live = numbers (λ v. is_live is_silent is_blank v && is_blank v.name) vs;
      live_channel_count = length (filter_by (is_live is_silent is_blank) vs);
    }

    abbrev joined : RoutingSummary → RoutingSummary → RoutingSummary
    joined r s = record {
      orphan_channels = r.orphan_channels ++ s.orphan_channels;
      alt_sourced_channels = r.alt_sourced_channels ++ s.alt_sourced_channels;
      unpatched_channels = r.unpatched_channels ++ s.unpatched_channels;
      unnamed_but_live = r.unnamed_but_live ++ s.unnamed_but_live;
      live_channel_count = r.live_channel_count + s.live_channel_count;
    }

    joined-note :
        (r : RoutingSummary) (v : View L) (vs : List (View L))
        → joined (note_channel is_silent is_blank v r) (reference vs)
          ≡ joined r (reference (v ∷ vs))
    unfolding note_channel
    joined-note r v vs = ground (
      arith,
      append_assoc r.orphan_channels (v.number ∷ [])
          (numbers (λ w. is_live is_silent is_blank w && not (feeds_anything w)) vs),
      append_assoc r.alt_sourced_channels (v.number ∷ []) (numbers (λ w. not w.alt_is_off) vs),
      append_assoc r.unpatched_channels (v.number ∷ []) (numbers (λ w. w.source_is_off) vs),
      append_assoc r.unnamed_but_live (v.number ∷ [])
          (numbers (λ w. is_live is_silent is_blank w && is_blank w.name) vs),
    )

    summarise_from-reference :
        (r : RoutingSummary) (vs : List (View L))
        → summarise_from is_silent is_blank r vs ≡ joined r (reference vs)
    unfolding summarise_from note_channel
    summarise_from-reference r [] = ground (
      arith,
      append-nil r.orphan_channels,
      append-nil r.alt_sourced_channels,
      append-nil r.unpatched_channels,
      append-nil r.unnamed_but_live,
    )
    summarise_from-reference r (v ∷ vs) =
        summarise_from-reference (note_channel is_silent is_blank v r) vs ∙ joined-note r v vs

    -- The summary lists the numbers of the channels that pass each test, in order, and counts the live
    -- ones.
    pub summarise-reference :
        (channels : List (View L)) → summarise is_silent is_blank channels ≡ reference channels
    unfolding summarise
    summarise-reference channels = ground (
      arith,
      summarise_from-reference
          (record {
            orphan_channels = [];
            alt_sourced_channels = [];
            unpatched_channels = [];
            unnamed_but_live = [];
            live_channel_count = 0;
          })
          channels,
    )
