-- ===== src/Query/Routing/Feeds.antt =====
-- What the feeds of a destination are.
use project008_soundtech_ass.Prelude.{
  ℕ, ◌≡◌, refl, sym, ap, ◌∙◌, true, false, ◌&&◌, some, List, [], ◌∷◌, ◌++◌, ◌==◌, All, All-append,
  eqb, arith, filter_by, Bool-cases, inl, inr, Option-cases,
}
use project008_soundtech_ass.Prelude.Text.{Text, codes, text_eq}
use project008_soundtech_ass.Query.Routing.{
  Send, MainSend, View, Feed, Section, sends_of, main_section, send_section, feeds_of_sends,
  feeds_of_mains, feeds_of, feeds_from, channel_sources, feeds_into,
}

module _ {L : Type 0} where
  -- a feed that is on and does not come from the destination itself
  abbrev pub IsOther : Text → ℕ → Feed L → Type 0
  IsOther kind number f = (f.on ≡ true) × ((f.kind == kind && eqb f.number number) ≡ false)

  feeds_of_sends-IsOther :
      (kind source : Text) (v : View L) (dest_kind : Text) (number : ℕ) (ss : List (Send L))
      → (source == kind && eqb v.number number) ≡ false
      → All (IsOther kind number) (feeds_of_sends source v dest_kind number ss)
  unfolding feeds_of_sends
  feeds_of_sends-IsOther kind source v dest_kind number [] h = tt
  feeds_of_sends-IsOther kind source v dest_kind number (s ∷ ss) h =
      ground (arith, feeds_of_sends-IsOther kind source v dest_kind number ss h)

  feeds_of_mains-IsOther :
      (kind source : Text) (v : View L) (number : ℕ) (ss : List (MainSend L))
      → (source == kind && eqb v.number number) ≡ false
      → All (IsOther kind number) (feeds_of_mains source v number ss)
  unfolding feeds_of_mains
  feeds_of_mains-IsOther kind source v number [] h = tt
  feeds_of_mains-IsOther kind source v number (s ∷ ss) h =
      ground (arith, feeds_of_mains-IsOther kind source v number ss h)

  feeds_of-IsOther :
      (kind source : Text) (v : View L) (section : Section) (number : ℕ)
      → (source == kind && eqb v.number number) ≡ false
      → All (IsOther kind number) (feeds_of source v section number)
  unfolding feeds_of
  feeds_of-IsOther kind source v (sends_of d) number h =
      feeds_of_sends-IsOther kind source v d number v.sends h
  feeds_of-IsOther kind source v main_section number h =
      feeds_of_mains-IsOther kind source v number v.main_sends h

  feeds_from-IsOther :
      (kind : Text) (section : Section) (number : ℕ) (sources : List (Text × View L))
      → All (IsOther kind number) (feeds_from kind section number sources)
  unfolding feeds_from
  feeds_from-IsOther kind section number [] = tt
  feeds_from-IsOther kind section number ((source, v) ∷ more) =
      elim (Bool-cases (source == kind && eqb v.number number)) [
        | inl y ↦ ground (arith, feeds_from-IsOther kind section number more)
        | inr n ↦ rw n (
            All-append (IsOther kind number) (feeds_of source v section number)
              (feeds_from kind section number more)
              (feeds_of-IsOther kind source v section number n)
              (feeds_from-IsOther kind section number more))
      ]

  -- Each feed of a destination is on, and none is the destination itself.
  feeds_into-IsOther :
      (channels : List (View L)) (family : List (Text × View L)) (kind : Text) (number : ℕ)
      (feeds : List (Feed L))
      → feeds_into channels family kind number ≡ some feeds
      → All (IsOther kind number) feeds
  unfolding feeds_into
  feeds_into-IsOther channels family kind number feeds h = elim (Option-cases (send_section kind)) [
    | inl n ↦ absurd (ground arith)
    | inr (section, k) ↦
        rw (feeds_eq section k)
          (feeds_from-IsOther kind section number (channel_sources channels ++ family))
  ]
    where
      feeds_eq :
          (section : Section)
          → send_section kind ≡ some section
          → feeds ≡ feeds_from kind section number (channel_sources channels ++ family)
      feeds_eq section k = ground arith

  -- the view without the sends to another kind of destination
  abbrev pub only : Text → View L → View L
  only d v = record v { sends = filter_by (λ s. s.dest_kind == d) v.sends }

  abbrev pub only_all : Text → List (Text × View L) → List (Text × View L)
  only_all d [] = []
  only_all d ((k, v) ∷ vs) = (k, only d v) ∷ only_all d vs

  feeds_of_sends-only :
      (source : Text) (v : View L) (d : Text) (number : ℕ) (ss : List (Send L))
      → feeds_of_sends source (only d v) d number (filter_by (λ s. s.dest_kind == d) ss)
        ≡ feeds_of_sends source v d number ss
  unfolding feeds_of_sends
  feeds_of_sends-only source v d number [] = refl
  feeds_of_sends-only source v d number (s ∷ ss) =
      ground (arith, feeds_of_sends-only source v d number ss)

  feeds_from-only :
      (kind d : Text) (number : ℕ) (sources : List (Text × View L))
      → feeds_from kind (sends_of d) number (only_all d sources)
        ≡ feeds_from kind (sends_of d) number sources
  unfolding feeds_from feeds_of
  feeds_from-only kind d number [] = refl
  feeds_from-only kind d number ((source, v) ∷ more) =
      ground
        (arith, feeds_from-only kind d number more, feeds_of_sends-only source v d number v.sends)

  only_all-append :
      (d : Text) (xs ys : List (Text × View L))
      → only_all d (xs ++ ys) ≡ only_all d xs ++ only_all d ys
  only_all-append d [] ys = refl
  only_all-append d (x ∷ xs) ys = ap (λ zs. (x.0, only d x.1) ∷ zs) (only_all-append d xs ys)

  abbrev pub only_channels : Text → List (View L) → List (View L)
  only_channels d [] = []
  only_channels d (v ∷ vs) = only d v ∷ only_channels d vs

  only_all-channel_sources :
      (d : Text) (vs : List (View L))
      → channel_sources (only_channels d vs) ≡ only_all d (channel_sources vs)
  only_all-channel_sources d [] = refl
  only_all-channel_sources d (v ∷ vs) =
      ap (λ zs. (codes "channel", only d v) ∷ zs) (only_all-channel_sources d vs)

  -- The feeds of a bus stay the same when the sends to all that is not a bus are taken away.
  feeds_into-only_bus :
      (channels : List (View L)) (family : List (Text × View L)) (number : ℕ)
      → feeds_into
          (only_channels (codes "bus") channels)
          (only_all (codes "bus") family)
          (codes "bus")
          number
        ≡ feeds_into channels family (codes "bus") number
  unfolding feeds_into send_section text_eq
  feeds_into-only_bus channels family number = ap some (
      ap (λ vs. feeds_from (codes "bus") (sends_of (codes "bus")) number vs)
        (ap (λ vs. vs ++ only_all (codes "bus") family)
            (only_all-channel_sources (codes "bus") channels)
          ∙ sym (only_all-append (codes "bus") (channel_sources channels) family))
      ∙ feeds_from-only (codes "bus") (codes "bus") number (channel_sources channels ++ family))
