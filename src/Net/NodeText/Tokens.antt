-- ===== src/Net/NodeText/Tokens.antt =====
-- The commas outside quotes cut a body into tokens.
use project008_soundtech_ass.Prelude.{
  Bool, true, false, ◌≡◌, ◌∙◌, List, [], ◌∷◌, ◌++◌, arith, ok, >>=-eq-ok, eqb, eqb→eq, Bool-cases,
  inl, inr, append_assoc, append-nil, not, ◌&&◌,
}
use project008_soundtech_ass.Prelude.Text.{Text, join}
use project008_soundtech_ass.Net.Identity.{comma}
use project008_soundtech_ass.Net.NodeText.{quote, split_quoted, split_top_level}

-- the tokens are never none
split_quoted-cons :
    (in_quote : Bool) (current s : Text) (tokens : List Text)
    → split_quoted in_quote current s ≡ ok tokens
    → (first : Text) × (others : List Text) × (tokens ≡ first ∷ others)
unfolding split_quoted
split_quoted-cons true current [] tokens e = absurd (cc)
split_quoted-cons false current [] tokens e = (current, [], ground arith)
split_quoted-cons in_quote current (c ∷ s) tokens e = elim (Bool-cases (eqb c quote)) [
  | inl y ↦ split_quoted-cons (not in_quote) (current ++ c ∷ []) s tokens (ground arith)
  | inr n ↦ elim (Bool-cases (eqb c comma && not in_quote)) [
    | inl y ↦
        let (others, last, _) =
          >>=-eq-ok {last = tokens} (split_quoted in_quote [] s) (λ more. ok (current ∷ more))
            (ground arith) in
        (current, others, ground arith)
    | inr m ↦ split_quoted-cons in_quote (current ++ c ∷ []) s tokens (ground arith)
  ]
]

join-split_quoted :
    (in_quote : Bool) (current s : Text) (tokens : List Text)
    → split_quoted in_quote current s ≡ ok tokens
    → join comma tokens ≡ current ++ s
unfolding split_quoted join
join-split_quoted true current [] tokens e = absurd (cc)
join-split_quoted false current [] tokens e = ground (arith, append-nil current)
join-split_quoted in_quote current (c ∷ s) tokens e = elim (Bool-cases (eqb c quote)) [
  | inl y ↦
      join-split_quoted (not in_quote) (current ++ c ∷ []) s tokens (ground arith)
      ∙ append_assoc current (c ∷ []) s
  | inr n ↦ elim (Bool-cases (eqb c comma && not in_quote)) [
    | inl y ↦
        let (found, last, cut) =
          >>=-eq-ok {last = tokens} (split_quoted in_quote [] s) (λ more. ok (current ∷ more))
            (ground arith) in
        let (first, others, e') = split_quoted-cons in_quote [] s found cut in
        ground (arith, join-split_quoted in_quote [] s found cut, eqb→eq c comma)
    | inr m ↦
        join-split_quoted in_quote (current ++ c ∷ []) s tokens (ground arith)
        ∙ append_assoc current (c ∷ []) s
  ]
]

-- No character of a body is lost: its tokens, joined by commas, are the body again.
pub join-split_top_level :
    (s : Text) (tokens : List Text) → split_top_level s ≡ ok tokens → join comma tokens ≡ s
unfolding split_top_level
join-split_top_level s tokens e = join-split_quoted false [] s tokens e
