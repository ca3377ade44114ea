-- ===== src/Net/Identity/Reply.antt =====
-- The replies that are accepted.
use project008_soundtech_ass.Prelude.{
  ℕ, ◌≡◌, refl, sym, ap, ◌∙◌, true, List, [], ◌∷◌, ◌++◌, ok, arith, Bool-cases, inl, inr, eqb,
  eqb→eq, All, drop, append_assoc, append-nil,
}
use project008_soundtech_ass.Prelude.Text.{Text, starts_with, split, split_from, join}
use project008_soundtech_ass.Prelude.Text.Split.{Lacks, split-join}
use project008_soundtech_ass.Console.Records.{WingIdentity}
use project008_soundtech_ass.Net.Identity.{
  comma, wing_prefix, is_ascii, identity_of, parse_identity,
}

abbrev pub fields : WingIdentity → List Text
fields w = w.ip ∷ w.name ∷ w.model ∷ w.serial ∷ w.firmware ∷ []

-- the reply of a desk with the identity
abbrev pub reply : WingIdentity → Text
reply w = wing_prefix ++ join comma (fields w)

-- A desk whose reply is ASCII and whose fields have no comma is identified by its reply.
parse_identity-reply :
    (w : WingIdentity)
    → is_ascii (reply w) ≡ true
    → All (Lacks comma) (fields w)
    → parse_identity (reply w) ≡ ok w
unfolding parse_identity identity_of
parse_identity-reply w a (l, ls) =
    rw (a, split-join comma w.ip (w.name ∷ w.model ∷ w.serial ∷ w.firmware ∷ []) l ls) refl

join-cons :
    (sep : ℕ) (p cur s : Text)
    → join sep (p ∷ split_from sep cur s) ≡ p ++ sep ∷ join sep (split_from sep cur s)
unfolding split_from join
join-cons sep p cur [] = refl
join-cons sep p cur (c ∷ s) = elim (Bool-cases (eqb c sep)) [
  | inl y ↦ ground arith
  | inr n ↦ ground (arith, join-cons sep p (cur ++ c ∷ []) s)
]

join-split_from : (sep : ℕ) (cur s : Text) → join sep (split_from sep cur s) ≡ cur ++ s
unfolding split_from join
join-split_from sep cur [] = sym (append-nil cur)
join-split_from sep cur (c ∷ s) = elim (Bool-cases (eqb c sep)) [
  | inl y ↦ rw y (
      join-cons sep cur [] s
      ∙ ap (λ t. cur ++ sep ∷ t) (join-split_from sep [] s)
      ∙ ap (λ d. cur ++ d ∷ s) (sym (eqb→eq c sep y)))
  | inr n ↦ rw n (join-split_from sep (cur ++ c ∷ []) s ∙ append_assoc cur (c ∷ []) s)
]

starts_with-wing :
    (raw : Text) → starts_with raw wing_prefix ≡ true → raw ≡ wing_prefix ++ drop 5 raw
starts_with-wing [] h = absurd (cc)
starts_with-wing (a ∷ []) h = absurd (ground arith)
starts_with-wing (a ∷ b ∷ []) h = absurd (ground arith)
starts_with-wing (a ∷ b ∷ c ∷ []) h = absurd (ground arith)
starts_with-wing (a ∷ b ∷ c ∷ d ∷ []) h = absurd (ground arith)
starts_with-wing (a ∷ b ∷ c ∷ d ∷ e ∷ raw) h =
    ground
      (arith, eqb→eq a (b'W'), eqb→eq b (b'I'), eqb→eq c (b'N'), eqb→eq d (b'G'), eqb→eq e (b','))

identity_of-fields : (fs : List Text) (w : WingIdentity) → identity_of fs ≡ ok w → fs ≡ fields w
unfolding identity_of
identity_of-fields [] w h = absurd (cc)
identity_of-fields (a ∷ []) w h = absurd (cc)
identity_of-fields (a ∷ b ∷ []) w h = absurd (cc)
identity_of-fields (a ∷ b ∷ c ∷ []) w h = absurd (cc)
identity_of-fields (a ∷ b ∷ c ∷ d ∷ []) w h = absurd (cc)
identity_of-fields (a ∷ b ∷ c ∷ d ∷ e ∷ []) w h = ground arith
identity_of-fields (a ∷ b ∷ c ∷ d ∷ e ∷ f ∷ fs) w h = absurd (cc)

-- Only the reply of the identity itself, and only in ASCII, is read as that identity.
parse_identity-exact :
    (raw : Text) (w : WingIdentity)
    → parse_identity raw ≡ ok w
    → (raw ≡ reply w) × (is_ascii raw ≡ true)
unfolding parse_identity split
parse_identity-exact raw w h = elim (Bool-cases (is_ascii raw)) [
  | inr n ↦ absurd (ground arith)
  | inl a ↦ elim (Bool-cases (starts_with raw wing_prefix)) [
    | inr n ↦ absurd (ground arith)
    | inl p ↦ (
      starts_with-wing raw p
          ∙ ap (λ t. wing_prefix ++ t)
              (sym (join-split_from comma [] (drop 5 raw))
                ∙ ap (join comma)
                    (identity_of-fields (split_from comma [] (drop 5 raw)) w (left a p))),
      a,
    )
  ]
]
  where
    left :
        is_ascii raw ≡ true
        → starts_with raw wing_prefix ≡ true
        → identity_of (split_from comma [] (drop 5 raw)) ≡ ok w
    left a p = ground arith
