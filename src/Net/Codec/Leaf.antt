-- ===== src/Net/Codec/Leaf.antt =====
-- The reply of a leaf: `decode` and then `leaf_value`.
use mathlib.Core.Path.{subst}
use project008_soundtech_ass.Prelude.{
  ℕ, ◌≡◌, ◌≢◌, false, ==_refl, inl, inr, refl, ap, List, [], ◌∷◌, arith, ok, err, ◌>>=◌, ◌==◌,
  Bool-cases, ==→eq, ℤ,
}
use project008_soundtech_ass.Prelude.Text.{Text, text_eq, codes}
use project008_soundtech_ass.Net.Codec.{
  OscArg, OscMessage, text, int, float, blob, Builtins, decode, leaf_value, not_a_leaf,
}
use project008_soundtech_ass.Net.Codec.Typed.{IsOfTag, AllOfTag, decode-IsTyped}

module _ {F : Type 0} where
  text_of : (arg : OscArg F) → IsOfTag (b's') arg → (s : Text) × (arg ≡ text s)
  text_of (text s) t = (s, refl)
  text_of (float x) t = absurd (omega arith)
  text_of (int z) t = absurd (omega arith)
  text_of (blob bytes) t = absurd (omega arith)

  float_of : (arg : OscArg F) → IsOfTag (b'f') arg → (x : F) × (arg ≡ float x)
  float_of (text s) t = absurd (omega arith)
  float_of (float x) t = (x, refl)
  float_of (int z) t = absurd (omega arith)
  float_of (blob bytes) t = absurd (omega arith)

  int_of : (arg : OscArg F) → IsOfTag (b'i') arg → (z : ℤ) × (arg ≡ int z)
  int_of (text s) t = absurd (omega arith)
  int_of (float x) t = absurd (omega arith)
  int_of (int z) t = (z, refl)
  int_of (blob bytes) t = absurd (omega arith)

  none_left : (args : List (OscArg F)) → AllOfTag [] args → args ≡ []
  none_left [] t = refl
  none_left (arg ∷ args) t = elim t [ ]

  -- the arguments of a message of one tag, and of three
  one_arg :
      (t0 : ℕ) (args : List (OscArg F))
      → AllOfTag (t0 ∷ []) args
      → (a0 : OscArg F) × (args ≡ a0 ∷ []) × IsOfTag t0 a0
  one_arg t0 [] t = elim t [ ]
  one_arg t0 (a0 ∷ args) (first, others) =
      (a0, ap (λ more. a0 ∷ more) (none_left args others), first)

  three_args :
      (t0 t1 t2 : ℕ) (args : List (OscArg F))
      → AllOfTag (t0 ∷ t1 ∷ t2 ∷ []) args
      → (a0 a1 a2 : OscArg F) × (args ≡ a0 ∷ a1 ∷ a2 ∷ [])
        × IsOfTag t0 a0
        × IsOfTag t1 a1
        × IsOfTag t2 a2
  three_args t0 t1 t2 [] t = elim t [ ]
  three_args t0 t1 t2 (a0 ∷ []) (_, t) = elim t [ ]
  three_args t0 t1 t2 (a0 ∷ a1 ∷ args) (i0, (i1, t)) =
      let (a2, e, i2) = one_arg t2 args t in (a0, a1, a2, ap (λ more. a0 ∷ a1 ∷ more) e, i0, i1, i2)

  module _ (B : Builtins F) where
    -- What a decoded reply says: a display, a share of the range and the native value; the same with an
    -- index, whose value is read from the display; a text alone; or, with any other tag, no leaf.
    pub data IsLeafReply (m : OscMessage F) : Type 0 where
      of_float :
          (display : Text) (share native : F)
          → m.typetag ≡ codes "sff"
          → m.args ≡ text display ∷ float share ∷ float native ∷ []
          → leaf_value B m ≡ ok (float native, text display)
          → IsLeafReply m
      of_index :
          (display : Text) (share : F) (index : ℤ)
          → m.typetag ≡ codes "sfi"
          → m.args ≡ text display ∷ float share ∷ int index ∷ []
          → leaf_value B m ≡ (B.to_int (text display) >>= λ z. ok (int z, text display))
          → IsLeafReply m
      of_text :
          (display : Text)
          → m.typetag ≡ codes "s"
          → m.args ≡ text display ∷ []
          → leaf_value B m ≡ ok (text display, text display)
          → IsLeafReply m
      no_leaf :
          m.typetag ≢ codes "sff"
          → m.typetag ≢ codes "sfi"
          → m.typetag ≢ codes "s"
          → leaf_value B m ≡ err (not_a_leaf m.address m.typetag)
          → IsLeafReply m

    other_tag : {tag : Text} (other : Text) → (tag == other) ≡ false → tag ≢ other
    other_tag other n e = absurd (ground (arith, ==_refl other))

    -- A message that was decoded has the arguments its type tags say, so `leaf_value` never fails on their
    -- number. For the tags `sff`, `sfi` and `s` it is the native value, the number that the display shows,
    -- or the text; it raises that the message is no leaf only for other tags.
    pub leaf_value-decoded :
        (bytes : List ℕ) (m : OscMessage F) → decode B bytes ≡ ok m → IsLeafReply m
    unfolding leaf_value
    leaf_value-decoded bytes m e = elim (Bool-cases (m.typetag == codes "sff")) [
      | inl y ↦
          let tag = ==→eq m.typetag (codes "sff") y in
          let (a0, a1, a2, es, i0, i1, i2) =
            three_args _ _ _ m.args
              (subst (λ t. AllOfTag t m.args) tag (decode-IsTyped B bytes m e)) in
          let (display, e0) = text_of a0 i0 in
          let (share, e1) = float_of a1 i1 in
          let (native, e2) = float_of a2 i2 in
          of_float display share native tag (ground arith) (ground arith)
      | inr n1 ↦ elim (Bool-cases (m.typetag == codes "sfi")) [
        | inl y ↦
            let tag = ==→eq m.typetag (codes "sfi") y in
            let (a0, a1, a2, es, i0, i1, i2) =
              three_args _ _ _ m.args
                (subst (λ t. AllOfTag t m.args) tag (decode-IsTyped B bytes m e)) in
            let (display, e0) = text_of a0 i0 in
            let (share, e1) = float_of a1 i1 in
            let (index, e2) = int_of a2 i2 in
            of_index display share index tag (ground arith) (ground arith)
        | inr n2 ↦ elim (Bool-cases (m.typetag == codes "s")) [
          | inl y ↦
              let tag = ==→eq m.typetag (codes "s") y in
              let (a0, es, i0) =
                one_arg _ m.args
                  (subst (λ t. AllOfTag t m.args) tag (decode-IsTyped B bytes m e)) in
              let (display, e0) = text_of a0 i0 in of_text display tag (ground arith) (ground arith)
          | inr n3 ↦
              no_leaf (other_tag (codes "sff") n1) (other_tag (codes "sfi") n2)
                (other_tag (codes "s") n3) (ground arith)
        ]
      ]
    ]
