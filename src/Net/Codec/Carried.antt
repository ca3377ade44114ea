-- ===== src/Net/Codec/Carried.antt =====
-- An argument that fits its type tag is carried: its field is read back wherever it stands.
use mathlib.Core.Path.{subst}
use project008_soundtech_ass.Prelude.{
  ℕ, suc, ◌+◌, ◌-◌, ◌%◌, ◌^◌, ◌<◌, ◌≡◌, refl, sym, ap, ◌∙◌, true, List, [], ◌∷◌, ◌++◌, arith,
  length, length-append, replicate, append_assoc, append-nil, eqb, ok, ℤ, pos, negsuc, Bool-cases,
  inl, inr,
}
use project008_soundtech_ass.Prelude.Text.{Text}
use project008_soundtech_ass.Prelude.Text.Split.{Lacks}
use project008_soundtech_ass.Net.Identity.{is_ascii}
use project008_soundtech_ass.Net.Codec.{
  OscArg, text, int, float, blob, Builtins, pad, slice, word_bytes, pack_int, encode_arg,
  decode_arg,
}
use project008_soundtech_ass.Net.Codec.Fields.{
  string_bytes, encode_string-ok, read_string-bytes, slice-piece, unpack_int-pack, length-pad,
}

-- What Python's conversions do on an argument that has the type already, and on ASCII.
pub record BuiltinLaws {F : Type 0} (B : Builtins F) : Type 0 where
  pub text_kept : (s : Text) → B.to_text (text s) ≡ s
  pub float_kept : (x : F) → B.to_float (float x) ≡ ok x
  pub int_kept : (z : ℤ) → B.to_int (int z) ≡ ok z
  pub blob_kept : (bytes : List ℕ) → B.to_bytes (blob bytes) ≡ ok bytes
  pub four_bytes : (x : F) (bytes : List ℕ) → B.pack_float x ≡ ok bytes → length bytes ≡ 4
  pub ascii_kept : (s : Text) → is_ascii s ≡ true → B.decode_text s ≡ s

-- ASCII without a NUL
abbrev pub IsPlain : Text → Type 0
IsPlain s = (is_ascii s ≡ true) × Lacks 0 s

abbrev pub IsInt32 : ℤ → Type 0
IsInt32 (pos n) = n < 2 ^ 31
IsInt32 (negsuc n) = n < 2 ^ 31

module _ {F : Type 0} (B : Builtins F) where
  -- A float that four bytes hold exactly.
  abbrev pub IsFloat32 : F → Type 0
  IsFloat32 x = (bytes : List ℕ) × (B.pack_float x ≡ ok bytes) × (B.unpack_float bytes ≡ x)

  -- The argument is of the tag's type, and the wire can carry it.
  abbrev pub Fits : ℕ → OscArg F → Type 0
  Fits tag (text s) = (tag ≡ b's') × IsPlain s
  Fits tag (float x) = (tag ≡ b'f') × IsFloat32 x
  Fits tag (int z) = (tag ≡ b'i') × IsInt32 z
  Fits tag (blob bytes) = (tag ≡ b'b') × (length bytes < 2 ^ 31)

  abbrev pub AllFit : Text → List (OscArg F) → Type 0
  AllFit [] [] = Unit
  AllFit [] (arg ∷ args) = ⊥
  AllFit (tag ∷ tags) [] = ⊥
  AllFit (tag ∷ tags) (arg ∷ args) = Fits tag arg × AllFit tags args

pack_int-ok : (z : ℤ) → IsInt32 z → (bytes : List ℕ) × (pack_int z ≡ ok bytes) × (length bytes ≡ 4)
unfolding pack_int
pack_int-ok (pos n) h = (word_bytes n, ground arith, refl)
pack_int-ok (negsuc n) h = (word_bytes (2 ^ 32 - suc n), ground arith, refl)

pad-zeros : (bytes : List ℕ) → (n : ℕ) × (pad bytes ≡ bytes ++ replicate n 0)
unfolding pad
pad-zeros bytes = elim (Bool-cases (eqb (length bytes % 4) 0)) [
  | inl y ↦ (0, rw y (sym (append-nil bytes)))
  | inr n ↦ (4 - length bytes % 4, rw n refl)
]

module _ {F : Type 0} (B : Builtins F) (L : BuiltinLaws B) (address : Text) where
  -- What the field of an argument is, and that it is read back wherever it stands.
  unfoldable pub IsCarried : ℕ → OscArg F → Type 0
  IsCarried tag arg =
      (field : List ℕ) × (encode_arg B address tag arg ≡ ok field)
      × ((front rest : List ℕ)
          → decode_arg B (front ++ (field ++ rest)) address (pos (length front)) tag
            ≡ ok (arg, pos (length front + length field)))

  text-IsCarried : (s : Text) → IsPlain s → IsCarried (b's') (text s)
  unfolding encode_arg decode_arg IsCarried
  text-IsCarried s (a, n) = (
    string_bytes s,
    rw (L.text_kept s) (encode_string-ok s a),
    λ front rest. ground (arith, read_string-bytes B front s rest (L.ascii_kept s a) n),
  )

  float-IsCarried : (x : F) → IsFloat32 B x → IsCarried (b'f') (float x)
  unfolding encode_arg decode_arg IsCarried
  float-IsCarried x (bytes, p, u) = (
    bytes,
    ground (arith, L.float_kept x),
    λ front rest. ground (arith, slice-piece front bytes rest, L.four_bytes x bytes p),
  )

  int-IsCarried : (z : ℤ) → IsInt32 z → IsCarried (b'i') (int z)
  unfolding encode_arg decode_arg IsCarried
  int-IsCarried z h =
      let (bytes, p, four) = pack_int-ok z h in
      (
        bytes,
        ground (arith, L.int_kept z),
        λ front rest. ground (arith, slice-piece front bytes rest, unpack_int-pack z bytes p),
      )

  -- a piece behind a word that stands behind the front
  piece_behind :
      (front word piece zeros rest : List ℕ)
      → length word ≡ 4
      → slice
          (front ++ ((word ++ (piece ++ zeros)) ++ rest))
          (pos (length front + 4))
          (pos (length front + 4 + length piece))
        ≡ piece
  piece_behind front word piece zeros rest four =
      subst
        (λ bytes.
          slice bytes (pos (length front + 4)) (pos (length front + 4 + length piece)) ≡ piece)
        (sym whole)
        (subst
          (λ n.
            slice ((front ++ word) ++ (piece ++ (zeros ++ rest))) (pos n) (pos (n + length piece))
            ≡ piece)
          {y = length front + 4} (length-append front word ∙ ap (λ n. length front + n) four)
          (slice-piece (front ++ word) piece (zeros ++ rest)))
    where
      whole :
          front ++ ((word ++ (piece ++ zeros)) ++ rest)
          ≡ (front ++ word) ++ (piece ++ (zeros ++ rest))
      whole =
          rw
            (
              append_assoc word (piece ++ zeros) rest,
              append_assoc piece zeros rest,
              append_assoc front word (piece ++ (zeros ++ rest)),
            )
            refl

  blob-IsCarried : (content : List ℕ) → length content < 2 ^ 31 → IsCarried (b'b') (blob content)
  unfolding encode_arg decode_arg IsCarried
  blob-IsCarried content h =
      let (word, p, four) = pack_int-ok (pos (length content)) h in
      let (n, zeros) = pad-zeros content in
      (
        word ++ pad content,
        ground (arith, L.blob_kept content),
        λ front rest. ground (
          arith,
          zeros,
          append_assoc word (content ++ replicate n 0) rest,
          slice-piece front word ((content ++ replicate n 0) ++ rest),
          unpack_int-pack (pos (length content)) word p,
          piece_behind front word content (replicate n 0) rest four,
          length-append word (pad content),
          length-pad content,
        ),
      )

  pub arg-IsCarried : (tag : ℕ) (arg : OscArg F) → Fits B tag arg → IsCarried tag arg
  arg-IsCarried tag (text s) (e, f) = subst (λ t. IsCarried t (text s)) (sym e) (text-IsCarried s f)
  arg-IsCarried tag (float x) (e, f) =
      subst (λ t. IsCarried t (float x)) (sym e) (float-IsCarried x f)
  arg-IsCarried tag (int z) (e, f) = subst (λ t. IsCarried t (int z)) (sym e) (int-IsCarried z f)
  arg-IsCarried tag (blob c) (e, f) = subst (λ t. IsCarried t (blob c)) (sym e) (blob-IsCarried c f)
