-- ===== src/Net/Codec/Typed.antt =====
-- What is decoded has the types of its tags, and what is encoded has whole words.
use mathlib.Core.Path.{subst}
use project008_soundtech_ass.Prelude.{
  ℕ, ◌%◌, ◌≡◌, some, List, [], ◌∷◌, ◌++◌, arith, length, length-append, drop, Option, ok, ℤ, pos,
  negsuc, ◌+ℤ◌, eqb→eq, Result, ◌==◌, at_least, Bool-cases, inl, inr, ◌>>=◌,
}
use project008_soundtech_ass.Prelude.Text.{Text, text_eq}
use project008_soundtech_ass.Net.Identity.{comma}
use project008_soundtech_ass.Net.Codec.{
  OscError, OscArg, OscMessage, text, int, float, blob, Builtins, pad, encode_string, slice,
  pack_int, read_string, encode_arg, encode_args, encode, decode_arg, decode_args, decode_tagged,
  decode,
}
use project008_soundtech_ass.Net.Codec.Fields.{length-pad}
use project008_soundtech_ass.Prelude.{err, none, >>=-eq-ok}

-- The argument is of the tag's type.
abbrev pub IsOfTag : {F : Type 0} → ℕ → OscArg F → Type 0
IsOfTag tag (text s) = tag ≡ b's'
IsOfTag tag (float x) = tag ≡ b'f'
IsOfTag tag (int z) = tag ≡ b'i'
IsOfTag tag (blob bytes) = tag ≡ b'b'

-- There is one argument for each tag, and it is of the tag's type.
abbrev pub AllOfTag : {F : Type 0} → Text → List (OscArg F) → Type 0
AllOfTag [] [] = Unit
AllOfTag [] (arg ∷ args) = ⊥
AllOfTag (tag ∷ tags) [] = ⊥
AllOfTag (tag ∷ tags) (arg ∷ args) = IsOfTag tag arg × AllOfTag tags args

IsWhole : List ℕ → Type 0
IsWhole bytes = length bytes % 4 ≡ 0

string-IsWhole : (s : Text) (bytes : List ℕ) → encode_string s ≡ ok bytes → IsWhole bytes
unfolding encode_string IsWhole
string-IsWhole s bytes e = ground (arith, length-pad (s ++ 0 ∷ []))

append-IsWhole : (front rest : List ℕ) → IsWhole front → IsWhole rest → IsWhole (front ++ rest)
unfolding IsWhole
append-IsWhole front rest f r = ground (arith, length-append front rest)

int-IsWhole : (z : ℤ) (bytes : List ℕ) → pack_int z ≡ ok bytes → IsWhole bytes
unfolding pack_int IsWhole
int-IsWhole (pos n) bytes e = ground arith
int-IsWhole (negsuc n) bytes e = ground arith

blob-IsWhole :
    (content : Result OscError (List ℕ)) (field : List ℕ)
    → (content >>= λ content. pack_int (pos (length content)) >>= λ size. ok (size ++ pad content))
      ≡ ok field
    → IsWhole field
blob-IsWhole (err raised) field e = absurd (cc)
blob-IsWhole (ok content) field e =
    let (size, last, packed) =
      >>=-eq-ok (pack_int (pos (length content))) (λ size. ok (size ++ pad content)) e in
    subst IsWhole {x = size ++ pad content} (ground arith) (
      append-IsWhole size (pad content) (int-IsWhole (pos (length content)) size packed)
        (unfold IsWhole in ground (arith, length-pad content)))

module _ {F : Type 0} (B : Builtins F) where
  decode_arg-IsOfTag :
      (bytes : List ℕ) (address : Text) (offset next : ℤ) (tag : ℕ) (arg : OscArg F)
      → decode_arg B bytes address offset tag ≡ ok (arg, next)
      → IsOfTag tag arg
  unfolding decode_arg
  decode_arg-IsOfTag bytes address offset next tag arg e =
      ground (arith, eqb→eq tag (b's'), eqb→eq tag (b'f'), eqb→eq tag (b'i'), eqb→eq tag (b'b'))

  decode_args-AllOfTag :
      (bytes : List ℕ) (address : Text) (offset : ℤ) (tags : Text) (args : List (OscArg F))
      → decode_args B bytes address offset tags ≡ ok args
      → AllOfTag tags args
  unfolding decode_args
  decode_args-AllOfTag bytes address offset [] [] e = tt
  decode_args-AllOfTag bytes address offset [] (arg ∷ args) e = absurd (cc)
  decode_args-AllOfTag bytes address offset (tag ∷ tags) args e =
      let ((arg, next), rest-e, first) =
        >>=-eq-ok (decode_arg B bytes address offset tag)
          (λ r. decode_args B bytes address r.1 tags >>= λ more. ok (r.0 ∷ more)) e in
      let (others, last, es) =
        >>=-eq-ok (decode_args B bytes address next tags) (λ more. ok (arg ∷ more)) rest-e in
      subst (AllOfTag (tag ∷ tags)) {x = arg ∷ others} (ground arith) (
        decode_arg-IsOfTag bytes address offset next tag arg first,
        decode_args-AllOfTag bytes address next tags others es,
      )

  decode_tagged-IsTyped :
      (bytes : List ℕ) (address : Text) (offset : ℤ) (m : OscMessage F)
      → decode_tagged B bytes address offset ≡ ok m
      → AllOfTag m.typetag m.args
  unfolding decode_tagged
  decode_tagged-IsTyped bytes address offset m e =
      elim (Bool-cases (at_least offset (length bytes))) [
        | inl y ↦
            subst (λ (m : OscMessage F). AllOfTag m.typetag m.args)
              {x = record { address = address; typetag = []; args = [] }} {y = m} (ground arith) tt
        | inr n ↦ elim (Bool-cases (slice bytes offset (offset +ℤ pos 1) == comma ∷ [])) [
          | inr other ↦ absurd (ground arith)
          | inl y ↦
              let ((field, next), rest-e, _) =
                >>=-eq-ok {last = m} (read_string B bytes offset) (tail address) (ground arith) in
              let (args, last, es) =
                >>=-eq-ok (decode_args B bytes address next (drop 1 field)) (whole address field)
                  rest-e in
              subst (λ (m : OscMessage F). AllOfTag m.typetag m.args)
                {x = record { address = address; typetag = drop 1 field; args = args }} {y = m}
                (ground arith) (decode_args-AllOfTag bytes address next (drop 1 field) args es)
        ]
      ]
    where
      whole : Text → Text → List (OscArg F) → Result OscError (OscMessage F)
      whole address field args =
          ok (record { address = address; typetag = drop 1 field; args = args })

      tail : Text → Text × ℤ → Result OscError (OscMessage F)
      tail address (field, next) =
          decode_args B bytes address next (drop 1 field) >>= whole address field

  -- A decoded message has one argument for each type tag, and each is of the tag's type.
  pub decode-IsTyped :
      (bytes : List ℕ) (m : OscMessage F) → decode B bytes ≡ ok m → AllOfTag m.typetag m.args
  unfolding decode
  decode-IsTyped bytes m e =
      let ((address, offset), rest-e, first) =
        >>=-eq-ok (read_string B bytes (pos 0)) (λ r. decode_tagged B bytes r.0 r.1) e in
      decode_tagged-IsTyped bytes address offset m rest-e

  encode_arg-IsWhole :
      (four : (x : F) (bytes : List ℕ) → B.pack_float x ≡ ok bytes → length bytes ≡ 4)
      (address : Text) (tag : ℕ) (arg : OscArg F) (field : List ℕ)
      → encode_arg B address tag arg ≡ ok field
      → IsWhole field
  unfolding encode_arg
  encode_arg-IsWhole four address tag arg field e = ground (
    arith,
    string-IsWhole (B.to_text arg) field,
    float-IsWhole (B.to_float arg) field,
    int_of-IsWhole (B.to_int arg) field,
    blob-IsWhole (B.to_bytes arg) field,
  )
    where
      float-IsWhole :
          (x : Result OscError F) (field : List ℕ) → (x >>= B.pack_float) ≡ ok field → IsWhole field
      float-IsWhole (err raised) field e = absurd (cc)
      float-IsWhole (ok x) field e = unfold IsWhole in ground (arith, four x field)

      int_of-IsWhole :
          (z : Result OscError ℤ) (field : List ℕ) → (z >>= pack_int) ≡ ok field → IsWhole field
      int_of-IsWhole (err raised) field e = absurd (cc)
      int_of-IsWhole (ok z) field e = int-IsWhole z field e

  encode_args-IsWhole :
      (four : (x : F) (bytes : List ℕ) → B.pack_float x ≡ ok bytes → length bytes ≡ 4)
      (address : Text) (tags : Text) (args : List (OscArg F)) (fields : List ℕ)
      → encode_args B address tags args ≡ ok fields
      → IsWhole fields
  unfolding encode_args IsWhole
  encode_args-IsWhole four address [] args fields e = ground arith
  encode_args-IsWhole four address (tag ∷ tags) [] fields e = ground arith
  encode_args-IsWhole four address (tag ∷ tags) (arg ∷ args) fields e =
      let (field, rest-e, first) =
        >>=-eq-ok (encode_arg B address tag arg)
          (λ field. encode_args B address tags args >>= λ more. ok (field ++ more)) e in
      let (others, last, es) =
        >>=-eq-ok (encode_args B address tags args) (λ more. ok (field ++ more)) rest-e in
      ground (
        arith,
        append-IsWhole field others (encode_arg-IsWhole four address tag arg field first)
            (encode_args-IsWhole four address tags args others es),
      )

  -- Whatever is encoded is a whole number of 32-bit words, if a packed float is four bytes.
  pub length-encode :
      (four : (x : F) (bytes : List ℕ) → B.pack_float x ≡ ok bytes → length bytes ≡ 4)
      (address : Text) (typetag : Option Text) (args : List (OscArg F)) (bytes : List ℕ)
      → encode B address typetag args ≡ ok bytes
      → length bytes % 4 ≡ 0
  unfolding encode IsWhole
  length-encode four address none args bytes e = string-IsWhole address bytes e
  length-encode four address (some typetag) args bytes e =
      let (front, e1, f1) = >>=-eq-ok (encode_string address) after_address e in
      let (middle, e2, f2) = >>=-eq-ok (encode_string (comma ∷ typetag)) (after_tags front) e1 in
      let (fields, e3, f3) =
        >>=-eq-ok (encode_args B address typetag args) (λ fields. ok (front ++ middle ++ fields))
          e2 in
      ground (
        arith,
        append-IsWhole (front ++ middle) fields
            (append-IsWhole front middle (string-IsWhole address front f1)
              (string-IsWhole (comma ∷ typetag) middle f2))
            (encode_args-IsWhole four address typetag args fields f3),
      )
    where
      after_tags : List ℕ → List ℕ → Result OscError (List ℕ)
      after_tags front middle =
          encode_args B address typetag args >>= λ fields. ok (front ++ middle ++ fields)

      after_address : List ℕ → Result OscError (List ℕ)
      after_address front = encode_string (comma ∷ typetag) >>= after_tags front
