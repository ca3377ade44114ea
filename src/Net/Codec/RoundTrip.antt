-- ===== src/Net/Codec/RoundTrip.antt =====
-- What is encoded decodes to itself.
use project008_soundtech_ass.Prelude.{
  ℕ, suc, ◌-◌, ◌%◌, ◌≡◌, refl, some, List, [], ◌∷◌, ◌++◌, arith, length, length-append, replicate,
  append_assoc, ok, pos,
}
use project008_soundtech_ass.Prelude.Text.{Text}
use project008_soundtech_ass.Net.Identity.{is_ascii, comma}
use project008_soundtech_ass.Net.Codec.{
  OscArg, Builtins, encode_args, encode, decode_args, decode_tagged, decode,
}
use project008_soundtech_ass.Net.Codec.Carried.{
  BuiltinLaws, IsPlain, AllFit, IsCarried, arg-IsCarried,
}
use project008_soundtech_ass.Net.Codec.Fields.{
  string_bytes, encode_string-ok, length-string_bytes, read_string-bytes, slice-piece,
}

module _ {F : Type 0} (B : Builtins F) (L : BuiltinLaws B) (address : Text) where
  -- The same of all the fields.
  AreCarried : Text → List (OscArg F) → Type 0
  AreCarried tags args =
      (fields : List ℕ) × (encode_args B address tags args ≡ ok fields)
      × ((front : List ℕ)
          → decode_args B (front ++ fields) address (pos (length front)) tags ≡ ok args)

  args-AreCarried :
      (tags : Text) (args : List (OscArg F)) → AllFit B tags args → AreCarried tags args
  unfolding encode_args decode_args IsCarried AreCarried
  args-AreCarried [] [] _ = ([], refl, λ front. refl)
  args-AreCarried [] (arg ∷ args) f = elim f [ ]
  args-AreCarried (tag ∷ tags) [] f = elim f [ ]
  args-AreCarried (tag ∷ tags) (arg ∷ args) (f, fs) =
      let (field, e, d) = arg-IsCarried B L address tag arg f in
      let (fields, es, ds) = args-AreCarried tags args fs in
      (
        field ++ fields,
        ground (arith, e, es),
        λ front. ground (
          arith,
          d front fields,
          ds (front ++ field),
          append_assoc front field fields,
          length-append front field,
        ),
      )

  decode_tagged-bytes :
      (typetag : Text) (args : List (OscArg F)) (front fields : List ℕ)
      → IsPlain typetag
      → decode_args B
          ((front ++ string_bytes (comma ∷ typetag)) ++ fields)
          address
          (pos (length (front ++ string_bytes (comma ∷ typetag))))
          typetag
        ≡ ok args
      → decode_tagged B
          (front ++ (string_bytes (comma ∷ typetag) ++ fields))
          address
          (pos (length front))
        ≡ ok (record { address = address; typetag = typetag; args = args })
  unfolding decode_tagged is_ascii
  decode_tagged-bytes typetag args front fields (a, n) d = ground (
    arith,
    length-append front (string_bytes (comma ∷ typetag) ++ fields),
    length-append (string_bytes (comma ∷ typetag)) fields,
    length-append front (string_bytes (comma ∷ typetag)),
    length-string_bytes (comma ∷ typetag),
    slice-piece front (comma ∷ [])
        ((typetag ++ 0 ∷ replicate (3 - suc (length typetag) % 4) 0) ++ fields),
    read_string-bytes B front (comma ∷ typetag) fields (L.ascii_kept (comma ∷ typetag) a) (refl, n),
    append_assoc front (string_bytes (comma ∷ typetag)) fields,
    d,
  )

  -- A message whose address and type tags are plain ASCII, and whose arguments fit their tags, is encoded,
  -- and the bytes decode to the same message.
  pub decode-encode :
      (typetag : Text) (args : List (OscArg F))
      → IsPlain address
      → IsPlain typetag
      → AllFit B typetag args
      → (bytes : List ℕ) × (encode B address (some typetag) args ≡ ok bytes)
        × (decode B bytes ≡ ok (record { address = address; typetag = typetag; args = args }))
  unfolding encode decode AreCarried is_ascii
  decode-encode typetag args a t f =
      let (fields, e, d) = args-AreCarried typetag args f in
      let here = string_bytes address in
      (
        here ++ (string_bytes (comma ∷ typetag) ++ fields),
        ground (
          arith,
          encode_string-ok address a.0,
          encode_string-ok (comma ∷ typetag) t.0,
          e,
          append_assoc here (string_bytes (comma ∷ typetag)) fields,
        ),
        ground (
          arith,
          read_string-bytes B [] address (string_bytes (comma ∷ typetag) ++ fields)
              (L.ascii_kept address a.0) a.1,
          decode_tagged-bytes typetag args here fields t
              (d (here ++ string_bytes (comma ∷ typetag))),
        ),
      )
