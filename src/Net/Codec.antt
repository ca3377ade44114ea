-- ===== src/Net/Codec.antt =====
-- wing_parser/net/codec.py: one OSC message as bytes. Floats, the conversions of Python's builtins and the
-- decoding of UTF-8 are parameters; the integers of `struct` are written out.
pub mod Fields
pub mod Carried
pub mod RoundTrip
pub mod Typed
pub mod Leaf
use project008_soundtech_ass.Prelude.{
  ℕ, zero, suc, ◌+◌, ◌-◌, ◌*◌, ◌/◌, ◌%◌, ◌^◌, not, Option, none, some, List, [], ◌∷◌, ◌++◌, eqb,
  ltb, length, take, drop, replicate, if◌then◌else◌, ◌==◌, Result, ok, err, ◌>>=◌, ℤ, pos, negsuc,
  ◌+ℤ◌, negate, floor_div, at_least,
}
use project008_soundtech_ass.Prelude.Text.{Text, codes, text_eq}
use project008_soundtech_ass.Net.Identity.{is_ascii, comma}

pub data OscArg (F : Type 0) : Type 0 where
  text : Text → OscArg F
  float : F → OscArg F
  int : ℤ → OscArg F
  blob : List ℕ → OscArg F

pub record OscMessage (F : Type 0) : Type 0 where
  pub address : Text
  pub typetag : Text
  pub args : List (OscArg F)

-- The exceptions: those of `encode` and `decode`, of `struct`, and of the conversions.
pub data OscError : Type 0 where
  not_ascii_text : Text → OscError
  no_terminator : OscError
  no_typetag : Text → ℤ → OscError
  unsupported_tag : ℕ → Text → OscError
  struct_error : OscError
  bad_argument : OscError
  wrong_count : OscError
  not_a_leaf : Text → Text → OscError

-- `str`, `float`, `int`, `bytes`, `struct` on ">f", and `bytes.decode("utf-8", errors="replace")`.
pub record Builtins (F : Type 0) : Type 0 where
  pub to_text : OscArg F → Text
  pub to_float : OscArg F → Result OscError F
  pub to_int : OscArg F → Result OscError ℤ
  pub to_bytes : OscArg F → Result OscError (List ℕ)
  pub pack_float : F → Result OscError (List ℕ)
  pub unpack_float : List ℕ → F
  pub decode_text : List ℕ → Text

unfoldable pub pad : List ℕ → List ℕ
pad bytes =
    let remainder = length bytes % 4 in
    if eqb remainder 0 then bytes else bytes ++ replicate (4 - remainder) 0

unfoldable pub encode_string : Text → Result OscError (List ℕ)
unfolding is_ascii pad
encode_string s = if is_ascii s then ok (pad (s ++ 0 ∷ [])) else err (not_ascii_text s)

-- A bound of a slice: from the end if negative.
abbrev pub slice_at : ℤ → ℕ → ℕ
slice_at (pos i) n = i
slice_at (negsuc i) n = n - suc i

-- `data[start:end]`
abbrev pub slice : List ℕ → ℤ → ℤ → List ℕ
slice bytes start end =
    let first = slice_at start (length bytes) in
    take (slice_at end (length bytes) - first) (drop first bytes)

-- The number of bytes before the first NUL.
unfoldable pub until_nul : List ℕ → Option ℕ
until_nul [] = none
until_nul (b ∷ bs) =
    let rest = until_nul bs in
    if eqb b 0 then some 0 else elim rest [ none ↦ none | some n ↦ some (suc n) ]

-- `data.index(b"\x00", offset)`
unfoldable pub index_nul : List ℕ → ℤ → Option ℕ
unfolding until_nul
index_nul bytes offset =
    let first = slice_at offset (length bytes) in
    elim (until_nul (drop first bytes)) [ none ↦ none | some n ↦ some (first + n) ]

-- `(raw_len // 4 + 1) * 4`
abbrev pub padded_length : ℤ → ℤ
padded_length z = elim (floor_div z 4) [
  | pos n ↦ pos (suc n * 4)
  | negsuc zero ↦ pos 0
  | negsuc (suc n) ↦ negsuc (n * 4 + 3)
]

-- `(blob_len + 3) // 4 * 4`
abbrev pub padded_blob : ℤ → ℤ
padded_blob z = elim (floor_div (z +ℤ pos 3) 4) [
  | pos n ↦ pos (n * 4)
  | negsuc n ↦ negsuc (n * 4 + 3)
]

-- `struct.pack(">i", z)`
abbrev pub word_bytes : ℕ → List ℕ
word_bytes w = w / 2 ^ 24 % 256 ∷ w / 2 ^ 16 % 256 ∷ w / 2 ^ 8 % 256 ∷ w % 256 ∷ []

unfoldable pub pack_int : ℤ → Result OscError (List ℕ)
pack_int (pos n) = if ltb n (2 ^ 31) then ok (word_bytes n) else err struct_error
pack_int (negsuc n) = if ltb n (2 ^ 31) then ok (word_bytes (2 ^ 32 - suc n)) else err struct_error

-- `struct.unpack(">i", data)[0]`
unfoldable pub unpack_int : List ℕ → Result OscError ℤ
unpack_int (a ∷ b ∷ c ∷ d ∷ []) =
    let w = ((a * 256 + b) * 256 + c) * 256 + d in
    ok (if ltb w (2 ^ 31) then pos w else negsuc (2 ^ 32 - suc w))
unpack_int _ = err struct_error

module _ {F : Type 0} (B : Builtins F) where
  unfoldable pub read_string : List ℕ → ℤ → Result OscError (Text × ℤ)
  unfolding index_nul
  read_string bytes offset = elim (index_nul bytes offset) [
    | none ↦ err no_terminator
    | some end ↦ ok (
      B.decode_text (slice bytes offset (pos end)),
      offset +ℤ padded_length (pos end +ℤ negate offset),
    )
  ]

  -- one turn of the loop of `encode`
  unfoldable pub encode_arg : Text → ℕ → OscArg F → Result OscError (List ℕ)
  unfolding encode_string pack_int
  encode_arg address tag arg =
      if eqb tag (b's')
      then encode_string (B.to_text arg)
      else if eqb tag (b'f')
      then (B.to_float arg >>= B.pack_float)
      else if eqb tag (b'i')
      then (B.to_int arg >>= pack_int)
      else if eqb tag (b'b')
      then (B.to_bytes arg >>= λ content.
          pack_int (pos (length content)) >>= λ size. ok (size ++ pad content))
      else err (unsupported_tag tag address)

  unfoldable pub encode_args : Text → Text → List (OscArg F) → Result OscError (List ℕ)
  unfolding encode_arg
  encode_args address [] args = ok []
  encode_args address (tag ∷ tags) [] = ok []
  encode_args address (tag ∷ tags) (arg ∷ args) = encode_arg address tag arg >>= λ field.
      encode_args address tags args >>= λ fields. ok (field ++ fields)

  unfoldable pub encode : Text → Option Text → List (OscArg F) → Result OscError (List ℕ)
  unfolding encode_string encode_args
  encode address none args = encode_string address
  encode address (some typetag) args = encode_string address >>= λ front.
      encode_string (comma ∷ typetag) >>= λ middle.
      encode_args address typetag args >>= λ fields. ok (front ++ middle ++ fields)

  abbrev pub unpack_float : List ℕ → Result OscError F
  unpack_float bytes = if eqb (length bytes) 4 then ok (B.unpack_float bytes) else err struct_error

  -- one turn of the loop of `decode`: the argument and the next offset
  unfoldable pub decode_arg : List ℕ → Text → ℤ → ℕ → Result OscError (OscArg F × ℤ)
  unfolding read_string unpack_int
  decode_arg bytes address offset tag =
      if eqb tag (b's')
      then (read_string bytes offset >>= λ (s, next). ok (text s, next))
      else if eqb tag (b'f')
      then (unpack_float (slice bytes offset (offset +ℤ pos 4)) >>= λ x.
          ok (float x, offset +ℤ pos 4))
      else if eqb tag (b'i')
      then (unpack_int (slice bytes offset (offset +ℤ pos 4)) >>= λ z. ok (int z, offset +ℤ pos 4))
      else if eqb tag (b'b')
      then (unpack_int (slice bytes offset (offset +ℤ pos 4)) >>= λ size. ok (
        blob (slice bytes (offset +ℤ pos 4) (offset +ℤ pos 4 +ℤ size)),
        offset +ℤ pos 4 +ℤ padded_blob size,
      ))
      else err (unsupported_tag tag address)

  unfoldable pub decode_args : List ℕ → Text → ℤ → Text → Result OscError (List (OscArg F))
  unfolding decode_arg
  decode_args bytes address offset [] = ok []
  decode_args bytes address offset (tag ∷ tags) =
      decode_arg bytes address offset tag >>= λ (arg, next).
      decode_args bytes address next tags >>= λ args. ok (arg ∷ args)

  -- What follows the address, if anything does.
  unfoldable pub decode_tagged : List ℕ → Text → ℤ → Result OscError (OscMessage F)
  unfolding read_string decode_args
  decode_tagged bytes address offset =
      if at_least offset (length bytes)
      then ok (record { address = address; typetag = []; args = [] })
      else if not (slice bytes offset (offset +ℤ pos 1) == comma ∷ [])
      then err (no_typetag address offset)
      else (read_string bytes offset >>= λ (field, next).
          decode_args bytes address next (drop 1 field) >>= λ args.
          ok (record { address = address; typetag = drop 1 field; args = args }))

  unfoldable pub decode : List ℕ → Result OscError (OscMessage F)
  unfolding read_string decode_tagged
  decode bytes =
      read_string bytes (pos 0) >>= λ (address, offset). decode_tagged bytes address offset

  -- The value of a leaf and its display.
  unfoldable pub leaf_value : OscMessage F → Result OscError (OscArg F × OscArg F)
  leaf_value m =
      if m.typetag == codes "sff"
      then (elim m.args [
        | (display ∷ _ ∷ native ∷ []) ↦ ok (native, display)
        | _ ↦ err wrong_count
      ])
      else if m.typetag == codes "sfi"
      then (elim m.args [
        | (display ∷ _ ∷ _ ∷ []) ↦ B.to_int display >>= λ z. ok (int z, display)
        | _ ↦ err wrong_count
      ])
      else if m.typetag == codes "s"
      then (elim m.args [ (display ∷ []) ↦ ok (display, display) | _ ↦ err wrong_count ])
      else err (not_a_leaf m.address m.typetag)
