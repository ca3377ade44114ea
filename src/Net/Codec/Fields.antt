-- ===== src/Net/Codec/Fields.antt =====
-- The fields of a message: a string, an integer and a blob are read back where they stand.
use project008_soundtech_ass.Prelude.{
  ℕ, suc, ◌+◌, ◌-◌, ◌*◌, ◌/◌, ◌%◌, ◌≡◌, refl, ap, ◌∙◌, true, false, some, List, [], ◌∷◌, ◌++◌,
  arith, length, length-append, length-replicate, take, take-append, drop-append, replicate,
  append_assoc, eqb, ok, ℤ, pos, negsuc, ◌+ℤ◌, negate, eqb→eq, Bool-cases, inl, inr,
}
use project008_soundtech_ass.Prelude.Text.{Text}
use project008_soundtech_ass.Prelude.Text.Split.{Lacks}
use project008_soundtech_ass.Net.Identity.{is_ascii}
use project008_soundtech_ass.Net.Codec.{
  Builtins, pad, encode_string, slice, until_nul, index_nul, pack_int, unpack_int, read_string,
}

-- the bytes of a string: the text, the terminator and the padding
abbrev pub string_bytes : Text → List ℕ
string_bytes s = s ++ 0 ∷ replicate (3 - length s % 4) 0

pub length-pad : (bytes : List ℕ) → length (pad bytes) ≡ (length bytes + 3) / 4 * 4
unfolding pad
length-pad bytes = elim (Bool-cases (eqb (length bytes % 4) 0)) [
  | inl y ↦ rw y (omega (arith, eqb→eq (length bytes % 4) 0 y))
  | inr n ↦ rw n (
      ground (
        arith,
        length-append bytes (replicate (4 - length bytes % 4) 0),
        length-replicate {A = ℕ} (4 - length bytes % 4) 0,
      ))
]

pad-terminated : (s : Text) → pad (s ++ 0 ∷ []) ≡ string_bytes s
unfolding pad
pad-terminated s = elim (Bool-cases (eqb (length (s ++ 0 ∷ []) % 4) 0)) [
  | inl y ↦ rw y (ap (λ k. s ++ 0 ∷ replicate k 0) (none_left (eqb→eq _ 0 y)))
  | inr n ↦ rw n (
      append_assoc s (0 ∷ []) (replicate (4 - length (s ++ 0 ∷ []) % 4) 0)
      ∙ ap (λ k. s ++ 0 ∷ replicate k 0) (some_left n))
]
  where
    none_left : length (s ++ 0 ∷ []) % 4 ≡ 0 → 0 ≡ 3 - length s % 4
    none_left e = ground (arith, length-append s (0 ∷ []))

    some_left :
        eqb (length (s ++ 0 ∷ []) % 4) 0 ≡ false → 4 - length (s ++ 0 ∷ []) % 4 ≡ 3 - length s % 4
    some_left n = ground (arith, length-append s (0 ∷ []))

pub encode_string-ok : (s : Text) → is_ascii s ≡ true → encode_string s ≡ ok (string_bytes s)
unfolding encode_string
encode_string-ok s a = rw a (ap ok (pad-terminated s))

pub length-string_bytes : (s : Text) → length (string_bytes s) ≡ suc (length s / 4) * 4
length-string_bytes s = ground (
  arith,
  length-append s (0 ∷ replicate (3 - length s % 4) 0),
  length-replicate {A = ℕ} (3 - length s % 4) 0,
)

until_nul-terminated : (s rest : Text) → Lacks 0 s → until_nul (s ++ 0 ∷ rest) ≡ some (length s)
unfolding until_nul
until_nul-terminated [] rest h = refl
until_nul-terminated (c ∷ s) rest h = ground (arith, until_nul-terminated s rest h.1, h.0)

distance : (from steps : ℕ) → pos (from + steps) +ℤ negate (pos from) ≡ pos steps
distance from steps = ground arith

pub unpack_int-pack : (z : ℤ) (bytes : List ℕ) → pack_int z ≡ ok bytes → unpack_int bytes ≡ ok z
unfolding pack_int unpack_int
unpack_int-pack (pos n) bytes h = ground arith
unpack_int-pack (negsuc n) bytes h = ground arith

-- A slice between two lengths is the piece that stands there.
pub slice-piece :
    (front piece rest : List ℕ)
    → slice (front ++ (piece ++ rest)) (pos (length front)) (pos (length front + length piece))
      ≡ piece
slice-piece front piece rest =
    rw (drop-append front (piece ++ rest))
      (ap (λ n. take n (piece ++ rest)) count ∙ take-append piece rest)
  where
    count : length front + length piece - length front ≡ length piece
    count = omega arith

index_nul-terminated :
    (front : List ℕ) (s rest : Text)
    → Lacks 0 s
    → index_nul (front ++ (s ++ 0 ∷ rest)) (pos (length front)) ≡ some (length front + length s)
unfolding index_nul
index_nul-terminated front s rest h =
    ground (arith, drop-append front (s ++ 0 ∷ rest), until_nul-terminated s rest h)

module _ {F : Type 0} (B : Builtins F) where
  -- A string field is read, and the offset moves behind its padding.
  pub read_string-bytes :
      (front : List ℕ) (s : Text) (rest : List ℕ)
      → B.decode_text s ≡ s
      → Lacks 0 s
      → read_string B (front ++ (string_bytes s ++ rest)) (pos (length front))
        ≡ ok (s, pos (length front + length (string_bytes s)))
  unfolding read_string
  read_string-bytes front s rest u h = ground (
    arith,
    append_assoc s (0 ∷ replicate (3 - length s % 4) 0) rest,
    index_nul-terminated front s (replicate (3 - length s % 4) 0 ++ rest) h,
    slice-piece front s (0 ∷ (replicate (3 - length s % 4) 0 ++ rest)),
    distance (length front) (length s),
    u,
    length-string_bytes s,
  )
