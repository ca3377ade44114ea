-- ===== src/Tests/Protocol.antt =====
-- The theorems on the codec, the node text and the schema walk, applied.
use mathlib.Core.Path.{subst}
use project008_soundtech_ass.Prelude.{
  ℕ, suc, ◌+◌, ◌%◌, ◌≡◌, refl, true, Option, none, some, List, [], ◌∷◌, ◌++◌, ok, err, Result,
  length, negsuc, All, arith, ◌==◌, if◌then◌else◌, Bool-cases, inl, inr, contains, sym, ==→eq,
  ==_refl,
}
use project008_soundtech_ass.Prelude.Text.{Text, codes, text_eq, join}
use project008_soundtech_ass.Net.Identity.{comma, is_ascii}
use project008_soundtech_ass.Net.Client.{Received, message, Network, get_many}
use project008_soundtech_ass.Net.Client.Sound.{IsHonest, IsAnswer, IsSound, get_many-IsSound}
use project008_soundtech_ass.Net.Codec.{
  OscArg, OscMessage, text, float, int, blob, bad_argument, Builtins, encode, decode,
}
use project008_soundtech_ass.Net.Codec.Carried.{BuiltinLaws}
use project008_soundtech_ass.Net.Codec.RoundTrip.{decode-encode}
use project008_soundtech_ass.Net.Codec.Typed.{AllOfTag, decode-IsTyped, length-encode}
use project008_soundtech_ass.Net.Codec.Leaf.{IsLeafReply, leaf_value-decoded}
use project008_soundtech_ass.Net.NodeText.{split_top_level, parse_node_text}
use project008_soundtech_ass.Net.NodeText.Tokens.{join-split_top_level}
use project008_soundtech_ass.Net.NodeText.Cursor.{
  IsKept, all_before, all_in_keys, apply_tokens-IsKept,
}
use project008_soundtech_ass.Net.NodeText.Assign.{is_node_at}
use project008_soundtech_ass.Net.NodeText.{apply_tokens}
use project008_soundtech_ass.Edit.Document.{nil}
use project008_soundtech_ass.Net.Schema.{
  body_of, expand_body, parse_lines, SchemaResult, SchemaError, walk_schema,
}
use project008_soundtech_ass.Net.Schema.Levels.{IsRanked, walk_schema-ends}
use project008_soundtech_ass.Net.Schema.Plain.{PlainSchema, PlainDump}
use project008_soundtech_ass.Net.Schema.Filed.{IsReached, first}
use project008_soundtech_ass.Net.Schema.Reached.{walk_schema-IsReached}

-- a "float" is a number that one byte holds
abbrev builtins : Builtins ℕ
builtins = record {
  to_text = λ arg. elim arg [ text s ↦ s | _ ↦ codes "?" ];
  to_float = λ arg. elim arg [ float x ↦ ok x | _ ↦ err bad_argument ];
  to_int = λ arg. elim arg [ int z ↦ ok z | _ ↦ err bad_argument ];
  to_bytes = λ arg. elim arg [ blob bytes ↦ ok bytes | _ ↦ err bad_argument ];
  pack_float = λ x. ok (x ∷ 0 ∷ 0 ∷ 0 ∷ []);
  unpack_float = λ bytes. elim bytes [ [] ↦ 0 | (x ∷ _) ↦ x ];
  decode_text = λ bytes. bytes;
}

builtins_laws : BuiltinLaws builtins
builtins_laws = record {
  text_kept = λ s. refl;
  float_kept = λ x. refl;
  int_kept = λ z. refl;
  blob_kept = λ bytes. refl;
  four_bytes = λ x bytes e. ground arith;
  ascii_kept = λ s a. refl;
}

abbrev color : Text
color = codes "/ch/1/col"

abbrev shown : List (OscArg ℕ)
shown = text (codes "4") ∷ float 7 ∷ int (negsuc 2) ∷ []

decode-encode_example :
    (bytes : List ℕ) × (encode builtins color (some (codes "sfi")) shown ≡ ok bytes)
    × (decode builtins bytes ≡ ok (record { address = color; typetag = codes "sfi"; args = shown }))
unfolding is_ascii
decode-encode_example =
    decode-encode builtins builtins_laws color (codes "sfi") shown
      (refl, (refl, (refl, (refl, (refl, (refl, (refl, (refl, (refl, (refl, tt))))))))))
      (refl, (refl, (refl, (refl, tt))))
      (
        (refl, (refl, (refl, tt))),
        ((refl, (7 ∷ 0 ∷ 0 ∷ 0 ∷ [], refl, refl)), ((refl, omega arith), tt)),
      )

length-encode_example : length (codes "/a" ++ 0 ∷ 0 ∷ []) % 4 ≡ 0
unfolding encode
length-encode_example =
    length-encode builtins (λ x bytes e. ground arith) (codes "/a") none []
      (codes "/a" ++ 0 ∷ 0 ∷ []) refl

-- the reply `/c ,s 4`
abbrev reply_bytes : List ℕ
reply_bytes = codes "/c" ++ 0 ∷ 0 ∷ (codes ",s" ++ 0 ∷ 0 ∷ (codes "4" ++ 0 ∷ 0 ∷ 0 ∷ []))

abbrev reply : OscMessage ℕ
reply = record { address = codes "/c"; typetag = codes "s"; args = text (codes "4") ∷ [] }

leaf_value-decoded_example : IsLeafReply builtins reply
unfolding decode text_eq
leaf_value-decoded_example = leaf_value-decoded builtins reply_bytes reply refl

abbrev assignments : List Text
assignments = codes "a.b=1" ∷ codes "c=2" ∷ codes ".d='x,y'" ∷ codes "." ∷ []

apply_tokens-IsKept_example :
    IsKept
      (all_before assignments)
      (length {A = Text} [] + all_in_keys assignments)
      (apply_tokens assignments nil (some []))
unfolding is_node_at
apply_tokens-IsKept_example = apply_tokens-IsKept assignments nil [] refl

join-split_top_level_example : join comma (codes "a='x,y'" ∷ codes "." ∷ []) ≡ codes "a='x,y',."
unfolding split_top_level
join-split_top_level_example =
    join-split_top_level (codes "a='x,y',.") (codes "a='x,y'" ∷ codes "." ∷ []) refl

-- A desk: `/ch` has the node `1` and a node that is skipped, every other node has one leaf.
abbrev body : Text → Text
body a = if a == codes "/ch" then codes "1 (node)" else codes "mute int"

abbrev answer : Text → OscMessage ℕ
answer a = record { address = a; typetag = codes "s"; args = text (body a) ∷ [] }

abbrev answers : List Text → List (Received (OscMessage ℕ))
answers [] = []
answers (a ∷ more) = message (answer a) ∷ answers more

abbrev desk : Network (OscMessage ℕ) ℕ
desk = record {
  address = λ m. m.address;
  reads = λ s chunk. answers chunk;
  after = λ s chunk n. s + n;
  rotate = suc;
}

abbrev rank : Text → ℕ
rank a = if a == codes "/ch" then 1 else 0

answer-IsRanked : (a : Text) → IsRanked desk desk rank (answer a)
unfolding expand_body body_of parse_lines text_eq
answer-IsRanked a = elim (Bool-cases (a == codes "/ch")) [
  | inl y ↦
      subst (λ b. IsRanked desk desk rank (answer b)) (sym (==→eq a (codes "/ch") y))
        (omega arith, tt)
  | inr n ↦ rw n tt
]

answers-honest :
    (Q : OscMessage ℕ → Type 0) (chunk rest : List Text)
    → ((a : Text) → Q (answer a))
    → ((a : Text) → contains rest a ≡ true → contains chunk a ≡ true)
    → All (IsAnswer desk Q chunk) (answers rest)
answers-honest Q chunk [] q h = tt
answers-honest Q chunk (a ∷ more) q h = (
  (h a (ground (arith, ==_refl a)), q a),
  answers-honest Q chunk more q (λ b c. h b (ground (arith, c))),
)

ranked : IsHonest desk (IsRanked desk desk rank)
ranked s chunk = answers-honest (IsRanked desk desk rank) chunk chunk answer-IsRanked (λ a c. c)

get_many-IsSound_example :
    (let r = (get_many desk (codes "/ch" ∷ codes "/io" ∷ []) 2 1 0).0 in
      All IsReached r.unresolved × All (IsSound desk (IsRanked desk desk rank) IsReached) r.replies)
unfolding text_eq
get_many-IsSound_example =
    get_many-IsSound desk (IsRanked desk desk rank) ranked IsReached
      (codes "/ch" ∷ codes "/io" ∷ []) 2 1 0
      (first (codes "/ch") refl, (first (codes "/io") refl, tt))

walk_schema-ends_example :
    (r : Result SchemaError (SchemaResult × ℕ)) × (walk_schema desk desk 2 50 2 2 0 ≡ some r)
unfolding text_eq
walk_schema-ends_example = walk_schema-ends desk desk rank ranked 2 50 2 2 0 (
  omega arith,
  (
    omega arith,
    (
      omega arith,
      (
        omega arith,
        (
          omega arith,
          (
            omega arith,
            (
              omega arith,
              (
                omega arith,
                (omega arith, (omega arith, (omega arith, (omega arith, (omega arith, tt))))),
              ),
            ),
          ),
        ),
      ),
    ),
  ),
)

abbrev walked : Option (Result SchemaError (SchemaResult × ℕ)) → SchemaResult × ℕ
walked (some (ok r)) = r
walked _ = (record { leaves = []; unresolved_nodes = [] }, 0)

abbrev walk : SchemaResult × ℕ
walk = walked (walk_schema desk desk 2 50 2 2 0)

answer-PlainSchema : (a : Text) → PlainSchema (answer a)
unfolding body_of parse_lines
answer-PlainSchema a = elim (Bool-cases (a == codes "/ch")) [
  | inl y ↦ rw y refl
  | inr n ↦ rw n refl
]

answer-PlainDump : (a : Text) → PlainDump (answer a)
unfolding parse_node_text
answer-PlainDump a = elim (Bool-cases (a == codes "/ch")) [ inl y ↦ rw y refl | inr n ↦ rw n refl ]

walk_schema-IsReached_example :
    All (λ (address, _). IsReached address) walk.0.leaves × All IsReached walk.0.unresolved_nodes
unfolding walk_schema text_eq
walk_schema-IsReached_example =
    walk_schema-IsReached desk desk
      (λ s chunk. answers-honest PlainSchema chunk chunk answer-PlainSchema (λ a c. c))
      (λ s chunk. answers-honest PlainDump chunk chunk answer-PlainDump (λ a c. c)) 2 50 2 2 0
      walk.1 walk.0 refl

decode-IsTyped_example : AllOfTag reply.typetag reply.args
unfolding decode text_eq
decode-IsTyped_example = decode-IsTyped builtins reply_bytes reply refl
