-- ===== src/Net/Schema.antt =====
-- wing_parser/net/schema.py: the breadth-first walk over the desk's tree, with the recovery of the nodes
-- that did not answer. One client answers two kinds of query over the same sockets: the schema of a node
-- (`,s ?`) and its dump (`,s *`).
pub mod Expanded
pub mod Levels
pub mod Plain
pub mod Filed
pub mod Reached
use project008_soundtech_ass.Prelude.{
  ℕ, zero, suc, Bool, true, false, ◌&&◌, ◌||◌, Option, none, some, List, [], ◌∷◌, ◌++◌, eqb, leb,
  if◌then◌else◌, Result, ok, err, ◌>>=◌, ◌==◌, reverse, map,
}
use project008_soundtech_ass.Prelude.Text.{Text, codes, text_eq, starts_with}
use project008_soundtech_ass.Prelude.Text.Lines.{split_lines}
use project008_soundtech_ass.Prelude.Dict.{Dict, lookup, insert}
use project008_soundtech_ass.Edit.Document.{Document, Fields, leaf, dict, nil, field}
use project008_soundtech_ass.Net.Address.{slash, is_empty}
use project008_soundtech_ass.Net.Client.{Network, get_many}
use project008_soundtech_ass.Net.Codec.{OscArg, OscMessage, text, float, int, blob}
use project008_soundtech_ass.Net.NodeText.{NodeTextError, parse_node_text}

abbrev pub ae_roots : List Text
ae_roots =
    codes "cfg"
    ∷ codes "io"
    ∷ codes "ch"
    ∷ codes "aux"
    ∷ codes "bus"
    ∷ codes "main"
    ∷ codes "mtx"
    ∷ codes "dca"
    ∷ codes "mgrp"
    ∷ codes "fx"
    ∷ codes "cards"
    ∷ codes "play"
    ∷ []

abbrev pub dollar : Text
dollar = codes "$"

abbrev pub node_marker : Text
node_marker = codes "(node)"

-- the `frontier` that the walk starts with
abbrev pub first_frontier : List Text
first_frontier = map (λ name. slash ∷ name) ae_roots ++ (codes "/$ctl" ∷ [])

pub record SchemaResult : Type 0 where
  pub leaves : Dict Text Text
  pub unresolved_nodes : List Text

-- The `TypeError` of a dump whose argument is no text.
pub data SchemaError : Type 0 where
  not_a_text : SchemaError

-- `str.isspace` of a character
abbrev pub is_space : ℕ → Bool
is_space c =
    (leb 9 c && leb c 13)
    || (leb 28 c && leb c 32)
    || eqb c 133
    || eqb c 160
    || eqb c 5760
    || (leb 8192 c && leb c 8202)
    || eqb c 8232
    || eqb c 8233
    || eqb c 8239
    || eqb c 8287
    || eqb c 12288

abbrev pub strip_left : Text → Text
strip_left [] = []
strip_left (c ∷ s) = let rest = strip_left s in if is_space c then rest else c ∷ s

-- `s.strip()`
abbrev pub strip : Text → Text
strip s = reverse (strip_left (reverse (strip_left s)))

-- the characters up to the first space, and the rest from it on
unfoldable pub cut_word : Text → Text × Text
cut_word [] = ([], [])
cut_word (c ∷ s) =
    let (word, rest) = cut_word s in if is_space c then ([], c ∷ s) else (c ∷ word, rest)

-- What `_LINE_RE` matches: a name, at least one space, and the rest, stripped.
unfoldable pub match_line : Text → Option (Text × Text)
unfolding cut_word
match_line line =
    let (name, rest) = cut_word (strip_left line) in
    if is_empty name || is_empty rest then none else some (name, strip rest)

unfoldable pub lines_of : List Text → List (Text × Bool × Text)
unfolding match_line
lines_of [] = []
lines_of (line ∷ more) =
    let rest = lines_of more in
    elim (match_line line) [
      | none ↦ rest
      | some (name, type_text) ↦ (name, type_text == node_marker, type_text) ∷ rest
    ]

unfoldable pub parse_lines : Text → List (Text × Bool × Text)
unfolding lines_of split_lines
parse_lines s = lines_of (split_lines [] s)

abbrev pub child_address : Text → Text → Text
child_address address name = address ++ slash ∷ name

-- The inner loop of `_expand`: the leaves, and the nodes of the next level.
unfoldable pub expand_lines :
    Text → List (Text × Bool × Text) → Dict Text Text → Dict Text Text × List Text
expand_lines address [] leaves = (leaves, [])
expand_lines address ((name, is_node, type_text) ∷ more) leaves =
    let skipped = expand_lines address more leaves in
    let filed = expand_lines address more (insert (child_address address name) type_text leaves) in
    if starts_with name dollar
    then skipped
    else if is_node
    then (skipped.0, child_address address name ∷ skipped.1)
    else filed

-- The body of the loop of `_expand`: a reply that is not one text names no children.
unfoldable pub expand_body : Text → Option Text → Dict Text Text → Dict Text Text × List Text
unfolding parse_lines expand_lines
expand_body address none leaves = (leaves, [])
expand_body address (some s) leaves = expand_lines address (parse_lines s) leaves

module _ {F : Type 0} where
  -- the one text of a schema reply
  unfoldable pub text_args : List (OscArg F) → Option Text
  text_args (text s ∷ []) = some s
  text_args _ = none

  unfoldable pub body_of : OscMessage F → Option Text
  unfolding text_args
  body_of m = text_args m.args

  unfoldable pub expand : Dict Text (OscMessage F) → Dict Text Text → Dict Text Text × List Text
  unfolding expand_body body_of
  expand [] leaves = (leaves, [])
  expand ((address, m) ∷ more) leaves =
      let (leaves', nodes) = expand_body address (body_of m) leaves in
      let (leaves'', others) = expand more leaves' in (leaves'', nodes ++ others)

  -- What `parse_node_text` is given: an argument that is no text raises, save an empty blob.
  abbrev pub dump_text : OscArg F → Result SchemaError Text
  dump_text (text s) = ok s
  dump_text (blob []) = ok []
  dump_text (blob (b ∷ bytes)) = err not_a_text
  dump_text (float x) = err not_a_text
  dump_text (int z) = err not_a_text

-- `leaves.setdefault(child, "")`
unfoldable pub set_default : Text → Dict Text Text → Dict Text Text
unfolding lookup insert
set_default child leaves = elim (lookup child leaves) [
  | none ↦ insert child [] leaves
  | some type_text ↦ leaves
]

unfoldable mutual
  unfolding set_default

  pub file_dump_keys : Text → Fields Text → Dict Text Text → Dict Text Text
  file_dump_keys prefix nil leaves = leaves
  file_dump_keys prefix (field name value more) leaves =
      let filed = file_dump_value (child_address prefix name) value leaves in
      file_dump_keys prefix more (if starts_with name dollar then leaves else filed)

  pub file_dump_value : Text → Document Text → Dict Text Text → Dict Text Text
  file_dump_value child (leaf v) leaves = set_default child leaves
  file_dump_value child (dict below) leaves = file_dump_keys child below leaves

-- The leaves once a dump is parsed, and whether the node is given up.
unfoldable pub recovered_tree :
    Text → Dict Text Text → Result NodeTextError (Fields Text) → Dict Text Text × Bool
unfolding file_dump_keys
recovered_tree address leaves (err raised) = (leaves, true)
recovered_tree address leaves (ok tree) = (file_dump_keys address tree leaves, false)

module _ {F : Type 0} where
  unfoldable pub recovered_args :
      Text → Dict Text Text → List (OscArg F) → Result SchemaError (Dict Text Text × Bool)
  unfolding recovered_tree parse_node_text
  recovered_args address leaves [] = ok (leaves, true)
  recovered_args address leaves (arg ∷ args) =
      dump_text arg >>= λ body. ok (recovered_tree address leaves (parse_node_text body))

  unfoldable pub recovered :
      Text → Dict Text Text → Option (OscMessage F) → Result SchemaError (Dict Text Text × Bool)
  unfolding recovered_args
  recovered address leaves none = ok (leaves, true)
  recovered address leaves (some m) = recovered_args address leaves m.args

module _ {F S : Type 0} (schema dump : Network (OscMessage F) S) where
  -- The loop of the walk, on fuel: none if it runs out.
  unfoldable pub walk_levels :
      ℕ
      → ℕ
      → ℕ
      → List Text
      → Dict Text Text
      → List Text
      → S
      → Option (Dict Text Text × List Text × S)
  unfolding expand get_many
  walk_levels fuel batch_size retry_rounds [] leaves unresolved s = some (leaves, unresolved, s)
  walk_levels zero batch_size retry_rounds (a ∷ more) leaves unresolved s = none
  walk_levels (suc fuel) batch_size retry_rounds (a ∷ more) leaves unresolved s =
      let (result, s') = get_many schema (a ∷ more) batch_size retry_rounds s in
      let (leaves', frontier) = expand result.replies leaves in
      walk_levels fuel batch_size retry_rounds frontier leaves' (unresolved ++ result.unresolved) s'

  -- One node of `_recover_by_dump`: the leaves, and whether the node is given up.
  unfoldable pub recover_node :
      ℕ → Text → Dict Text Text → S → Result SchemaError (Dict Text Text × Bool × S)
  unfolding get_many recovered
  recover_node retry_rounds address leaves s =
      let (result, s') = get_many dump (address ∷ []) 1 retry_rounds s in
      recovered address leaves (lookup address result.replies) >>= λ (leaves', given_up).
      ok (leaves', given_up, s')

  unfoldable pub recover_by_dump :
      ℕ → List Text → Dict Text Text → S → Result SchemaError (Dict Text Text × List Text × S)
  unfolding recover_node
  recover_by_dump retry_rounds [] leaves s = ok (leaves, [], s)
  recover_by_dump retry_rounds (address ∷ more) leaves s =
      recover_node retry_rounds address leaves s >>= λ (leaves', given_up, s').
      recover_by_dump retry_rounds more leaves' s' >>= λ (leaves'', others, s'').
      ok (leaves'', (if given_up then address ∷ others else others), s'')

  -- What `walk_schema` does with what its loop leaves.
  unfoldable pub finish_walk :
      ℕ → Option (Dict Text Text × List Text × S) → Option (Result SchemaError (SchemaResult × S))
  unfolding recover_by_dump
  finish_walk default_rounds none = none
  finish_walk default_rounds (some (leaves, unresolved, s)) = some (
      recover_by_dump default_rounds unresolved leaves s >>= λ (leaves', still_missing, s').
      ok (record { leaves = leaves'; unresolved_nodes = still_missing }, s'))

  -- `walk_schema`, where `default_rounds` is DEFAULT_RETRY_ROUNDS.
  unfoldable pub walk_schema : ℕ → ℕ → ℕ → ℕ → S → Option (Result SchemaError (SchemaResult × S))
  unfolding walk_levels finish_walk
  walk_schema fuel batch_size retry_rounds default_rounds s =
      finish_walk default_rounds (walk_levels fuel batch_size retry_rounds first_frontier [] [] s)
