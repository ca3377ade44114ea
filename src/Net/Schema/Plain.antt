-- ===== src/Net/Schema/Plain.antt =====
-- The replies whose names are single segments of an address.
use project008_soundtech_ass.Prelude.{
  ◌≡◌, Bool, true, ◌&&◌, not, none, some, List, [], ◌∷◌, Option, ok, err, eqb, Result,
}
use project008_soundtech_ass.Prelude.Text.{Text}
use project008_soundtech_ass.Edit.Document.{Document, Fields, leaf, dict, nil, field}
use project008_soundtech_ass.Net.Address.{slash}
use project008_soundtech_ass.Net.Codec.{OscArg, OscMessage}
use project008_soundtech_ass.Net.NodeText.{NodeTextError, parse_node_text}
use project008_soundtech_ass.Net.Schema.{SchemaError, body_of, dump_text, parse_lines}

-- The name has no slash.
abbrev pub is_segment : Text → Bool
is_segment [] = true
is_segment (c ∷ s) = not (eqb c slash) && is_segment s

abbrev pub plain_lines : List (Text × Bool × Text) → Bool
plain_lines [] = true
plain_lines ((name, is_node, type_text) ∷ more) = is_segment name && plain_lines more

abbrev pub plain_body : Option Text → Bool
plain_body none = true
plain_body (some s) = plain_lines (parse_lines s)

abbrev mutual
  pub plain_keys : Fields Text → Bool
  plain_keys nil = true
  plain_keys (field name value more) = is_segment name && (plain_value value && plain_keys more)

  pub plain_value : Document Text → Bool
  plain_value (leaf v) = true
  plain_value (dict below) = plain_keys below

abbrev pub plain_tree : Result NodeTextError (Fields Text) → Bool
plain_tree (err raised) = true
plain_tree (ok tree) = plain_keys tree

abbrev pub plain_text : Result SchemaError Text → Bool
plain_text (err raised) = true
plain_text (ok s) = plain_tree (parse_node_text s)

module _ {F : Type 0} where
  abbrev pub plain_args : List (OscArg F) → Bool
  plain_args [] = true
  plain_args (arg ∷ args) = plain_text (dump_text arg)

  -- The names of a schema reply, and the keys of a dump.
  abbrev pub PlainSchema : OscMessage F → Type 0
  PlainSchema m = plain_body (body_of m) ≡ true

  abbrev pub PlainDump : OscMessage F → Type 0
  PlainDump m = plain_args m.args ≡ true
