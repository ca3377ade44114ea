-- ===== src/Net/Schema/Filed.antt =====
-- The nodes that can be reached, and what the lines and the dumps of a node file.
use project008_soundtech_ass.Prelude.{
  refl, and-both, ◌≡◌, Bool, true, false, Option, Option-cases, none, some, List, [], ◌∷◌, All,
  arith, Bool-cases, ==_refl, inl, inr, contains, ok, err, >>=-eq-ok, Result, if-both,
}
use project008_soundtech_ass.Prelude.Text.{Text, text_eq, starts_with}
use project008_soundtech_ass.Prelude.Dict.{Dict, insert, lookup}
use project008_soundtech_ass.Edit.Document.{Document, Fields, leaf, dict, nil, field}
use project008_soundtech_ass.Net.Client.Sound.{All-insert}
use project008_soundtech_ass.Net.Codec.{OscMessage, OscArg}
use project008_soundtech_ass.Net.NodeText.{NodeTextError, parse_node_text}
use project008_soundtech_ass.Net.Schema.Plain.{
  is_segment, plain_lines, plain_body, plain_keys, plain_value, plain_tree, plain_args, PlainDump,
}
use project008_soundtech_ass.Net.Schema.{
  dollar, first_frontier, child_address, parse_lines, expand_lines, expand_body, set_default,
  file_dump_keys, file_dump_value, dump_text, recovered_tree, recovered_args, recovered,
}

-- One of the first nodes, or a child of such a node whose name is one segment that does not start with `$`.
pub data IsReached : Text → Type 0 where
  first : (a : Text) → contains first_frontier a ≡ true → IsReached a
  child :
      (a name : Text)
      → IsReached a
      → is_segment name ≡ true
      → starts_with name dollar ≡ false
      → IsReached (child_address a name)

abbrev pub AreFiled : Dict Text Text → Type 0
AreFiled = All (λ (address, _). IsReached address)

abbrev pub IsLevel : Dict Text Text × List Text → Type 0
IsLevel (leaves, nodes) = AreFiled leaves × All IsReached nodes

file :
    (address type_text : Text) (leaves : Dict Text Text)
    → IsReached address
    → AreFiled leaves
    → AreFiled (insert address type_text leaves)
file address type_text leaves a ls =
    All-insert (λ (b, _). IsReached b) address type_text leaves a ls

expand_lines-IsLevel :
    (address : Text) (lines : List (Text × Bool × Text)) (leaves : Dict Text Text)
    → plain_lines lines ≡ true
    → IsReached address
    → AreFiled leaves
    → IsLevel (expand_lines address lines leaves)
unfolding expand_lines
expand_lines-IsLevel address [] leaves p a ls = (ls, tt)
expand_lines-IsLevel address ((name, is_node, type_text) ∷ more) leaves p a ls =
    let (one, rest) = and-both (is_segment name) _ p in
    elim (Bool-cases (starts_with name dollar)) [
      | inl y ↦ rw y (expand_lines-IsLevel address more leaves rest a ls)
      | inr n ↦
          let here = child address name a one n in
          let (kept, nodes) = expand_lines-IsLevel address more leaves rest a ls in
          rw n (
            if-both IsLevel is_node _ _ (kept, (here, nodes))
              (expand_lines-IsLevel address more
                (insert (child_address address name) type_text leaves) rest a
                (file (child_address address name) type_text leaves here ls)))
    ]

pub expand_body-IsLevel :
    (address : Text) (body : Option Text) (leaves : Dict Text Text)
    → plain_body body ≡ true
    → IsReached address
    → AreFiled leaves
    → IsLevel (expand_body address body leaves)
unfolding expand_body
expand_body-IsLevel address none leaves p a ls = (ls, tt)
expand_body-IsLevel address (some s) leaves p a ls =
    expand_lines-IsLevel address (parse_lines s) leaves p a ls

set_default-AreFiled :
    (address : Text) (leaves : Dict Text Text)
    → IsReached address
    → AreFiled leaves
    → AreFiled (set_default address leaves)
unfolding set_default
set_default-AreFiled address leaves a ls = elim (Option-cases (lookup address leaves)) [
  | inl n ↦ rw (set_default, n) (file address [] leaves a ls)
  | inr (v, e) ↦ rw (set_default, e) ls
]

mutual
  unfolding file_dump_keys

  file_dump_keys-AreFiled :
      (prefix : Text) (tree : Fields Text) (leaves : Dict Text Text)
      → plain_keys tree ≡ true
      → IsReached prefix
      → AreFiled leaves
      → AreFiled (file_dump_keys prefix tree leaves)
  file_dump_keys-AreFiled prefix nil leaves k p ls = ls
  file_dump_keys-AreFiled prefix (field name value more) leaves k p ls =
      let (one, others) = and-both (is_segment name) _ k in
      let (below, rest) = and-both (plain_value value) _ others in
      elim (Bool-cases (starts_with name dollar)) [
        | inl y ↦ rw y (file_dump_keys-AreFiled prefix more leaves rest p ls)
        | inr n ↦ rw n (
            file_dump_keys-AreFiled prefix more
              (file_dump_value (child_address prefix name) value leaves) rest p
              (file_dump_value-AreFiled (child_address prefix name) value leaves below
                (child prefix name p one n) ls))
      ]

  file_dump_value-AreFiled :
      (address : Text) (value : Document Text) (leaves : Dict Text Text)
      → plain_value value ≡ true
      → IsReached address
      → AreFiled leaves
      → AreFiled (file_dump_value address value leaves)
  file_dump_value-AreFiled address (leaf v) leaves k a ls = set_default-AreFiled address leaves a ls
  file_dump_value-AreFiled address (dict below) leaves k a ls =
      file_dump_keys-AreFiled address below leaves k a ls

recovered_tree-AreFiled :
    (address : Text) (leaves : Dict Text Text) (r : Result NodeTextError (Fields Text))
    → plain_tree r ≡ true
    → IsReached address
    → AreFiled leaves
    → AreFiled (recovered_tree address leaves r).0
unfolding recovered_tree
recovered_tree-AreFiled address leaves (err raised) k a ls = ls
recovered_tree-AreFiled address leaves (ok tree) k a ls =
    file_dump_keys-AreFiled address tree leaves k a ls

recovered_args-AreFiled :
    {F : Type 0} (address : Text) (leaves : Dict Text Text) (args : List (OscArg F))
    (r : Dict Text Text × Bool)
    → plain_args args ≡ true
    → IsReached address
    → AreFiled leaves
    → recovered_args address leaves args ≡ ok r
    → AreFiled r.0
unfolding recovered_args
recovered_args-AreFiled address leaves [] r k a ls e = ground (arith, e, ls)
recovered_args-AreFiled address leaves (arg ∷ args) r k a ls e =
    let (body, last, given) =
      >>=-eq-ok {last = r} (dump_text arg)
        (λ body. ok (recovered_tree address leaves (parse_node_text body))) e in
    ground (
      arith,
      recovered_tree-AreFiled address leaves (parse_node_text body) (ground (arith, k, given)) a ls,
    )

pub recovered-AreFiled :
    {F : Type 0} (address : Text) (leaves : Dict Text Text) (reply : Option (OscMessage F))
    (r : Dict Text Text × Bool)
    → ((m : OscMessage F) → reply ≡ some m → PlainDump m)
    → IsReached address
    → AreFiled leaves
    → recovered address leaves reply ≡ ok r
    → AreFiled r.0
unfolding recovered
recovered-AreFiled address leaves none r k a ls e = ground (arith, e, ls)
recovered-AreFiled address leaves (some m) r k a ls e =
    recovered_args-AreFiled address leaves m.args r (k m refl) a ls e

pub all_first :
    (xs : List Text)
    → ((a : Text) → contains xs a ≡ true → contains first_frontier a ≡ true)
    → All IsReached xs
all_first [] h = tt
all_first (x ∷ xs) h =
    (first x (h x (ground (arith, ==_refl x))), all_first xs (λ a c. h a (ground (arith, c))))
