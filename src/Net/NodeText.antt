-- ===== src/Net/NodeText.antt =====
-- wing_parser/net/nodetext.py: the body of a `,s *` reply as a nested dict. A stack of nodes is the path of
-- keys that leads from the root to the node on its top; none is the stack without even the root.
pub mod Assign
pub mod Cursor
pub mod Tokens
use project008_soundtech_ass.Prelude.{
  ℕ, zero, suc, ◌+◌, ◌-◌, Bool, true, false, ◌&&◌, ◌||◌, not, Option, none, some, List, [], ◌∷◌,
  ◌++◌, eqb, ltb, leb, length, take, drop, if◌then◌else◌, Result, ok, err, ◌>>=◌,
}
use project008_soundtech_ass.Prelude.Text.{Text, split}
use project008_soundtech_ass.Edit.Document.{Document, Fields, leaf, dict, nil, field, get, put}
use project008_soundtech_ass.Net.Address.{dot, is_empty, any_empty}
use project008_soundtech_ass.Net.Identity.{comma}

abbrev pub quote : ℕ
quote = b'\''

abbrev pub equals : ℕ
equals = b'='

-- The `NodeTextError`s. The last is no such error: it is the `IndexError` of `stack[-1]` on an empty stack,
-- and stands for a path that leads to no node.
pub data NodeTextError : Type 0 where
  unterminated_quote : NodeTextError
  empty_assignment : NodeTextError
  past_root : Text → ℕ → NodeTextError
  no_equals : Text → NodeTextError
  malformed_key : Text → NodeTextError
  already_leaf : Text → NodeTextError
  lost_cursor : NodeTextError

-- The loop of `_split_top_level`, with `in_quote` and the current token.
unfoldable pub split_quoted : Bool → Text → Text → Result NodeTextError (List Text)
split_quoted in_quote current [] = if in_quote then err unterminated_quote else ok (current ∷ [])
split_quoted in_quote current (c ∷ s) =
    let turned = split_quoted (not in_quote) (current ++ c ∷ []) s in
    let cut = split_quoted in_quote [] s in
    let kept = split_quoted in_quote (current ++ c ∷ []) s in
    if eqb c quote
    then turned
    else if eqb c comma && not in_quote
    then (cut >>= λ tokens. ok (current ∷ tokens))
    else kept

unfoldable pub split_top_level : Text → Result NodeTextError (List Text)
unfolding split_quoted
split_top_level s = split_quoted false [] s

-- `token.lstrip(".")`
abbrev pub strip_dots : Text → Text
strip_dots [] = []
strip_dots (c ∷ s) = let rest = strip_dots s in if eqb c dot then rest else c ∷ s

-- `stripped.split("=", 1)`, if there is an "="
abbrev pub cut_at : ℕ → Text → Option (Text × Text)
cut_at sep [] = none
cut_at sep (c ∷ s) =
    let rest = cut_at sep s in
    if eqb c sep
    then some ([], s)
    else (elim rest [ none ↦ none | some (front, back) ↦ some (c ∷ front, back) ])

-- `raw_value.endswith("'")`
abbrev pub ends_with : ℕ → Text → Bool
ends_with c [] = false
ends_with c (d ∷ []) = eqb d c
ends_with c (d ∷ e ∷ s) = ends_with c (e ∷ s)

abbrev pub all_but_last : {A : Type 0} → List A → List A
all_but_last [] = []
all_but_last (x ∷ []) = []
all_but_last (x ∷ y ∷ s) = x ∷ all_but_last (y ∷ s)

unfoldable pub unquote : Text → Result NodeTextError Text
unquote [] = ok []
unquote (c ∷ s) =
    if not (eqb c quote)
    then ok (c ∷ s)
    else if not (ends_with quote s)
    then err unterminated_quote
    else ok (all_but_last s)

-- The loop of `setdefault` from a node on, and the assignment.
unfoldable pub assign : Fields Text → List Text → Text → Result NodeTextError (Fields Text)
unfolding get put
assign node [] value = err lost_cursor
assign node (k ∷ []) value = ok (put k (leaf value) node)
assign node (k ∷ j ∷ more) value =
    let fresh = assign nil (j ∷ more) value in
    elim (get k node) [
      | none ↦ fresh >>= λ child. ok (put k (dict child) node)
      | some (leaf v) ↦ err (already_leaf k)
      | some (dict below) ↦ assign below (j ∷ more) value >>= λ child. ok (put k (dict child) node)
    ]

-- The same from the node on top of the stack.
unfoldable pub assign_at :
    Fields Text → List Text → List Text → Text → Result NodeTextError (Fields Text)
unfolding assign get put
assign_at node [] segments value = assign node segments value
assign_at node (k ∷ path) segments value = elim (get k node) [
  | none ↦ err lost_cursor
  | some (leaf v) ↦ err lost_cursor
  | some (dict below) ↦
      assign_at below path segments value >>= λ child. ok (put k (dict child) node)
]

abbrev pub stack_size : Option (List Text) → ℕ
stack_size none = 0
stack_size (some path) = suc (length path)

-- `del stack[len(stack) - n :]`, where a start below 0 counts from the end of the list.
unfoldable pub pop : ℕ → Option (List Text) → Option (List Text)
pop n none = none
pop n (some path) =
    let size = suc (length path) in
    let gone = if leb n size then n else n - size in
    if leb size gone then none else some (take (length path - gone) path)

-- What a token without its dots does, on the stack that was cut. The value is looked at last.
unfoldable pub apply_assignment :
    Text
    → Text
    → Fields Text
    → Option (List Text)
    → Result NodeTextError (Fields Text × Option (List Text))
unfolding unquote assign_at
apply_assignment token stripped tree stack = elim (cut_at equals stripped) [
  | none ↦ err (no_equals token)
  | some (keypath, raw_value) ↦
      let segments = split dot keypath in
      if any_empty segments then err (malformed_key token) else (elim stack [
        | none ↦ err lost_cursor
        | some path ↦ elim (unquote raw_value) [
          | err e ↦ assign_at tree path segments [] >>= λ _. err e
          | ok value ↦ assign_at tree path segments value >>= λ tree'.
              ok (tree', some (path ++ all_but_last segments))
        ]
      ])
]

-- One token that is not empty.
unfoldable pub apply_token :
    Text
    → Fields Text
    → Option (List Text)
    → Result NodeTextError (Fields Text × Option (List Text))
unfolding pop apply_assignment
apply_token token tree stack =
    let stripped = strip_dots token in
    let pop_count = length token - length stripped in
    if ltb 0 pop_count && leb (stack_size stack) pop_count
    then err (past_root token pop_count)
    else let stack' = pop pop_count stack in
      if is_empty stripped then ok (tree, stack') else apply_assignment token stripped tree stack'

-- The loop over the tokens.
unfoldable pub apply_tokens :
    List Text
    → Fields Text
    → Option (List Text)
    → Result NodeTextError (Fields Text × Option (List Text))
unfolding apply_token
apply_tokens [] tree stack = ok (tree, stack)
apply_tokens ([] ∷ []) tree stack = ok (tree, stack)
apply_tokens ([] ∷ token ∷ more) tree stack = err empty_assignment
apply_tokens ((c ∷ s) ∷ more) tree stack =
    apply_token (c ∷ s) tree stack >>= λ (tree', stack'). apply_tokens more tree' stack'

unfoldable pub parse_node_text : Text → Result NodeTextError (Fields Text)
unfolding split_top_level apply_tokens
parse_node_text s =
    split_top_level s >>= λ tokens. apply_tokens tokens nil (some []) >>= λ (tree, _). ok tree
