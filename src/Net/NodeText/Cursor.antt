-- ===== src/Net/NodeText/Cursor.antt =====
-- The stack of the parser.
use mathlib.Core.Path.{subst}
use project008_soundtech_ass.Prelude.{
  ℕ, suc, ◌+◌, ◌-◌, leb, ◌&&◌, if◌then◌else◌, Option, none, some, length-append, length-take, Bool,
  true, false, ◌≡◌, ◌≢◌, refl, sym, ap, List, [], ◌∷◌, ◌++◌, arith, ok, err, ◌>>=◌, eqb, ltb,
  Bool-cases, Option-cases, inl, inr, not, take, length, Result,
}
use project008_soundtech_ass.Prelude.Text.{Text, split, split_from, text_eq}
use project008_soundtech_ass.Edit.Document.{Fields, nil}
use project008_soundtech_ass.Net.Address.{dot, any_empty, is_empty}
use project008_soundtech_ass.Net.NodeText.{
  NodeTextError, lost_cursor, pop, equals, cut_at, all_but_last, unquote, assign_at,
  apply_assignment, apply_token, apply_tokens, parse_node_text, split_top_level, split_quoted,
  strip_dots,
}
use project008_soundtech_ass.Net.NodeText.Assign.{
  is_node_at, is_node_at-take, assign_at-is_node_at, assign_at-kept,
}

unquote-kept : (raw : Text) → unquote raw ≢ err lost_cursor
unfolding unquote
unquote-kept [] e = cc
unquote-kept (c ∷ s) e = ground arith

-- The dots before a token, which pop nodes, and the dots in its key path, which push some.
abbrev pub dots_before : Text → ℕ
dots_before token = length token - length (strip_dots token)

abbrev pub count_dots : Text → ℕ
count_dots [] = 0
count_dots (c ∷ s) = let rest = count_dots s in if eqb c dot then suc rest else rest

abbrev pub dots_in_key : Text → ℕ
dots_in_key stripped = elim (cut_at equals stripped) [
  | none ↦ 0
  | some (keypath, _) ↦ count_dots keypath
]

abbrev pub all_before : List Text → ℕ
all_before [] = 0
all_before (token ∷ more) = dots_before token + all_before more

abbrev pub all_in_keys : List Text → ℕ
all_in_keys [] = 0
all_in_keys (token ∷ more) = dots_in_key (strip_dots token) + all_in_keys more

-- What a run of steps may be: it fails with an error of the parser, or its stack is not empty, leads to a
-- node of the tree, and has the depth it had with the pushed nodes, `come`, but for those popped, `gone`.
pub IsKept : ℕ → ℕ → Result NodeTextError (Fields Text × Option (List Text)) → Type 0
unfolding is_node_at
IsKept gone come (ok (tree, none)) = ⊥
IsKept gone come (ok (tree, some path)) =
    (is_node_at tree path ≡ true) × (length path + gone ≡ come)
IsKept gone come (err e) = e ≢ lost_cursor

length-split_from : (current s : Text) → length (split_from dot current s) ≡ suc (count_dots s)
unfolding split_from
length-split_from current [] = refl
length-split_from current (c ∷ s) =
    ground (arith, length-split_from [] s, length-split_from (current ++ c ∷ []) s)

length-all_but_last : {A : Type 0} (xs : List A) → length (all_but_last xs) ≡ length xs - 1
length-all_but_last [] = refl
length-all_but_last (x ∷ []) = refl
length-all_but_last (x ∷ y ∷ s) = omega (arith, length-all_but_last (y ∷ s))

pop_lem :
    (n : ℕ) (path : List Text)
    → (ltb 0 n && leb (suc (length path)) n) ≡ false
    → (pop n (some path) ≡ some (take (length path - n) path))
      × (length (take (length path - n) path) + n ≡ length path)
unfolding pop
pop_lem n path h = (ground arith, ground (arith, length-take (length path - n) path))

shift-IsKept :
    (k n m p : ℕ) (r : Result NodeTextError (Fields Text × Option (List Text)))
    → IsKept 0 (n + p) r
    → n + k ≡ m
    → IsKept k (m + p) r
unfolding IsKept
shift-IsKept k n m p (ok (tree, none)) h e = h
shift-IsKept k n m p (ok (tree, some path)) (h, l) e = (h, omega (arith, l, e))
shift-IsKept k n m p (err raised) h e = h

split_from-cons :
    (sep : ℕ) (current s : Text)
    → (first : Text) × (others : List Text) × (split_from sep current s ≡ first ∷ others)
unfolding split_from
split_from-cons sep current [] = (current, [], refl)
split_from-cons sep current (c ∷ s) = elim (Bool-cases (eqb c sep)) [
  | inl y ↦ (current, split_from sep [] s, rw y refl)
  | inr n ↦
      let (first, others, e) = split_from-cons sep (current ++ c ∷ []) s in (first, others, rw n e)
]

assigned-IsKept :
    (r : Result NodeTextError (Fields Text)) (path : List Text) (come : ℕ)
    → r ≢ err lost_cursor
    → ((tree : Fields Text) → r ≡ ok tree → is_node_at tree path ≡ true)
    → length path ≡ come
    → IsKept 0 come (r >>= λ tree. ok (tree, some path))
unfolding IsKept
assigned-IsKept (ok tree) path come n h l = (h tree refl, omega (arith, l))
assigned-IsKept (err raised) path come n h l = λ e. n (ap err e)

dropped-IsKept :
    (r : Result NodeTextError (Fields Text)) (late : NodeTextError) (come : ℕ)
    → r ≢ err lost_cursor
    → late ≢ lost_cursor
    → IsKept 0 come (r >>= λ _. err late)
unfolding IsKept
dropped-IsKept (ok tree) late come n h = h
dropped-IsKept (err raised) late come n h = λ e. n (ap err e)

assign_at-kept_by :
    (tree : Fields Text) (path segments : List Text) (value first : Text) (others : List Text)
    → segments ≡ first ∷ others
    → is_node_at tree path ≡ true
    → assign_at tree path segments value ≢ err lost_cursor
assign_at-kept_by tree path segments value first others e h =
    subst (λ more. assign_at tree path more value ≢ err lost_cursor) (sym e)
      (assign_at-kept tree path first others value h)

settle-IsKept :
    (value : Result NodeTextError Text) (tree : Fields Text) (path segments : List Text)
    (first : Text) (others : List Text) (come : ℕ)
    → segments ≡ first ∷ others
    → is_node_at tree path ≡ true
    → value ≢ err lost_cursor
    → length (path ++ all_but_last segments) ≡ come
    → IsKept 0 come (elim value [
      | err late ↦ assign_at tree path segments [] >>= λ _. err late
      | ok v ↦ assign_at tree path segments v >>= λ tree'.
          ok (tree', some (path ++ all_but_last segments))
    ])
settle-IsKept (err late) tree path segments first others come e h n l =
    dropped-IsKept (assign_at tree path segments []) late come
      (assign_at-kept_by tree path segments [] first others e h) (λ k. n (ap err k))
settle-IsKept (ok v) tree path segments first others come e h n l =
    assigned-IsKept (assign_at tree path segments v) (path ++ all_but_last segments) come
      (assign_at-kept_by tree path segments v first others e h)
      (λ tree'. assign_at-is_node_at tree tree' path segments v) l

length-assigned :
    (path : List Text) (keypath : Text)
    → length (path ++ all_but_last (split_from dot [] keypath)) ≡ length path + count_dots keypath
length-assigned path keypath = omega (
  arith,
  length-append path (all_but_last (split_from dot [] keypath)),
  length-all_but_last (split_from dot [] keypath),
  length-split_from [] keypath,
)

apply_assignment-IsKept :
    (token stripped : Text) (tree : Fields Text) (path : List Text)
    → is_node_at tree path ≡ true
    → IsKept 0
        (length path + dots_in_key stripped)
        (apply_assignment token stripped tree (some path))
unfolding split apply_assignment IsKept
apply_assignment-IsKept token stripped tree path h = elim (Option-cases (cut_at equals stripped)) [
  | inl n ↦ rw (apply_assignment, n) (λ e. cc)
  | inr ((keypath, raw), c) ↦ elim (Bool-cases (any_empty (split_from dot [] keypath))) [
    | inl y ↦ rw (apply_assignment, c, y) (λ e. cc)
    | inr m ↦
        let (first, others, e) = split_from-cons dot [] keypath in
        rw (apply_assignment, c, m)
          (settle-IsKept (unquote raw) tree path (split_from dot [] keypath) first others
            (length path + dots_in_key stripped) e h (unquote-kept raw)
            (ground (arith, length-assigned path keypath, c)))
  ]
]

bare-IsKept :
    (tree : Fields Text) (path : List Text) (stripped : Text)
    → is_node_at tree path ≡ true
    → is_empty stripped ≡ true
    → IsKept 0 (length path + dots_in_key stripped) (ok (tree, some path))
unfolding IsKept
bare-IsKept tree path [] h e = (h, omega arith)
bare-IsKept tree path (c ∷ s) h e = absurd (cc)

apply_token-IsKept :
    (token : Text) (tree : Fields Text) (path : List Text)
    → is_node_at tree path ≡ true
    → IsKept
        (dots_before token)
        (length path + dots_in_key (strip_dots token))
        (apply_token token tree (some path))
unfolding apply_token
apply_token-IsKept token tree path h =
    let dots = length token - length (strip_dots token) in
    let path' = take (length path - dots) path in
    elim (Bool-cases (ltb 0 dots && leb (suc (length path)) dots)) [
      | inl y ↦ rw (apply_token, y) (unfold IsKept in λ e. cc)
      | inr n ↦
          let (popped, size) = pop_lem dots path n in
          let here = is_node_at-take (length path - dots) tree path h in
          elim (Bool-cases (is_empty (strip_dots token))) [
            | inl b ↦
                rw (apply_token, n, popped, b)
                  (shift-IsKept dots (length path') (length path) _ _
                    (bare-IsKept tree path' (strip_dots token) here b) size)
            | inr m ↦
                rw (apply_token, n, popped, m)
                  (shift-IsKept dots (length path') (length path) _ _
                    (apply_assignment-IsKept token (strip_dots token) tree path' here) size)
          ]
    ]

more-IsKept :
    (k p gone come before : ℕ) (r : Result NodeTextError (Fields Text × Option (List Text)))
    (next : Fields Text
      → Option (List Text)
      → Result NodeTextError (Fields Text × Option (List Text)))
    → ((tree : Fields Text) (path : List Text)
        → is_node_at tree path ≡ true
        → IsKept gone (length path + come) (next tree (some path)))
    → IsKept k (before + p) r
    → IsKept (k + gone) (before + (p + come)) (r >>= λ (tree, stack). next tree stack)
unfolding IsKept
more-IsKept k p gone come before (err raised) next later h = h
more-IsKept k p gone come before (ok (tree, none)) next later h = absurd h
more-IsKept k p gone come before (ok (tree, some path)) next later (h, l) =
    longer (next tree (some path)) (later tree path h)
  where
    longer :
        (r : Result NodeTextError (Fields Text × Option (List Text)))
        → IsKept gone (length path + come) r
        → IsKept (k + gone) (before + (p + come)) r
    longer (err raised) h = h
    longer (ok (tree, none)) h = h
    longer (ok (tree, some path')) (h, l') = (h, omega (arith, l, l'))

-- From a stack that leads to a node, the loop either raises an error of the parser, or ends with a stack
-- that still has the root, leads to a node, and is deeper than at the start by the dots in the key paths of
-- the tokens and less deep by the dots before them.
pub apply_tokens-IsKept :
    (tokens : List Text) (tree : Fields Text) (path : List Text)
    → is_node_at tree path ≡ true
    → IsKept
        (all_before tokens)
        (length path + all_in_keys tokens)
        (apply_tokens tokens tree (some path))
unfolding apply_tokens
apply_tokens-IsKept [] tree path h = unfold IsKept in (h, omega arith)
apply_tokens-IsKept ([] ∷ []) tree path h = unfold IsKept in (h, omega arith)
apply_tokens-IsKept ([] ∷ token ∷ more) tree path h = unfold IsKept in λ e. cc
apply_tokens-IsKept ((c ∷ s) ∷ more) tree path h =
    more-IsKept (dots_before (c ∷ s)) (dots_in_key (strip_dots (c ∷ s))) (all_before more)
      (all_in_keys more) (length path) (apply_token (c ∷ s) tree (some path)) (apply_tokens more)
      (λ tree' path' k. apply_tokens-IsKept more tree' path' k)
      (apply_token-IsKept (c ∷ s) tree path h)

split_quoted-kept :
    (in_quote : Bool) (current s : Text) → split_quoted in_quote current s ≢ err lost_cursor
unfolding split_quoted
split_quoted-kept true current [] e = cc
split_quoted-kept false current [] e = cc
split_quoted-kept in_quote current (c ∷ s) e = ground (
  arith,
  split_quoted-kept (not in_quote) (current ++ c ∷ []) s,
  split_quoted-kept in_quote [] s,
  split_quoted-kept in_quote (current ++ c ∷ []) s,
)

-- Whatever the body, no assignment falls on an empty stack or on a node that is not there.
parse_node_text-kept : (s : Text) → parse_node_text s ≢ err lost_cursor
unfolding parse_node_text split_top_level IsKept is_node_at
parse_node_text-kept s e = read (split_quoted false [] s) (split_quoted-kept false [] s) e
  where
    finish :
        (gone come : ℕ) (r : Result NodeTextError (Fields Text × Option (List Text)))
        → IsKept gone come r
        → (r >>= λ (tree, _). ok tree) ≢ err lost_cursor
    finish gone come (ok (tree, _)) k e = cc
    finish gone come (err raised) k e = ground arith

    read :
        (tokens : Result NodeTextError (List Text))
        → tokens ≢ err lost_cursor
        → (tokens >>= λ cut. apply_tokens cut nil (some []) >>= λ (tree, _). ok tree)
          ≢ err lost_cursor
    read (ok cut) n e =
        finish (all_before cut) (length {A = Text} [] + all_in_keys cut)
          (apply_tokens cut nil (some [])) (apply_tokens-IsKept cut nil [] refl) e
    read (err raised) n e = ground arith
