-- ===== src/Net/NodeText/Assign.antt =====
-- An assignment leaves the path to its node, and does not fail on a path that leads to one.
use project008_soundtech_ass.Prelude.{
  ℕ, zero, suc, Bool, true, false, ◌≡◌, ◌≢◌, refl, none, some, List, [], ◌∷◌, ◌++◌, arith, ok, err,
  >>=-eq-ok, Option-cases, inl, inr, take, ==_refl,
}
use project008_soundtech_ass.Prelude.Text.{Text, text_eq}
use project008_soundtech_ass.Edit.Document.{Fields, leaf, dict, nil, get, put, get-put}
use project008_soundtech_ass.Net.NodeText.{lost_cursor, all_but_last, assign, assign_at}

-- The path leads from the tree to a node.
unfoldable pub is_node_at : Fields Text → List Text → Bool
unfolding get
is_node_at tree [] = true
is_node_at tree (k ∷ path) = elim (get k tree) [
  | none ↦ false
  | some (leaf v) ↦ false
  | some (dict below) ↦ is_node_at below path
]

-- What a key leads to.
data IsChild (k : Text) (tree : Fields Text) : Type 0 where
  missing : get k tree ≡ none → IsChild k tree
  a_leaf : (v : Text) → get k tree ≡ some (leaf v) → IsChild k tree
  a_node : (below : Fields Text) → get k tree ≡ some (dict below) → IsChild k tree

IsChild-cases : (k : Text) (tree : Fields Text) → IsChild k tree
IsChild-cases k tree = elim (Option-cases (get k tree)) [
  | inl n ↦ missing n
  | inr (leaf v, e) ↦ a_leaf v e
  | inr (dict below, e) ↦ a_node below e
]

pub is_node_at-take :
    (n : ℕ) (tree : Fields Text) (path : List Text)
    → is_node_at tree path ≡ true
    → is_node_at tree (take n path) ≡ true
unfolding is_node_at
is_node_at-take zero tree path h = refl
is_node_at-take (suc n) tree [] h = refl
is_node_at-take (suc n) tree (k ∷ path) h = elim (IsChild-cases k tree) [
  | missing e ↦ absurd (ground arith)
  | a_leaf v e ↦ absurd (ground arith)
  | a_node below e ↦ ground (arith, is_node_at-take n below path)
]

is_node_at-put :
    (k : Text) (child tree : Fields Text) (path : List Text)
    → is_node_at child path ≡ true
    → is_node_at (put k (dict child) tree) (k ∷ path) ≡ true
unfolding is_node_at
is_node_at-put k child tree path h = ground (arith, get-put k k (dict child) tree, ==_refl k)

assign-is_node_at :
    (node node' : Fields Text) (segments : List Text) (value : Text)
    → assign node segments value ≡ ok node'
    → is_node_at node' (all_but_last segments) ≡ true
unfolding assign is_node_at
assign-is_node_at node node' [] value e = absurd (cc)
assign-is_node_at node node' (k ∷ []) value e = refl
assign-is_node_at node node' (k ∷ j ∷ more) value e = elim (IsChild-cases k node) [
  | missing g ↦
      let (child, last, below) =
        >>=-eq-ok {last = node'} (assign nil (j ∷ more) value) (λ c. ok (put k (dict c) node))
          (ground arith) in
      ground (
        arith,
        is_node_at-put k child node (all_but_last (j ∷ more))
            (assign-is_node_at nil child (j ∷ more) value below),
      )
  | a_leaf v g ↦ absurd (ground arith)
  | a_node inner g ↦
      let (child, last, below) =
        >>=-eq-ok {last = node'} (assign inner (j ∷ more) value) (λ c. ok (put k (dict c) node))
          (ground arith) in
      ground (
        arith,
        is_node_at-put k child node (all_but_last (j ∷ more))
            (assign-is_node_at inner child (j ∷ more) value below),
      )
]

assign-kept :
    (node : Fields Text) (k : Text) (more : List Text) (value : Text)
    → assign node (k ∷ more) value ≢ err lost_cursor
unfolding assign
assign-kept node k [] value e = cc
assign-kept node k (j ∷ more) value e = elim (IsChild-cases k node) [
  | missing g ↦ ground (arith, assign-kept nil j more value)
  | a_leaf v g ↦ ground arith
  | a_node inner g ↦ ground (arith, assign-kept inner j more value)
]

pub assign_at-is_node_at :
    (tree tree' : Fields Text) (path segments : List Text) (value : Text)
    → assign_at tree path segments value ≡ ok tree'
    → is_node_at tree' (path ++ all_but_last segments) ≡ true
unfolding assign_at
assign_at-is_node_at tree tree' [] segments value e = assign-is_node_at tree tree' segments value e
assign_at-is_node_at tree tree' (k ∷ path) segments value e = elim (IsChild-cases k tree) [
  | missing g ↦ absurd (ground arith)
  | a_leaf v g ↦ absurd (ground arith)
  | a_node inner g ↦
      let (child, last, below) =
        >>=-eq-ok {last = tree'} (assign_at inner path segments value)
          (λ c. ok (put k (dict c) tree)) (ground arith) in
      ground (
        arith,
        is_node_at-put k child tree (path ++ all_but_last segments)
            (assign_at-is_node_at inner child path segments value below),
      )
]

pub assign_at-kept :
    (tree : Fields Text) (path : List Text) (k : Text) (more : List Text) (value : Text)
    → is_node_at tree path ≡ true
    → assign_at tree path (k ∷ more) value ≢ err lost_cursor
unfolding assign_at is_node_at
assign_at-kept tree [] k more value h e = assign-kept tree k more value e
assign_at-kept tree (j ∷ path) k more value h e = elim (IsChild-cases j tree) [
  | missing g ↦ ground arith
  | a_leaf v g ↦ ground arith
  | a_node inner g ↦ ground (arith, assign_at-kept inner path k more value)
]
