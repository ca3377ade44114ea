-- ===== src/Edit/Document.antt =====
-- A JSON document as nested dicts with string keys. Every other value is a leaf, a value of `V`:
-- the code descends into nothing else.
use project008_soundtech_ass.Prelude.{◌≡◌, Option, none, some, arith, ◌==◌, if◌then◌else◌}
use project008_soundtech_ass.Prelude.Text.{Text, text_eq}

mutual
  pub data Document (V : Type 0) : Type 0 where
    leaf : V → Document V
    dict : Fields V → Document V

  pub data Fields (V : Type 0) : Type 0 where
    nil : Fields V
    field : Text → Document V → Fields V → Fields V

module _ {V : Type 0} where
  -- `node.get(key)`
  unfoldable pub get : Text → Fields V → Option (Document V)
  get k nil = none
  get k (field j d fs) = if k == j then some d else get k fs

  -- `node[key] = value`
  unfoldable pub put : Text → Document V → Fields V → Fields V
  put k v nil = field k v nil
  put k v (field j d fs) = if k == j then field j v fs else field j d (put k v fs)

  pub get-put :
      (j k : Text) (v : Document V) (fs : Fields V)
      → get j (put k v fs) ≡ (if j == k then some v else get j fs)
  unfolding get put
  get-put j k v nil = ground arith
  get-put j k v (field i d fs) = ground (arith, get-put j k v fs)
