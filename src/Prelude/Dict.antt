-- ===== src/Prelude/Dict.antt =====
-- Python's `dict` in insertion order. Proofs elsewhere go by the laws.
use mathlib.Core.Path.{◌≡◌, refl}
use mathlib.Core.Bool.{true, false, ◌||◌}
use mathlib.Core.Option.{Option, none, some}
use mathlib.Core.List.{List, [], ◌∷◌}
use native.Mathlib.Omega.{arith}
use project008_soundtech_ass.Prelude.Tests.{if◌then◌else◌}
use project008_soundtech_ass.Prelude.Equality.{Eq, ◌==◌, contains, distinct}

abbrev pub Dict {ℓ κ} : Type ℓ → Type κ → Type (ℓ ⊔ κ)
Dict K V = List (K × V)

abbrev pub keys {ℓ κ} : {K : Type ℓ} {V : Type κ} → Dict K V → List K
keys [] = []
keys ((k, _) ∷ d) = k ∷ keys d

module _ {ℓ κ} {K : Type ℓ} {V : Type κ} ⦃e : Eq K⦄ where
  -- `d.get(k)`
  unfoldable pub lookup : K → Dict K V → Option V
  lookup k [] = none
  lookup k ((j, w) ∷ d) = if k == j then some w else lookup k d

  -- `d[k] = v`
  unfoldable pub insert : K → V → Dict K V → Dict K V
  insert k v [] = (k, v) ∷ []
  insert k v ((j, w) ∷ d) = if k == j then (j, v) ∷ d else (j, w) ∷ insert k v d

  -- `d.update(new)`
  unfoldable pub update : Dict K V → Dict K V → Dict K V
  update d [] = d
  update d ((k, v) ∷ new) = update (insert k v d) new

  pub lookup-insert :
      (j k : K) (v : V) (d : Dict K V)
      → lookup j (insert k v d) ≡ (if j == k then some v else lookup j d)
  unfolding insert lookup
  lookup-insert j k v [] = ground arith
  lookup-insert j k v (_ ∷ d) = ground (arith, lookup-insert j k v d)

  -- the keys stay distinct, and a key that is there keeps its place
  pub contains-keys : (d : Dict K V) (k : K) → contains (keys d) k ≡ false → lookup k d ≡ none
  unfolding lookup
  contains-keys [] k h = refl
  contains-keys (_ ∷ d) k h = ground (arith, contains-keys d k)

  pub keys-insert :
      (k : K) (v : V) (d : Dict K V) (j : K)
      → contains (keys (insert k v d)) j ≡ (j == k || contains (keys d) j)
  unfolding insert
  keys-insert k v [] j = refl
  keys-insert k v ((i, w) ∷ d) j = ground (arith, keys-insert k v d j)

  pub distinct-insert :
      (k : K) (v : V) (d : Dict K V)
      → distinct (keys d) ≡ true
      → distinct (keys (insert k v d)) ≡ true
  unfolding insert
  distinct-insert k v [] h = refl
  distinct-insert k v ((i, w) ∷ d) h = ground (arith, keys-insert k v d i, distinct-insert k v d)

  -- the values that `update` brings win
  pub lookup-update :
      (d new : Dict K V) (k : K)
      → distinct (keys new) ≡ true
      → lookup k (update d new) ≡ (elim (lookup k new) [ none ↦ lookup k d | some v ↦ some v ])
  unfolding update lookup
  lookup-update d [] k h = refl
  lookup-update d ((j, v) ∷ new) k h =
      ground (arith, lookup-update (insert j v d) new k, lookup-insert k j v d, contains-keys new k)
