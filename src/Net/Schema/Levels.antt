-- ===== src/Net/Schema/Levels.antt =====
-- The walk ends on a tree of bounded depth.
use mathlib.Core.Path.{subst}
use project008_soundtech_ass.Prelude.{
  ℕ, zero, suc, ◌<◌, ◌≡◌, refl, some, List, [], ◌∷◌, ◌++◌, All, arith, sym, ap, Result,
}
use project008_soundtech_ass.Prelude.Text.{Text}
use project008_soundtech_ass.Prelude.Dict.{Dict}
use project008_soundtech_ass.Net.Client.{Network, get_many}
use project008_soundtech_ass.Net.Client.Sound.{IsHonest, IsSound, get_many-IsSound}
use project008_soundtech_ass.Net.Codec.{OscMessage}
use project008_soundtech_ass.Net.Schema.{
  SchemaResult, SchemaError, first_frontier, expand, walk_levels, finish_walk, walk_schema,
}
use project008_soundtech_ass.Net.Schema.Expanded.{nodes_of, expand-All}

module _ {F S : Type 0} (schema dump : Network (OscMessage F) S) (rank : Text → ℕ) where
  -- The nodes that a reply names are of lower rank than the node itself.
  abbrev pub IsRanked : OscMessage F → Type 0
  IsRanked m = All (λ node. rank node < rank (schema.address m)) (nodes_of (schema.address m) m)

  below :
      (n : ℕ) (replies : Dict Text (OscMessage F))
      → All (IsSound schema IsRanked (λ a. rank a < suc n)) replies
      → All (λ (address, m). All (λ node. rank node < n) (nodes_of address m)) replies
  below n [] rs = tt
  below n ((address, m) ∷ more) ((low, ranked, e), rs) = (
    subst (λ a. All (λ node. rank node < n) (nodes_of a m)) (sym e)
        (lower (nodes_of (schema.address m) m) ranked),
    below n more rs,
  )
    where
      lower :
          (nodes : List Text)
          → All (λ node. rank node < rank (schema.address m)) nodes
          → All (λ node. rank node < n) nodes
      lower [] ls = tt
      lower (node ∷ nodes) (l, ls) = (ground (arith, low, l, e), lower nodes ls)

  -- The loop of the walk ends: fuel above the ranks of the frontier is enough, whatever is lost on the way.
  pub walk_levels-ends :
      IsHonest schema IsRanked
      → (fuel batch_size retry_rounds : ℕ) (frontier : List Text) (leaves : Dict Text Text)
        (unresolved : List Text) (s : S)
      → All (λ a. rank a < fuel) frontier
      → (r : Dict Text Text × List Text × S) × (walk_levels schema dump fuel batch_size retry_rounds
            frontier leaves unresolved s
          ≡ some r)
  unfolding walk_levels
  walk_levels-ends honest fuel batch_size retry_rounds [] leaves unresolved s low =
      ((leaves, unresolved, s), refl)
  walk_levels-ends honest zero batch_size retry_rounds (a ∷ more) leaves unresolved s (l, low) =
      absurd (omega arith)
  walk_levels-ends honest (suc fuel) batch_size retry_rounds (a ∷ more) leaves unresolved s low =
      let asked = get_many schema (a ∷ more) batch_size retry_rounds s in
      let sound =
        get_many-IsSound schema IsRanked honest (λ b. rank b < suc fuel) (a ∷ more) batch_size
          retry_rounds s low in
      let level = expand asked.0.replies leaves in
      walk_levels-ends honest fuel batch_size retry_rounds level.1 level.0
        (unresolved ++ asked.0.unresolved) asked.1
        (expand-All (λ b. rank b < fuel) asked.0.replies leaves
          (below fuel asked.0.replies sound.1))

  -- If the desk answers only what it is asked, and the nodes that a reply names are of lower rank than its
  -- own, then the walk of the schema ends, with fuel above the ranks of the first nodes.
  pub walk_schema-ends :
      IsHonest schema IsRanked
      → (fuel batch_size retry_rounds default_rounds : ℕ) (s : S)
      → All (λ a. rank a < fuel) first_frontier
      → (r : Result SchemaError (SchemaResult × S)) × (walk_schema schema dump fuel batch_size
            retry_rounds default_rounds s
          ≡ some r)
  unfolding walk_schema finish_walk
  walk_schema-ends honest fuel batch_size retry_rounds default_rounds s low =
      let (walked, e) =
        walk_levels-ends honest fuel batch_size retry_rounds first_frontier [] [] s low in
      (_, ap (finish_walk schema dump default_rounds) e)
