-- ===== src/Net/Schema/Reached.antt =====
-- The leaves and the nodes that a walk files or gives up.
use mathlib.Core.Path.{subst}
use project008_soundtech_ass.Prelude.{
  ℕ, zero, suc, ◌≡◌, refl, Bool, Option, none, some, List, [], ◌∷◌, ◌++◌, All, All-append, arith,
  Bool-cases, inl, inr, ◌==◌, if◌then◌else◌, ok, >>=-eq-ok, ◌>>=◌, Result, if-both,
}
use project008_soundtech_ass.Prelude.Text.{Text, text_eq}
use project008_soundtech_ass.Prelude.Dict.{Dict, lookup}
use project008_soundtech_ass.Net.Client.{Network, get_many}
use project008_soundtech_ass.Net.Client.Sound.{IsHonest, IsSound, get_many-IsSound}
use project008_soundtech_ass.Net.Codec.{OscMessage}
use project008_soundtech_ass.Net.Schema.{
  SchemaResult, SchemaError, first_frontier, expand_body, expand, body_of, walk_levels, recovered,
  recover_node, recover_by_dump, finish_walk, walk_schema,
}
use project008_soundtech_ass.Net.Schema.Plain.{PlainSchema, PlainDump}
use project008_soundtech_ass.Net.Schema.Filed.{
  IsReached, AreFiled, IsLevel, expand_body-IsLevel, recovered-AreFiled, all_first,
}

All-lookup :
    {M : Type 0} (Q : M → Type 0) (a : Text) (replies : Dict Text M) (m : M)
    → All (λ (_, m). Q m) replies
    → lookup a replies ≡ some m
    → Q m
unfolding lookup
All-lookup Q a [] m qs e = absurd (cc)
All-lookup Q a ((b, n) ∷ more) m (q, qs) e = elim (Bool-cases (a == b)) [
  | inl y ↦ subst Q {x = n} {y = m} (ground arith) q
  | inr k ↦ All-lookup Q a more m qs (ground arith)
]

module _ {F S : Type 0} (schema dump : Network (OscMessage F) S) where
  expand-IsLevel :
      (replies : Dict Text (OscMessage F)) (leaves : Dict Text Text)
      → All (IsSound schema PlainSchema IsReached) replies
      → AreFiled leaves
      → IsLevel (expand replies leaves)
  unfolding expand
  expand-IsLevel [] leaves rs ls = (ls, tt)
  expand-IsLevel ((address, m) ∷ more) leaves ((a, p, _), rs) ls =
      let filed = expand_body address (body_of m) leaves in
      let (kept, nodes) = expand_body-IsLevel address (body_of m) leaves p a ls in
      let (kept', others) = expand-IsLevel more filed.0 rs kept in
      (kept', All-append IsReached filed.1 _ nodes others)

  walk_levels-IsReached :
      IsHonest schema PlainSchema
      → (fuel batch_size retry_rounds : ℕ) (frontier : List Text) (leaves : Dict Text Text)
        (unresolved : List Text) (s : S) (r : Dict Text Text × List Text × S)
      → All IsReached frontier
      → AreFiled leaves
      → All IsReached unresolved
      → walk_levels schema dump fuel batch_size retry_rounds frontier leaves unresolved s ≡ some r
      → AreFiled r.0 × All IsReached r.1
  unfolding walk_levels
  walk_levels-IsReached honest fuel batch_size retry_rounds [] leaves unresolved s r fs ls us e =
      ground (arith, e, ls, us)
  walk_levels-IsReached honest zero batch_size retry_rounds (a ∷ more) leaves unresolved s r fs ls
        us e =
      absurd (cc)
  walk_levels-IsReached honest (suc fuel) batch_size retry_rounds (a ∷ more) leaves unresolved s r
        fs ls us e =
      let asked = get_many schema (a ∷ more) batch_size retry_rounds s in
      let (missing, sound) =
        get_many-IsSound schema PlainSchema honest IsReached (a ∷ more) batch_size retry_rounds s
          fs in
      let level = expand asked.0.replies leaves in
      let (kept, nodes) = expand-IsLevel asked.0.replies leaves sound ls in
      walk_levels-IsReached honest fuel batch_size retry_rounds level.1 level.0
        (unresolved ++ asked.0.unresolved) asked.1 r nodes kept
        (All-append IsReached unresolved asked.0.unresolved us missing) e

  messages :
      (Q : OscMessage F → Type 0) (replies : Dict Text (OscMessage F))
      → All (IsSound dump Q (λ _. Unit)) replies
      → All (λ (_, m). Q m) replies
  messages Q [] rs = tt
  messages Q ((a, m) ∷ more) ((_, q, _), rs) = (q, messages Q more rs)

  recover_node-AreFiled :
      IsHonest dump PlainDump
      → (retry_rounds : ℕ) (address : Text) (leaves : Dict Text Text) (s : S)
        (r : Dict Text Text × Bool × S)
      → IsReached address
      → AreFiled leaves
      → recover_node schema dump retry_rounds address leaves s ≡ ok r
      → AreFiled r.0
  unfolding recover_node
  recover_node-AreFiled plain retry_rounds address leaves s r a ls e =
      let asked = get_many dump (address ∷ []) 1 retry_rounds s in
      let (_, sound) =
        get_many-IsSound dump PlainDump plain (λ _. Unit) (address ∷ []) 1 retry_rounds s
          (tt, tt) in
      let plain_replies = messages PlainDump asked.0.replies sound in
      let (found, last, one) =
        >>=-eq-ok {last = r} (recovered address leaves (lookup address asked.0.replies))
          (λ (l, g). ok (l, g, asked.1)) e in
      ground (
        arith,
        recovered-AreFiled address leaves (lookup address asked.0.replies) found
            (λ m. All-lookup PlainDump address asked.0.replies m plain_replies) a ls one,
      )

  recover_by_dump-AreFiled :
      IsHonest dump PlainDump
      → (retry_rounds : ℕ) (nodes : List Text) (leaves : Dict Text Text) (s : S)
        (r : Dict Text Text × List Text × S)
      → All IsReached nodes
      → AreFiled leaves
      → recover_by_dump schema dump retry_rounds nodes leaves s ≡ ok r
      → AreFiled r.0 × All IsReached r.1
  unfolding recover_by_dump
  recover_by_dump-AreFiled plain retry_rounds [] leaves s r ns ls e = ground (arith, e, ls)
  recover_by_dump-AreFiled plain retry_rounds (address ∷ more) leaves s r (n, ns) ls e =
      let ((leaves', given_up, s'), rest-e, one) =
        >>=-eq-ok {last = r} (recover_node schema dump retry_rounds address leaves s)
          (λ (l, g, t). recover_by_dump schema dump retry_rounds more l t >>= finish g) e in
      let ((leaves'', others, s''), last, many) =
        >>=-eq-ok {last = r} (recover_by_dump schema dump retry_rounds more leaves' s')
          (finish given_up) rest-e in
      let (kept, missing) =
        recover_by_dump-AreFiled plain retry_rounds more leaves' s' (leaves'', others, s'') ns
          (recover_node-AreFiled plain retry_rounds address leaves s (leaves', given_up, s') n ls
            one)
          many in
      subst (λ (r : Dict Text Text × List Text × S). AreFiled r.0 × All IsReached r.1)
        {x = (leaves'', (if given_up then address ∷ others else others), s'')} {y = r}
        (ground arith)
        (kept, if-both (All IsReached) given_up (address ∷ others) others (n, missing) missing)
    where
      finish :
          Bool
          → Dict Text Text × List Text × S
          → Result SchemaError (Dict Text Text × List Text × S)
      finish given_up (leaves'', others, s'') =
          ok (leaves'', (if given_up then address ∷ others else others), s'')

  finish_walk-IsReached :
      IsHonest dump PlainDump
      → (default_rounds : ℕ) (walked : Option (Dict Text Text × List Text × S)) (s' : S)
        (r : SchemaResult)
      → ((w : Dict Text Text × List Text × S) → walked ≡ some w → AreFiled w.0 × All IsReached w.1)
      → finish_walk schema dump default_rounds walked ≡ some (ok (r, s'))
      → AreFiled r.leaves × All IsReached r.unresolved_nodes
  unfolding finish_walk
  finish_walk-IsReached plain default_rounds none s' r h e = absurd (cc)
  finish_walk-IsReached plain default_rounds (some w) s' r h e =
      let (ls, us) = h w refl in
      let (found, last, one) =
        >>=-eq-ok {last = (r, s')} (recover_by_dump schema dump default_rounds w.1 w.0 w.2) result
          (ground arith) in
      let (ls', us') = recover_by_dump-AreFiled plain default_rounds w.1 w.0 w.2 found us ls one in
      subst (λ (t : SchemaResult). AreFiled t.leaves × All IsReached t.unresolved_nodes)
        {x = record { leaves = found.0; unresolved_nodes = found.1 }} {y = r} (ground arith)
        (ls', us')
    where
      result : Dict Text Text × List Text × S → Result SchemaError (SchemaResult × S)
      result (leaves', still_missing, s') =
          ok (record { leaves = leaves'; unresolved_nodes = still_missing }, s')

  -- If the desk answers only what it is asked, and the names in its schema replies and its dumps have no
  -- slash, then every leaf and every node that is given up stands below one of the first nodes, each segment
  -- of its address from there is a name, and none of these starts with `$`.
  pub walk_schema-IsReached :
      IsHonest schema PlainSchema
      → IsHonest dump PlainDump
      → (fuel batch_size retry_rounds default_rounds : ℕ) (s s' : S) (r : SchemaResult)
      → walk_schema schema dump fuel batch_size retry_rounds default_rounds s ≡ some (ok (r, s'))
      → All (λ (address, _). IsReached address) r.leaves × All IsReached r.unresolved_nodes
  unfolding walk_schema
  walk_schema-IsReached honest plain fuel batch_size retry_rounds default_rounds s s' r e =
      finish_walk-IsReached plain default_rounds
        (walk_levels schema dump fuel batch_size retry_rounds first_frontier [] [] s) s' r
        (λ w.
          walk_levels-IsReached honest fuel batch_size retry_rounds first_frontier [] [] s w
            (all_first first_frontier (λ a c. c)) tt tt)
        e
