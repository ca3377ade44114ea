-- ===== src/Net/Client/Sound.antt =====
-- What holds of the addresses asked for, and of the messages that answer them, holds of a batch's result.
use mathlib.Core.Path.{subst}
use project008_soundtech_ass.Prelude.{
  ℕ, zero, suc, ◌/◌, ◌≡◌, refl, sym, Bool, true, false, List, [], ◌∷◌, ◌++◌, Bool-cases, inl, inr,
  ◌==◌, ==→eq, contains, length, if◌then◌else◌, if-both, ltb, eqb, filter_by, arith, All,
  All-append,
}
use project008_soundtech_ass.Prelude.Text.{Text, text_eq}
use project008_soundtech_ass.Prelude.Dict.{Dict, insert}
use project008_soundtech_ass.Net.Client.{
  Received, message, malformed, connection_reset, unusable, Network, BatchResult, dedup,
  chunks_from, chunks, at_least_one, pred, is_nil, collect, send_and_collect, run_chunks,
  run_one_pass, get_rounds, get_many,
}

module _ {M S : Type 0} (N : Network M S) (Q : M → Type 0) where
  -- A read of a chunk is a reply to one of its addresses, and as `Q` says.
  abbrev pub IsAnswer : List Text → Received M → Type 0
  IsAnswer chunk (message m) = (contains chunk (N.address m) ≡ true) × Q m
  IsAnswer chunk malformed = Unit
  IsAnswer chunk connection_reset = Unit
  IsAnswer chunk unusable = Unit

  -- The desk answers only what it is asked.
  abbrev pub IsHonest : Type 0
  IsHonest = (s : S) (chunk : List Text) → All (IsAnswer chunk) (N.reads s chunk)

  module _ (P : Text → Type 0) where
    -- A reply stands under the address it carries.
    abbrev pub IsSound : Text × M → Type 0
    IsSound (a, m) = P a × Q m × (a ≡ N.address m)

pub All-contains :
    (P : Text → Type 0) (xs : List Text) (a : Text) → All P xs → contains xs a ≡ true → P a
All-contains P [] a ps h = absurd (cc)
All-contains P (x ∷ xs) a (p, ps) h = elim (Bool-cases (a == x)) [
  | inl y ↦ subst P (sym (==→eq a x y)) p
  | inr n ↦ All-contains P xs a ps (ground arith)
]

pub All-filter_by :
    (P : Text → Type 0) (q : Text → Bool) (xs : List Text) → All P xs → All P (filter_by q xs)
All-filter_by P q [] ps = tt
All-filter_by P q (x ∷ xs) (p, ps) = elim (Bool-cases (q x)) [
  | inl y ↦ rw y (p, All-filter_by P q xs ps)
  | inr n ↦ rw n (All-filter_by P q xs ps)
]

All-dedup : (P : Text → Type 0) (seen xs : List Text) → All P xs → All P (dedup seen xs)
unfolding dedup
All-dedup P seen [] ps = tt
All-dedup P seen (x ∷ xs) (p, ps) = elim (Bool-cases (contains seen x)) [
  | inl y ↦ rw y (All-dedup P seen xs ps)
  | inr n ↦ rw n (p, All-dedup P (x ∷ seen) xs ps)
]

All-chunks_from :
    (P : Text → Type 0) (size room : ℕ) (current xs : List Text)
    → All P current
    → All P xs
    → All (All P) (chunks_from size room current xs)
unfolding chunks_from
All-chunks_from P size room [] [] cs ps = tt
All-chunks_from P size room (c ∷ current) [] cs ps = (cs, tt)
All-chunks_from P size zero [] (x ∷ xs) cs (p, ps) =
    (cs, All-chunks_from P size size (x ∷ []) xs (p, tt) ps)
All-chunks_from P size zero (c ∷ current) (x ∷ xs) cs (p, ps) =
    (cs, All-chunks_from P size size (x ∷ []) xs (p, tt) ps)
All-chunks_from P size (suc room) [] (x ∷ xs) cs (p, ps) =
    All-chunks_from P size room (x ∷ []) xs (p, tt) ps
All-chunks_from P size (suc room) (c ∷ current) (x ∷ xs) cs (p, ps) =
    All-chunks_from P size room ((c ∷ current) ++ (x ∷ [])) xs
      (All-append P (c ∷ current) (x ∷ []) cs (p, tt)) ps

All-chunks :
    (P : Text → Type 0) (size : ℕ) (xs : List Text) → All P xs → All (All P) (chunks size xs)
unfolding chunks
All-chunks P size [] ps = tt
All-chunks P size (x ∷ xs) (p, ps) = All-chunks_from P size size (x ∷ []) xs (p, tt) ps

pub All-insert :
    {V : Type 0} (R : Text × V → Type 0) (k : Text) (v : V) (d : Dict Text V)
    → R (k, v)
    → All R d
    → All R (insert k v d)
unfolding insert
All-insert R k v [] r rs = (r, tt)
All-insert R k v ((j, w) ∷ d) r (first, rs) = elim (Bool-cases (k == j)) [
  | inl y ↦ rw y (subst (λ i. R (i, v)) (==→eq k j y) r, rs)
  | inr n ↦ rw n (first, All-insert R k v d r rs)
]

module _ {M S : Type 0} (N : Network M S) (Q : M → Type 0) (honest : IsHonest N Q)
    (P : Text → Type 0) where
  -- the replies of a pass, and the addresses that it leaves
  abbrev Kept : List Text × Dict Text M × S → Type 0
  Kept (missing, replies, _) = All P missing × All (IsSound N Q P) replies

  abbrev Holds : List Text × Dict Text M × ℕ → Type 0
  Holds r = All (IsSound N Q P) r.1

  collect-IsSound :
      (limit resets taken : ℕ) (chunk : List Text) (inbox : List (Received M)) (wanted : List Text)
      (replies : Dict Text M)
      → All P chunk
      → All (IsAnswer N Q chunk) inbox
      → All (IsSound N Q P) replies
      → All (IsSound N Q P) (collect N limit resets taken inbox wanted replies).1
  unfolding collect
  collect-IsSound limit resets taken chunk [] wanted replies ps answers rs = rs
  collect-IsSound limit resets taken chunk (message m ∷ more) wanted replies ps
        ((asked, q), answers) rs =
      if-both Holds (is_nil wanted) _ _ rs (
        collect-IsSound limit resets (suc taken) chunk more _ (insert (N.address m) m replies) ps
          answers
          (All-insert (IsSound N Q P) (N.address m) m replies
            (All-contains P chunk (N.address m) ps asked, q, refl) rs))
  collect-IsSound limit resets taken chunk (malformed ∷ more) wanted replies ps (_, answers) rs =
      if-both Holds (is_nil wanted) _ _ rs
        (collect-IsSound limit resets (suc taken) chunk more wanted replies ps answers rs)
  collect-IsSound limit resets taken chunk (connection_reset ∷ more) wanted replies ps (_, answers)
        rs =
      if-both Holds (is_nil wanted) _ _ rs (
        if-both Holds (ltb limit (suc resets)) _ _ rs
          (collect-IsSound limit (suc resets) (suc taken) chunk more wanted replies ps answers rs))
  collect-IsSound limit resets taken chunk (unusable ∷ more) wanted replies ps (_, answers) rs =
      if-both Holds (is_nil wanted) _ _ rs rs

  send_and_collect-IsSound :
      (chunk : List Text) (replies : Dict Text M) (s : S)
      → All P chunk
      → All (IsSound N Q P) replies
      → Kept (send_and_collect N chunk replies s)
  unfolding send_and_collect
  send_and_collect-IsSound chunk replies s ps rs = (
    All-filter_by P _ chunk ps,
    collect-IsSound (length chunk) 0 0 chunk (N.reads s chunk) chunk replies ps (honest s chunk) rs,
  )

  run_chunks-IsSound :
      (cs : List (List Text)) (replies : Dict Text M) (s : S)
      → All (All P) cs
      → All (IsSound N Q P) replies
      → Kept (run_chunks N cs replies s)
  unfolding run_chunks
  run_chunks-IsSound [] replies s ps rs = (tt, rs)
  run_chunks-IsSound (chunk ∷ cs) replies s (p, ps) rs =
      let first = send_and_collect N chunk replies s in
      let (missing, kept) = send_and_collect-IsSound chunk replies s p rs in
      let (others, kept') =
        run_chunks-IsSound cs first.1 (if is_nil first.0 then first.2 else N.rotate first.2) ps
          kept in
      (All-append P first.0 _ missing others, kept')

  run_one_pass-IsSound :
      (pending : List Text) (size : ℕ) (replies : Dict Text M) (s : S)
      → All P pending
      → All (IsSound N Q P) replies
      → Kept (run_one_pass N pending size replies s)
  unfolding run_one_pass
  run_one_pass-IsSound pending size replies s ps rs =
      run_chunks-IsSound (chunks (pred size) pending) replies s
        (All-chunks P (pred size) pending ps) rs

  abbrev IsSoundBatch : BatchResult M × S → Type 0
  IsSoundBatch (result, _) = All P result.unresolved × All (IsSound N Q P) result.replies

  get_rounds-IsSound :
      (n : ℕ) (retry : Bool) (size : ℕ) (pending : List Text) (replies : Dict Text M) (s : S)
      → All P pending
      → All (IsSound N Q P) replies
      → IsSoundBatch (get_rounds N n retry size pending replies s)
  unfolding get_rounds
  get_rounds-IsSound zero retry size pending replies s ps rs = (ps, rs)
  get_rounds-IsSound (suc n) retry size pending replies s ps rs =
      let size' = if retry then at_least_one (size / 2) else size in
      let passed = run_one_pass N pending size' replies (if retry then N.rotate s else s) in
      let (ps', rs') =
        run_one_pass-IsSound pending size' replies (if retry then N.rotate s else s) ps rs in
      if-both IsSoundBatch (is_nil pending) _ _ (ps, rs)
        (if-both IsSoundBatch (eqb (length passed.0) (length pending)) _ _ (ps', rs')
          (get_rounds-IsSound n true size' passed.0 passed.1 passed.2 ps' rs'))

  -- If all the addresses have a property, and the desk answers only what it is asked, then the addresses
  -- with a reply and those without one have it too, and each reply stands under its own address.
  pub get_many-IsSound :
      (addresses : List Text) (batch_size retry_rounds : ℕ) (s : S)
      → All P addresses
      → (let r = (get_many N addresses batch_size retry_rounds s).0 in
          All P r.unresolved × All (IsSound N Q P) r.replies)
  unfolding get_many
  get_many-IsSound addresses batch_size retry_rounds s ps =
      get_rounds-IsSound (suc retry_rounds) false (at_least_one batch_size) (dedup [] addresses) []
        s (All-dedup P [] addresses ps) tt
