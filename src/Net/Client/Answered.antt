-- ===== src/Net/Client/Answered.antt =====
-- A batch accounts for each address that it was asked for.
use project008_soundtech_ass.Prelude.{
  ℕ, zero, suc, ◌/◌, ◌≡◌, sym, ◌∙◌, Bool, true, false, ◌||◌, not, List, [], ◌∷◌, ◌==◌, contains,
  contains-append, length, if◌then◌else◌, filter_by, arith,
}
use project008_soundtech_ass.Prelude.Text.{Text, text_eq}
use project008_soundtech_ass.Prelude.Dict.{Dict, insert, keys, keys-insert}
use project008_soundtech_ass.Net.Client.{
  Received, message, malformed, connection_reset, unusable, Network, dedup, chunks, at_least_one,
  pred, is_nil, collect, send_and_collect, run_chunks, run_one_pass, get_rounds, get_many,
}
use project008_soundtech_ass.Net.Client.Chunks.{
  contains-dedup, in_chunks, contains-chunks, contains-filter_by,
}

module _ {M S : Type 0} (N : Network M S) (a : Text) where
  -- the address is accounted for
  abbrev known : List Text → Dict Text M → Bool
  known wanted replies = contains wanted a || contains (keys replies) a

  known-message :
      (m : M) (wanted : List Text) (replies : Dict Text M)
      → known wanted replies ≡ true
      → known (filter_by (λ w. not (w == N.address m)) wanted) (insert (N.address m) m replies)
        ≡ true
  known-message m wanted replies h = ground (
    arith,
    contains-filter_by (λ w. not (w == N.address m)) wanted a,
    keys-insert (N.address m) m replies a,
  )

  collect-known :
      (limit resets taken : ℕ) (inbox : List (Received M)) (wanted : List Text)
      (replies : Dict Text M)
      → known wanted replies ≡ true
      → (let r = collect N limit resets taken inbox wanted replies in known r.0 r.1) ≡ true
  unfolding collect
  collect-known limit resets taken [] wanted replies h = h
  collect-known limit resets taken (message m ∷ more) wanted replies h = ground (
    arith,
    collect-known limit resets (suc taken) more (filter_by (λ w. not (w == N.address m)) wanted)
        (insert (N.address m) m replies) (known-message m wanted replies h),
  )
  collect-known limit resets taken (malformed ∷ more) wanted replies h =
      ground (arith, collect-known limit resets (suc taken) more wanted replies h)
  collect-known limit resets taken (connection_reset ∷ more) wanted replies h =
      ground (arith, collect-known limit (suc resets) (suc taken) more wanted replies h)
  collect-known limit resets taken (unusable ∷ more) wanted replies h = ground arith

  -- a reply stays
  abbrev replied : Dict Text M → Bool
  replied replies = contains (keys replies) a

  collect-replied :
      (limit resets taken : ℕ) (inbox : List (Received M)) (wanted : List Text)
      (replies : Dict Text M)
      → replied replies ≡ true
      → replied (collect N limit resets taken inbox wanted replies).1 ≡ true
  unfolding collect
  collect-replied limit resets taken [] wanted replies h = h
  collect-replied limit resets taken (message m ∷ more) wanted replies h = ground (
    arith,
    collect-replied limit resets (suc taken) more (filter_by (λ w. not (w == N.address m)) wanted)
        (insert (N.address m) m replies) (ground (arith, keys-insert (N.address m) m replies a)),
  )
  collect-replied limit resets taken (malformed ∷ more) wanted replies h =
      ground (arith, collect-replied limit resets (suc taken) more wanted replies h)
  collect-replied limit resets taken (connection_reset ∷ more) wanted replies h =
      ground (arith, collect-replied limit (suc resets) (suc taken) more wanted replies h)
  collect-replied limit resets taken (unusable ∷ more) wanted replies h = ground arith

  send_and_collect-known :
      (chunk : List Text) (replies : Dict Text M) (s : S)
      → contains chunk a ≡ true
      → (let r = send_and_collect N chunk replies s in known r.0 r.1) ≡ true
  unfolding send_and_collect
  send_and_collect-known chunk replies s h = ground (
    arith,
    collect-known (length chunk) 0 0 (N.reads s chunk) chunk replies (ground arith),
    contains-filter_by (contains (collect N (length chunk) 0 0 (N.reads s chunk) chunk replies).0)
        chunk a,
  )

  send_and_collect-missing :
      (chunk : List Text) (replies : Dict Text M) (s : S)
      → contains (send_and_collect N chunk replies s).0 a ≡ true
      → contains chunk a ≡ true
  unfolding send_and_collect
  send_and_collect-missing chunk replies s h = ground (
    arith,
    contains-filter_by (contains (collect N (length chunk) 0 0 (N.reads s chunk) chunk replies).0)
        chunk a,
  )

  send_and_collect-replied :
      (chunk : List Text) (replies : Dict Text M) (s : S)
      → replied replies ≡ true
      → replied (send_and_collect N chunk replies s).1 ≡ true
  unfolding send_and_collect
  send_and_collect-replied chunk replies s h =
      collect-replied (length chunk) 0 0 (N.reads s chunk) chunk replies h

  -- the state of the network at the next chunk
  abbrev next_socket : List Text × Dict Text M × S → S
  next_socket r = if is_nil r.0 then r.2 else N.rotate r.2

  run_chunks-replied :
      (cs : List (List Text)) (replies : Dict Text M) (s : S)
      → replied replies ≡ true
      → replied (run_chunks N cs replies s).1 ≡ true
  unfolding run_chunks
  run_chunks-replied [] replies s h = h
  run_chunks-replied (c ∷ cs) replies s h =
      run_chunks-replied cs (send_and_collect N c replies s).1
        (next_socket (send_and_collect N c replies s)) (send_and_collect-replied c replies s h)

  run_chunks-known :
      (cs : List (List Text)) (replies : Dict Text M) (s : S)
      → in_chunks cs a ≡ true
      → (let r = run_chunks N cs replies s in known r.0 r.1) ≡ true
  unfolding run_chunks
  run_chunks-known [] replies s h = absurd (cc)
  run_chunks-known (c ∷ cs) replies s h =
      let first = send_and_collect N c replies s in
      let rest = run_chunks N cs first.1 (next_socket first) in
      ground (
        arith,
        contains-append first.0 rest.0 a,
        send_and_collect-known c replies s,
        run_chunks-known cs first.1 (next_socket first),
        run_chunks-replied cs first.1 (next_socket first),
      )

  run_chunks-missing :
      (cs : List (List Text)) (replies : Dict Text M) (s : S)
      → contains (run_chunks N cs replies s).0 a ≡ true
      → in_chunks cs a ≡ true
  unfolding run_chunks
  run_chunks-missing [] replies s h = cc
  run_chunks-missing (c ∷ cs) replies s h =
      let first = send_and_collect N c replies s in
      let rest = run_chunks N cs first.1 (next_socket first) in
      ground (
        arith,
        contains-append first.0 rest.0 a,
        send_and_collect-missing c replies s,
        run_chunks-missing cs first.1 (next_socket first),
      )

  -- the pass of a round
  abbrev pass : Bool → ℕ → List Text → Dict Text M → S → List Text × Dict Text M × S
  pass retry size pending replies s =
      run_one_pass N pending (if retry then at_least_one (size / 2) else size) replies
        (if retry then N.rotate s else s)

  pass-replied :
      (retry : Bool) (size : ℕ) (pending : List Text) (replies : Dict Text M) (s : S)
      → replied replies ≡ true
      → replied (pass retry size pending replies s).1 ≡ true
  unfolding run_one_pass
  pass-replied retry size pending replies s h =
      run_chunks-replied (chunks (pred (if retry then at_least_one (size / 2) else size)) pending)
        replies (if retry then N.rotate s else s) h

  pass-known :
      (retry : Bool) (size : ℕ) (pending : List Text) (replies : Dict Text M) (s : S)
      → known pending replies ≡ true
      → (let r = pass retry size pending replies s in known r.0 r.1) ≡ true
  unfolding run_one_pass
  pass-known retry size pending replies s h =
      let slices = chunks (pred (if retry then at_least_one (size / 2) else size)) pending in
      let start = if retry then N.rotate s else s in
      ground (
        arith,
        contains-chunks (pred (if retry then at_least_one (size / 2) else size)) pending a,
        run_chunks-known slices replies start,
        run_chunks-replied slices replies start,
      )

  pass-missing :
      (retry : Bool) (size : ℕ) (pending : List Text) (replies : Dict Text M) (s : S)
      → contains (pass retry size pending replies s).0 a ≡ true
      → contains pending a ≡ true
  unfolding run_one_pass
  pass-missing retry size pending replies s h =
      sym (contains-chunks (pred (if retry then at_least_one (size / 2) else size)) pending a)
      ∙ run_chunks-missing (chunks (pred (if retry then at_least_one (size / 2) else size)) pending)
          replies (if retry then N.rotate s else s) h

  get_rounds-known :
      (n : ℕ) (retry : Bool) (size : ℕ) (pending : List Text) (replies : Dict Text M) (s : S)
      → known pending replies ≡ true
      → (let r = (get_rounds N n retry size pending replies s).0 in known r.unresolved r.replies)
        ≡ true
  unfolding get_rounds
  get_rounds-known zero retry size pending replies s h = h
  get_rounds-known (suc n) retry size pending replies s h =
      let r = pass retry size pending replies s in
      ground (
        arith,
        pass-known retry size pending replies s,
        get_rounds-known n true (if retry then at_least_one (size / 2) else size) r.0 r.1 r.2,
      )

  get_rounds-missing :
      (n : ℕ) (retry : Bool) (size : ℕ) (pending : List Text) (replies : Dict Text M) (s : S)
      → contains (get_rounds N n retry size pending replies s).0.unresolved a ≡ true
      → contains pending a ≡ true
  unfolding get_rounds
  get_rounds-missing zero retry size pending replies s h = h
  get_rounds-missing (suc n) retry size pending replies s h =
      let r = pass retry size pending replies s in
      ground (
        arith,
        pass-missing retry size pending replies s,
        get_rounds-missing n true (if retry then at_least_one (size / 2) else size) r.0 r.1 r.2,
      )

  -- Whatever the network does, each address asked for has a reply or is listed as unresolved.
  pub get_many-known :
      (addresses : List Text) (batch_size retry_rounds : ℕ) (s : S)
      → contains addresses a ≡ true
      → (let r = (get_many N addresses batch_size retry_rounds s).0 in
          (contains r.unresolved a || contains (keys r.replies) a))
        ≡ true
  unfolding get_many
  get_many-known addresses batch_size retry_rounds s h =
      get_rounds-known (suc retry_rounds) false (at_least_one batch_size) (dedup [] addresses) [] s
        (ground (arith, contains-dedup [] addresses a))

  -- Only addresses that were asked for are listed as unresolved.
  get_many-unresolved :
      (addresses : List Text) (batch_size retry_rounds : ℕ) (s : S)
      → contains (get_many N addresses batch_size retry_rounds s).0.unresolved a ≡ true
      → contains addresses a ≡ true
  unfolding get_many
  get_many-unresolved addresses batch_size retry_rounds s h = ground (
    arith,
    contains-dedup [] addresses a,
    get_rounds-missing (suc retry_rounds) false (at_least_one batch_size) (dedup [] addresses) [] s
        h,
  )
