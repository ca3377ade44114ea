-- ===== src/Net/Client.antt =====
-- wing_parser/net/client.py: `BatchResult` and `WingClient.get_many` with its two helpers. The network is
-- a parameter: what the reads of a chunk return, and the state of the sockets after them.
pub mod Chunks
pub mod Answered
pub mod Sound
use project008_soundtech_ass.Prelude.{
  ℕ, zero, suc, ◌+◌, ◌/◌, Bool, true, false, not, Option, none, some, List, [], ◌∷◌, ◌++◌, ◌==◌,
  contains, eqb, ltb, length, if◌then◌else◌, filter_by,
}
use project008_soundtech_ass.Prelude.Text.{Text, text_eq}
use project008_soundtech_ass.Prelude.Dict.{Dict, insert}

-- What one `recvfrom` and `decode` give. The idle timeout ends the list of a chunk's reads.
pub data Received (M : Type 0) : Type 0 where
  message : M → Received M
  malformed : Received M
  connection_reset : Received M
  unusable : Received M

-- `reads` are the reads from the current socket once the chunk is sent, up to the idle timeout, `after`
-- the state when that many of them are taken, and `rotate` replaces the socket.
pub record Network (M S : Type 0) : Type 0 where
  pub address : M → Text
  pub reads : S → List Text → List (Received M)
  pub after : S → List Text → ℕ → S
  pub rotate : S → S

pub record BatchResult (M : Type 0) : Type 0 where
  pub replies : Dict Text M
  pub unresolved : List Text

-- `list(dict.fromkeys(addresses))`, without those that were seen
unfoldable pub dedup : List Text → List Text → List Text
dedup seen [] = []
dedup seen (a ∷ more) =
    let rest = dedup seen more in
    let rest_new = dedup (a ∷ seen) more in if contains seen a then rest else a ∷ rest_new

-- The slices of `size`, where `room` is left in the current one.
unfoldable pub chunks_from : ℕ → ℕ → List Text → List Text → List (List Text)
chunks_from size room [] [] = []
chunks_from size room (c ∷ cs) [] = (c ∷ cs) ∷ []
chunks_from size zero current (a ∷ more) = current ∷ chunks_from size size (a ∷ []) more
chunks_from size (suc room) current (a ∷ more) = chunks_from size room (current ++ (a ∷ [])) more

-- `addresses[start : start + batch_size]` for each start; the batch size is `suc size`.
unfoldable pub chunks : ℕ → List Text → List (List Text)
unfolding chunks_from
chunks size [] = []
chunks size (a ∷ more) = chunks_from size size (a ∷ []) more

-- `max(1, n)`
abbrev pub at_least_one : ℕ → ℕ
at_least_one zero = 1
at_least_one (suc n) = suc n

abbrev pub pred : ℕ → ℕ
pred zero = 0
pred (suc n) = n

abbrev pub is_nil : {A : Type 0} → List A → Bool
is_nil [] = true
is_nil (_ ∷ _) = false

module _ {M S : Type 0} (N : Network M S) where
  -- The read loop of `_send_and_collect`: the addresses still wanted, the replies, and the reads taken.
  unfoldable pub collect :
      ℕ → ℕ → ℕ → List (Received M) → List Text → Dict Text M → List Text × Dict Text M × ℕ
  collect limit resets taken [] wanted replies = (wanted, replies, taken)
  collect limit resets taken (message m ∷ more) wanted replies =
      let a = N.address m in
      let later =
        collect limit resets (suc taken) more (filter_by (λ w. not (w == a)) wanted)
          (insert a m replies) in
      if is_nil wanted then (wanted, replies, taken) else later
  collect limit resets taken (malformed ∷ more) wanted replies =
      let later = collect limit resets (suc taken) more wanted replies in
      if is_nil wanted then (wanted, replies, taken) else later
  collect limit resets taken (connection_reset ∷ more) wanted replies =
      let later = collect limit (suc resets) (suc taken) more wanted replies in
      if is_nil wanted
      then (wanted, replies, taken)
      else if ltb limit (suc resets)
      then (wanted, replies, suc taken)
      else later
  collect limit resets taken (unusable ∷ more) wanted replies =
      if is_nil wanted then (wanted, replies, taken) else (wanted, replies, suc taken)

  -- The addresses of the chunk without a reply, the replies, and the network.
  unfoldable pub send_and_collect : List Text → Dict Text M → S → List Text × Dict Text M × S
  unfolding collect
  send_and_collect chunk replies s =
      let (wanted, replies', taken) = collect (length chunk) 0 0 (N.reads s chunk) chunk replies in
      (filter_by (contains wanted) chunk, replies', N.after s chunk taken)

  -- The loop of `_run_one_pass` over the chunks.
  unfoldable pub run_chunks : List (List Text) → Dict Text M → S → List Text × Dict Text M × S
  unfolding send_and_collect
  run_chunks [] replies s = ([], replies, s)
  run_chunks (chunk ∷ more) replies s =
      let (missing, replies', s') = send_and_collect chunk replies s in
      let s'' = if is_nil missing then s' else N.rotate s' in
      let (pending, replies'', s3) = run_chunks more replies' s'' in
      (missing ++ pending, replies'', s3)

  unfoldable pub run_one_pass : List Text → ℕ → Dict Text M → S → List Text × Dict Text M × S
  unfolding chunks run_chunks
  run_one_pass addresses batch_size replies s =
      run_chunks (chunks (pred batch_size) addresses) replies s

  -- The rounds that are left of `get_many`, from the second on if `is_retry`.
  unfoldable pub get_rounds : ℕ → Bool → ℕ → List Text → Dict Text M → S → BatchResult M × S
  unfolding run_one_pass
  get_rounds zero is_retry chunk_size pending replies s =
      (record { replies = replies; unresolved = pending }, s)
  get_rounds (suc n) is_retry chunk_size pending replies s =
      let s' = if is_retry then N.rotate s else s in
      let size = if is_retry then at_least_one (chunk_size / 2) else chunk_size in
      let (pending', replies', s'') = run_one_pass pending size replies s' in
      let later = get_rounds n true size pending' replies' s'' in
      if is_nil pending
      then (record { replies = replies; unresolved = pending }, s)
      else if eqb (length pending') (length pending)
      then (record { replies = replies'; unresolved = pending' }, s'')
      else later

  unfoldable pub get_many : List Text → ℕ → ℕ → S → BatchResult M × S
  unfolding dedup get_rounds
  get_many addresses batch_size retry_rounds s =
      get_rounds (suc retry_rounds) false (at_least_one batch_size) (dedup [] addresses) [] s
