-- ===== src/Net/Write/Pushed.antt =====
-- What a push accounts for.
use project008_soundtech_ass.Prelude.{
  ◌≡◌, refl, sym, ap, ◌∙◌, Bool, true, false, ◌||◌, Option, none, some, List, [], ◌∷◌, ◌++◌,
  contains, ==→eq, ok, arith, Option-cases, inl, inr, map, append_assoc, append-nil,
}
use project008_soundtech_ass.Prelude.Text.{Text, codes, text_eq}
use project008_soundtech_ass.Prelude.Dict.{Dict, keys, lookup}
use project008_soundtech_ass.Net.Write.{
  Packet, World, Desk, Coding, PushResult, authorize, transmit, push_packets, settle_leaves, verify,
  push,
}
use project008_soundtech_ass.Net.Write.Refusal.{Result-cases}

abbrev pub addresses : {V : Type 0} → List (Packet V) → List Text
addresses ps = map (λ p. p.address) ps

addresses-append :
    {V : Type 0} (ps qs : List (Packet V)) → addresses (ps ++ qs) ≡ addresses ps ++ addresses qs
addresses-append [] qs = refl
addresses-append (p ∷ ps) qs = ap (λ l. p.address ∷ l) (addresses-append ps qs)

-- the address has a reply
abbrev pub is_replied : {A : Type 0} → Dict Text A → Text → Bool
is_replied replies a = elim (lookup a replies) [ none ↦ false | some _ ↦ true ]

module _ {V S : Type 0} (D : Desk V S) (K : Coding V) (allowed : Option Text) where
  packets-push_packets :
      (leaves : Dict Text V) (w : World V S)
      → (push_packets D K allowed leaves w).0 ≡ ok tt
      → addresses (push_packets D K allowed leaves w).1.packets ≡ addresses w.packets ++ keys leaves
  unfolding push_packets transmit
  packets-push_packets [] w h = sym (append-nil (addresses w.packets))
  packets-push_packets ((a, v) ∷ more) w h = elim (Result-cases (D.deliver (packet a v) w.desk)) [
    | inr (e, k) ↦ absurd (ground arith)
    | inl (s, k) ↦
        let later =
          packets-push_packets more (record { desk = s; packets = w.packets ++ packet a v ∷ [] })
            (ground arith) in
        ground (
          arith,
          later
              ∙ ap (λ l. l ++ keys more) (addresses-append w.packets (packet a v ∷ []))
              ∙ append_assoc (addresses w.packets) (a ∷ []) (keys more),
        )
  ]
    where
      packet : Text → V → Packet V
      packet a v = record { address = a; tag = codes "s"; argument = K.of_text (K.format v) }

  -- A confirmed push that returns has sent one packet for each leaf, in order.
  push-packets :
      (leaves : Dict Text V) (w : World V S) (r : PushResult V)
      → (push D K allowed leaves true w).0 ≡ ok r
      → addresses (push D K allowed leaves true w).1.packets ≡ addresses w.packets ++ keys leaves
  unfolding push
  push-packets leaves w r h = elim (Result-cases (authorize D allowed w.desk)) [
    | inr (e, k) ↦ absurd (ground arith)
    | inl (u, k) ↦ elim (Result-cases (push_packets D K allowed leaves w).0) [
      | inl (tt, m) ↦ ground (arith, packets-push_packets leaves w)
      | inr (e, m) ↦ absurd (ground arith)
    ]
  ]

  settle_leaves-replied :
      (replies : Dict Text (Option V)) (leaves : Dict Text V) (rest : List Text × Dict Text (V × V))
      (a : Text)
      → settle_leaves D K allowed replies leaves ≡ ok rest
      → contains (keys leaves) a ≡ true
      → is_replied replies a ≡ true
      → (contains rest.0 a || contains (keys rest.1) a) ≡ true
  unfolding settle_leaves
  settle_leaves-replied replies [] rest a h i j = absurd (cc)
  settle_leaves-replied replies ((b, v) ∷ more) rest a h i j =
      elim (Option-cases (lookup b replies)) [
        | inl n ↦ ground (arith, ==→eq a b, settle_leaves-replied replies more rest a)
        | inr (none, k) ↦ absurd (ground arith)
        | inr (some native, k) ↦ elim (Result-cases (settle_leaves D K allowed replies more)) [
          | inr (e, m) ↦ absurd (ground arith)
          | inl (later, m) ↦ ground (arith, settle_leaves-replied replies more later a m)
        ]
      ]

  -- If the batch of a push leaves no address without a reply or a mention, then a push that returns lists
  -- each of its leaves as landed, as mismatched or as absent.
  pub push-accounts :
      (leaves : Dict Text V) (w : World V S) (r : PushResult V) (a : Text)
      → ((asked : List Text) (s : S)
          → contains asked a ≡ true
          → (contains (D.get_many asked s).1 a || is_replied (D.get_many asked s).0 a) ≡ true)
      → (push D K allowed leaves true w).0 ≡ ok r
      → contains (keys leaves) a ≡ true
      → (contains r.landed a || contains (keys r.mismatched) a || contains r.absent a) ≡ true
  unfolding push verify
  push-accounts leaves w r a g h i =
      let s = (push_packets D K allowed leaves w).1.desk in
      let batch = D.get_many (keys leaves) s in
      elim (Result-cases (authorize D allowed w.desk)) [
        | inr (e, k) ↦ absurd (ground arith)
        | inl (u, k) ↦ elim (Result-cases (settle_leaves D K allowed batch.0 leaves)) [
          | inr (e, m) ↦ absurd (ground arith)
          | inl (rest, m) ↦
              ground (arith, g (keys leaves) s i, settle_leaves-replied batch.0 leaves rest a m i)
        ]
      ]
