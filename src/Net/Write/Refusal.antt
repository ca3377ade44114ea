-- ===== src/Net/Write/Refusal.antt =====
-- When packets leave, and when none does.
use project008_soundtech_ass.Prelude.{
  ◌≡◌, refl, true, false, Option, some, ◌==◌, Result, ok, err, arith, [], ◌∷◌, ◌++◌, Bool-cases,
  inl, inr, ==→eq, ◌⊎◌,
}
use project008_soundtech_ass.Prelude.Text.{Text, codes, text_eq}
use project008_soundtech_ass.Console.Records.{SetResult, WingIdentity, WriteConfirmation}
use project008_soundtech_ass.Net.Write.{
  Packet, World, Desk, Coding, WriteError, authorize, transmit, read_back, set_leaf, encode_value,
  set, send,
}

pub Result-cases :
    {E A : Type 0} (r : Result E A) → ((a : A) × (r ≡ ok a)) ⊎ ((e : E) × (r ≡ err e))
Result-cases (ok a) = inl (a, refl)
Result-cases (err e) = inr (e, refl)

module _ {V S : Type 0} (D : Desk V S) (K : Coding V) (allowed : Option Text) where
  -- The packet was delivered, and it is the only one that left.
  abbrev pub SentOne : Packet V → World V S → World V S → Type 0
  SentOne p w w' = (D.deliver p w.desk ≡ ok w'.desk) × (w'.packets ≡ w.packets ++ p ∷ [])

  set_leaf-ok :
      (p : Packet V) (sent : Text) (expected : Option V) (w : World V S) (r : SetResult V)
      → (set_leaf D K allowed p sent expected true w).0 ≡ ok r
      → SentOne p w (set_leaf D K allowed p sent expected true w).1 × (r.dry_run ≡ false)
  unfolding set_leaf read_back transmit
  set_leaf-ok p sent expected w r h = elim (Result-cases (authorize D allowed w.desk)) [
    | inr (e, k) ↦ absurd (ground arith)
    | inl (u, k) ↦ elim (Result-cases (D.deliver p w.desk)) [
      | inr (e, j) ↦ absurd (ground arith)
      | inl (s, j) ↦ elim (Result-cases (D.request p.address s)) [
        | inl (got, i) ↦ ((ground arith, ground arith), ground arith)
        | inr (e, i) ↦ ((ground arith, ground arith), ground arith)
      ]
    ]
  ]

  -- If `send` raises, be it before or in the transmission, then no packet left and the desk is as it was.
  pub send-refused :
      (c : WriteConfirmation V) (w : World V S) (e : WriteError)
      → (send D K allowed c w).0 ≡ err e
      → (send D K allowed c w).1 ≡ w
  unfolding send set set_leaf encode_value
  send-refused c w e h = ground arith

  -- the packet that `send` means to send: the value as a string, to the address of the confirmation
  abbrev pub packet : WriteConfirmation V → Packet V
  packet c = record {
    address = c.address;
    tag = codes "s";
    argument = K.of_text (K.format c.after);
  }

  -- If `send` returns, the desk answered with the serial of the confirmation, the packet with the value and
  -- the address of the confirmation was delivered, the log of packets has grown by that packet and no
  -- other, and the result is not that of a dry run.
  pub send-returned :
      (c : WriteConfirmation V) (w : World V S) (r : SetResult V)
      → (send D K allowed c w).0 ≡ ok r
      → ((who : WingIdentity) × (D.identity w.desk ≡ ok who) × (who.serial ≡ c.identity.serial))
        × SentOne (packet c) w (send D K allowed c w).1
        × (r.dry_run ≡ false)
  unfolding send set encode_value
  send-returned c w r h = elim (Result-cases (D.identity w.desk)) [
    | inr (e, k) ↦ absurd (ground arith)
    | inl (who, k) ↦ elim (Bool-cases (who.serial == c.identity.serial)) [
      | inr n ↦ absurd (ground arith)
      | inl y ↦
          let (sent, real) =
            set_leaf-ok (packet c) (K.format c.after) (some c.after) w r (ground arith) in
          (
            (who, k, ==→eq who.serial c.identity.serial y),
            (ground (arith, sent.0), ground (arith, sent.1)),
            real,
          )
    ]
  ]

  -- Without `confirm` nothing leaves, whatever the value and the type tag.
  pub set-dry :
      (address : Text) (value : V) (tag : Option Text) (w : World V S)
      → (set D K allowed address value tag false w).1 ≡ w
  unfolding set set_leaf
  set-dry address value tag w = ground arith
