-- ===== src/Net/Write.antt =====
-- wing_parser/net/write.py, and `send` of wing_parser/ui/live_write.py. The desk is a parameter; the
-- packets that leave are logged in the state, so that a theorem can count them.
pub mod Refusal
pub mod Pushed
use project008_soundtech_ass.Prelude.{
  Bool, true, false, ◌&&◌, ◌||◌, not, Option, none, some, List, [], ◌∷◌, ◌++◌, ◌==◌, contains,
  Result, ok, err, ◌>>=◌, if◌then◌else◌,
}
use project008_soundtech_ass.Prelude.Text.{Text, codes, text_eq}
use project008_soundtech_ass.Prelude.Dict.{Dict, keys, lookup, insert}
use project008_soundtech_ass.Console.Records.{SetResult, WingIdentity, WriteConfirmation}

-- A parameter write: its address, type tag and argument. `V` is the type of the values.
pub record Packet (V : Type 0) : Type 0 where
  pub address : Text
  pub tag : Text
  pub argument : V

-- What is raised; `unsent` is what `encode` or `sendto` raises, `bad_value` what `float` or `int` does.
pub data WriteError : Type 0 where
  serial_mismatch : Text → Text → WriteError
  no_identity : Text → WriteError
  unsupported_tag : Text → WriteError
  bad_value : WriteError
  desk_changed : Text → Text → WriteError
  bad_leaf : Text → WriteError
  unsent : Text → WriteError

pub record World (V S : Type 0) : Type 0 where
  pub desk : S
  pub packets : List (Packet V)

-- The desk on the network. `identity` is `query_identity`, with the text of what it raises; `deliver`
-- what a packet does, err for what `encode` raises on a text that is not ASCII or `sendto` on a socket
-- error, so that no packet leaves; `request` a read-back, err for what it raises and none for no reply; `get_many`
-- the replies of a batch, each with its leaf value or none for the `ValueError` of `leaf_value`, and the
-- addresses that did not answer.
pub record Desk (V S : Type 0) : Type 0 where
  pub identity : S → Result Text WingIdentity
  pub deliver : Packet V → S → Result Text S
  pub request : Text → S → Result Text (Option V)
  pub get_many : List Text → S → Dict Text (Option V) × List Text

-- What the values are to the code: `_format_value`, `str`, `_values_match`, `float`, `int`, and the string that
-- a text is.
pub record Coding (V : Type 0) : Type 0 where
  pub format : V → Text
  pub show : V → Text
  pub matches : V → V → Bool
  pub float_of : V → Option V
  pub int_of : V → Option V
  pub of_text : Text → V
  pub minus_one : V

pub record PushResult (V : Type 0) : Type 0 where
  pub landed : List Text
  pub mismatched : Dict Text (V × V)
  pub absent : List Text
  pub dry_run : Bool

module _ {V S : Type 0} (D : Desk V S) where
  -- `_authorize`: `allowed` is the environment variable, none or empty for no pin.
  unfoldable pub authorize : Option Text → S → Result WriteError (Unit {0})
  authorize none s = ok tt
  authorize (some []) s = ok tt
  authorize (some (c ∷ pin)) s = elim (D.identity s) [
    | err e ↦ err (no_identity e)
    | ok who ↦ if (c ∷ pin) == who.serial then ok tt else err (serial_mismatch (c ∷ pin) who.serial)
  ]

  -- `_fire_and_forget`
  unfoldable pub transmit : Packet V → World V S → Result WriteError (World V S)
  transmit p w = elim (D.deliver p w.desk) [
    | err e ↦ err (unsent e)
    | ok desk ↦ ok (record { desk = desk; packets = w.packets ++ (p ∷ []) })
  ]

  module _ (K : Coding V) (allowed : Option Text) where
    -- `readback is not None and (expected is None or _values_match(expected, readback))`
    unfoldable pub is_match : Option V → Option V → Bool
    is_match expected none = false
    is_match none (some v) = true
    is_match (some e) (some v) = K.matches e v

    unfoldable pub read_back : Packet V → Text → Option V → World V S → SetResult V
    unfolding is_match
    read_back p sent expected w = elim (D.request p.address w.desk) [
      | err e ↦ record {
        address = p.address;
        expected = expected;
        sent = sent;
        dry_run = false;
        readback = none;
        matched = some false;
        error = some e;
      }
      | ok got ↦ record {
        address = p.address;
        expected = expected;
        sent = sent;
        dry_run = false;
        readback = got;
        matched = some (is_match expected got);
        error = none;
      }
    ]

    abbrev pub dry : Packet V → Text → Option V → SetResult V
    dry p sent expected = record {
      address = p.address;
      expected = expected;
      sent = sent;
      dry_run = true;
      readback = none;
      matched = none;
      error = none;
    }

    -- `_set_leaf`
    unfoldable pub set_leaf :
        Packet V → Text → Option V → Bool → World V S → Result WriteError (SetResult V) × World V S
    unfolding authorize transmit read_back
    set_leaf p sent expected confirm w =
        if not confirm then (ok (dry p sent expected), w) else (elim (authorize allowed w.desk) [
          | err e ↦ (err e, w)
          | ok _ ↦ elim (transmit p w) [
            | err e ↦ (err e, w)
            | ok w' ↦ (ok (read_back p sent expected w'), w')
          ]
        ])

    -- The type tag, the argument and the text of `sent`.
    unfoldable pub encode_value : V → Option Text → Result WriteError (Text × V × Text)
    encode_value value none = ok (codes "s", K.of_text (K.format value), K.format value)
    encode_value value (some tag) =
        if tag == codes "f"
        then (elim (K.float_of value) [
          | none ↦ err bad_value
          | some x ↦ ok (codes "f", x, K.format x)
        ])
        else if tag == codes "i"
        then (elim (K.int_of value) [ none ↦ err bad_value | some n ↦ ok (codes "i", n, K.show n) ])
        else err (unsupported_tag tag)

    unfoldable pub set :
        Text → V → Option Text → Bool → World V S → Result WriteError (SetResult V) × World V S
    unfolding encode_value set_leaf
    set address value typetag confirm w = elim (encode_value value typetag) [
      | err e ↦ (err e, w)
      | ok (tag, argument, sent) ↦
          set_leaf (record { address = address; tag = tag; argument = argument }) sent (some value)
            confirm w
    ]

    unfoldable pub toggle : Text → Bool → World V S → Result WriteError (SetResult V) × World V S
    unfolding set_leaf
    toggle address confirm w =
        set_leaf (record { address = address; tag = codes "i"; argument = K.minus_one })
          (codes "-1") none confirm w

    -- The loop that sends, which what `encode` or `sendto` raises ends, and the packets that left.
    unfoldable pub push_packets : Dict Text V → World V S → Result WriteError (Unit {0}) × World V S
    unfolding transmit
    push_packets [] w = (ok tt, w)
    push_packets ((address, value) ∷ more) w =
        elim (transmit
          (record { address = address; tag = codes "s"; argument = K.of_text (K.format value) })
          w) [ err e ↦ (err e, w) | ok w' ↦ push_packets more w' ]

    -- The loop that compares what was read.
    unfoldable pub settle_leaves :
        Dict Text (Option V) → Dict Text V → Result WriteError (List Text × Dict Text (V × V))
    settle_leaves replies [] = ok ([], [])
    settle_leaves replies ((address, expected) ∷ more) =
        let later = settle_leaves replies more in
        elim (lookup address replies) [
          | none ↦ later
          | some none ↦ err (bad_leaf address)
          | some (some native) ↦ later >>= λ rest.
              (if K.matches expected native
                then ok (address ∷ rest.0, rest.1)
                else ok (rest.0, (address, (expected, native)) ∷ rest.1))
        ]

    -- What `push` returns once the packets have left.
    unfoldable pub verify : Dict Text V → World V S → Result WriteError (PushResult V)
    unfolding settle_leaves
    verify leaves w =
        let (replies, unresolved) = D.get_many (keys leaves) w.desk in
        settle_leaves replies leaves >>= λ rest.
        ok (record { landed = rest.0; mismatched = rest.1; absent = unresolved; dry_run = false })

    unfoldable pub push :
        Dict Text V → Bool → World V S → Result WriteError (PushResult V) × World V S
    unfolding authorize push_packets verify
    push leaves confirm w =
        let (pushed, w') = push_packets leaves w in
        if not confirm
        then (ok (record { landed = []; mismatched = []; absent = []; dry_run = true }), w)
        else (elim (authorize allowed w.desk) [
          | err e ↦ (err e, w)
          | ok _ ↦ (pushed >>= λ _. verify leaves w', w')
        ])

    -- `live_write.send`, which always confirms
    unfoldable pub send :
        WriteConfirmation V → World V S → Result WriteError (SetResult V) × World V S
    unfolding set
    send c w = elim (D.identity w.desk) [
      | err e ↦ (err (no_identity e), w)
      | ok now ↦
          if now.serial == c.identity.serial
          then set c.address c.after none true w
          else (err (desk_changed c.host now.serial), w)
    ]
