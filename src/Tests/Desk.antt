-- ===== src/Tests/Desk.antt =====
-- The theorems on writing to the desk, applied.
use project008_soundtech_ass.Prelude.{
  ℕ, ◌≡◌, refl, true, false, ◌||◌, none, some, [], ◌∷◌, contains, eqb, arith, ok, err, ◌==◌,
}
use project008_soundtech_ass.Prelude.Text.{Text, codes, text_eq}
use project008_soundtech_ass.Prelude.Dict.{Dict, keys, lookup}
use project008_soundtech_ass.Net.Values.{Numbers}
use project008_soundtech_ass.Console.Records.{SetResult, WingIdentity, WriteConfirmation}
use project008_soundtech_ass.Net.Write.{World, Desk, Coding, PushResult, unsent, push, send, set}
use project008_soundtech_ass.Net.Write.Refusal.{
  SentOne, packet, send-refused, send-returned, set-dry,
}
use project008_soundtech_ass.Net.Write.Pushed.{push-accounts}

abbrev rack : WingIdentity
rack = record {
  ip = codes "10.0.0.2";
  name = codes "rack";
  model = codes "wing";
  serial = codes "S1";
  firmware = codes "3";
}

-- numbers without a minus infinity, with 0 for the bottom stop
abbrev naturals : Numbers ℕ ℕ
naturals = record {
  to_float = λ n. n;
  is_zero_int = λ n. eqb n 0;
  is_zero = λ n. eqb n 0;
  is_neg_inf = λ n. false;
  sentinel = 0;
  at_most_sentinel = λ n. eqb n 0;
  close = λ m n. eqb m n;
  show_int = λ n. n ∷ [];
  show_float = λ n. n ∷ [];
  plain = λ n. n ∷ [];
}

-- a desk that holds the last packet and answers with it
abbrev desk : Desk Text Text
desk = record {
  identity = λ s. ok rack;
  deliver = λ p s. ok p.argument;
  request = λ a s. ok (some s);
  get_many = λ asked s. ([], asked);
}

abbrev texts : Coding Text
texts = record {
  format = λ v. v;
  show = λ v. v;
  matches = λ v w. v == w;
  float_of = λ v. none;
  int_of = λ v. none;
  of_text = λ t. t;
  minus_one = codes "-1";
}

abbrev world : World Text Text
world = record { desk = codes "0"; packets = [] }

abbrev confirmation : Text → WriteConfirmation Text
confirmation serial = record {
  host = codes "10.0.0.2";
  address = codes "/ch/1/mute";
  after = codes "1";
  identity = record rack { serial = serial };
  desk_before = some (codes "0");
}

abbrev stored : SetResult Text
stored = record {
  address = codes "/ch/1/mute";
  expected = some (codes "1");
  sent = codes "1";
  dry_run = false;
  readback = some (codes "1");
  matched = some true;
  error = none;
}

-- the same desk behind a network that takes no packet
abbrev unreachable : Desk Text Text
unreachable = record desk { deliver = λ p s. err (codes "OSError") }

send-refused_example : (send unreachable texts none (confirmation (codes "S1")) world).1 ≡ world
unfolding send text_eq
send-refused_example =
    send-refused unreachable texts none (confirmation (codes "S1")) world (unsent (codes "OSError"))
      refl

send-returned_example :
    ((who : WingIdentity) × (desk.identity (codes "0") ≡ ok who) × (who.serial ≡ codes "S1"))
    × SentOne desk texts none
        (packet desk texts none (confirmation (codes "S1")))
        world
        (send desk texts none (confirmation (codes "S1")) world).1
    × (stored.dry_run ≡ false)
unfolding send text_eq
send-returned_example = send-returned desk texts none (confirmation (codes "S1")) world stored refl

set-dry_example : (set desk texts none (codes "/ch/1/fdr") (codes "3") none false world).1 ≡ world
set-dry_example = set-dry desk texts none (codes "/ch/1/fdr") (codes "3") none world

abbrev two_leaves : Dict Text Text
two_leaves = (codes "/ch/1/fdr", codes "3") ∷ (codes "/ch/1/mute", codes "1") ∷ []

abbrev nothing_there : PushResult Text
nothing_there = record { landed = []; mismatched = []; absent = keys two_leaves; dry_run = false }

push-accounts_example :
    (contains nothing_there.landed (codes "/ch/1/mute")
      || contains (keys nothing_there.mismatched) (codes "/ch/1/mute")
      || contains nothing_there.absent (codes "/ch/1/mute"))
    ≡ true
unfolding push text_eq lookup
push-accounts_example =
    push-accounts desk texts none two_leaves world nothing_there (codes "/ch/1/mute")
      (λ asked s h. ground arith) refl refl
