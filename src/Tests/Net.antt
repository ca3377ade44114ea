-- ===== src/Tests/Net.antt =====
-- The theorems on the desk's protocol, applied.
use project008_soundtech_ass.Prelude.{
  Option, ℕ, suc, ◌≡◌, refl, true, false, ◌||◌, none, some, List, [], ◌∷◌, contains, if◌then◌else◌,
  ok,
}
use project008_soundtech_ass.Prelude.Text.{Text, codes, text_eq, split, join}
use project008_soundtech_ass.Prelude.Dict.{Dict, keys, lookup, insert}
use project008_soundtech_ass.Edit.Document.{leaf, Fields, nil, field, put}
use project008_soundtech_ass.Edit.Pointer.{read}
use project008_soundtech_ass.Net.Address.{leaf_parts, osc_address}
use project008_soundtech_ass.Net.Snapshot.{place}
use project008_soundtech_ass.Net.Snapshot.Place.{snap, place-osc_address}
use project008_soundtech_ass.Net.Strips.{WatchList, build_watch_list}
use project008_soundtech_ass.Net.Strips.Watched.{build_watch_list-watched}
use project008_soundtech_ass.Net.Client.{message, malformed, Network, get_many}
use project008_soundtech_ass.Net.Client.Answered.{get_many-known}
use project008_soundtech_ass.Net.Watch
use project008_soundtech_ass.Net.Watch.{watch, split_address, sample}
use project008_soundtech_ass.Net.Watch.Chain.{Chain, at_address, watch-Chain}
use project008_soundtech_ass.Console.Records.{WingIdentity}

abbrev short : WingIdentity
short = record {
  ip = codes "1";
  name = codes "2";
  model = codes "3";
  serial = codes "4";
  firmware = codes "5";
}

-- every leaf is one of channel 8
abbrev eighth : Text → Option (Text × ℕ)
eighth address = some (codes "ch", 8)

abbrev two_keys : Dict Text (List Text)
two_keys = (codes "ch", codes "$fdr" ∷ codes "$mute" ∷ []) ∷ []

abbrev watched : WatchList
watched = record {
  addresses = codes "/ch/8/$fdr" ∷ codes "/ch/8/$mute" ∷ [];
  unresolved = [];
  strips = (codes "ch", 1) ∷ [];
}

build_watch_list-watched_example : contains watched.addresses (codes "/ch/8/$mute") ≡ true
unfolding build_watch_list text_eq lookup insert
build_watch_list-watched_example =
    build_watch_list-watched eighth (λ n. codes "8") two_keys (codes "/ch/8/fdr" ∷ []) [] watched
      (codes "/ch/8/fdr") (codes "ch") 8 (codes "$fdr" ∷ codes "$mute" ∷ []) (codes "$mute") refl
      refl refl refl refl refl

-- the leaf `fdr` at its address
place-osc_address_example :
    (read (snap {V = ℕ} (field (codes "fdr") (leaf 3) nil)) (codes "ae_data.fdr") ≡ ok (leaf 3))
    × (◌≡◌ {A = Fields ℕ} nil nil)
unfolding place leaf_parts osc_address text_eq split join put
place-osc_address_example =
    place-osc_address nil nil (field (codes "fdr") (leaf 3) nil) nil (codes "ae_data.fdr")
      (codes "/fdr") (codes "fdr") [] 3 refl refl ((refl, (refl, (refl, tt))), tt) refl refl

-- a network on which only the address "b" answers, and which forgets nothing
abbrev only_b : Network Text ℕ
only_b = record {
  address = λ m. m;
  reads =
      λ s asked. if contains asked (codes "b") then message (codes "b") ∷ malformed ∷ [] else [];
  after = λ s asked n. s;
  rotate = suc;
}

abbrev asked : List Text
asked = codes "a" ∷ codes "b" ∷ codes "a" ∷ []

get_many-known_example :
    (contains (get_many only_b asked 2 1 0).0.unresolved (codes "b")
      || contains (keys (get_many only_b asked 2 1 0).0.replies) (codes "b"))
    ≡ true
unfolding text_eq
get_many-known_example = get_many-known only_b (codes "b") asked 2 1 0 refl

-- a desk whose values are texts, watched for two rounds
abbrev quarter : Watch.Session
quarter = record { interval = 2; duration = none; max_rounds = none; clock = λ n. n }

abbrev fader : Text → Dict Text Text
fader v = (codes "/ch/1/$fdr", v) ∷ []

abbrev moves : List (Watch.Round Text)
moves =
    record { replies = fader (codes "2"); cancelled = false }
    ∷ record { replies = fader (codes "3"); cancelled = false }
    ∷ []

watch-Chain_example :
    Chain
      (codes "1")
      (at_address (codes "/ch/1/$fdr") (watch (λ m. some m) quarter [] (fader (codes "1")) moves))
unfolding sample text_eq lookup insert
watch-Chain_example =
    watch-Chain (λ m. some m) quarter (codes "/ch/1/$fdr") [] (fader (codes "1")) moves (codes "1")
      refl
