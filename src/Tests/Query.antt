-- ===== src/Tests/Query.antt =====
-- The theorems on the routing, applied.
use project008_soundtech_ass.Prelude.{ℕ, ◌≡◌, true, false, List, [], ◌∷◌, eqb}
use project008_soundtech_ass.Prelude.Text.{Text, codes, text_eq}
use project008_soundtech_ass.Query.Routing.{Send, View, Feed, summarise}
use project008_soundtech_ass.Query.Routing.Summary.{reference, summarise-reference}

abbrev send : Text → ℕ → Send ℕ
send kind dest = record {
  dest_kind = kind;
  dest = dest;
  on = true;
  level = 10;
  mode = codes "POST";
}

abbrev view : ℕ → List (Send ℕ) → View ℕ
view number sends = record {
  number = number;
  name = codes "kick";
  muted = false;
  fader = 10;
  sends = sends;
  main_sends = [];
  alt_is_off = true;
  source_is_off = false;
}

-- a channel that feeds bus 3 and matrix 3, one that feeds nothing, and bus 3 that feeds itself
abbrev channels : List (View ℕ)
channels = view 1 (send (codes "bus") 3 ∷ send (codes "matrix") 3 ∷ []) ∷ view 2 [] ∷ []

abbrev family : List (Text × View ℕ)
family = (codes "bus", view 3 (send (codes "bus") 3 ∷ [])) ∷ []

abbrev fed : List (Feed ℕ)
fed =
    record {
      kind = codes "channel";
      number = 1;
      name = codes "kick";
      level = 10;
      mode = codes "POST";
      on = true;
    }
    ∷ []

summarise-reference_example :
    summarise (λ l. eqb l 0) (λ t. false) channels ≡ reference (λ l. eqb l 0) (λ t. false) channels
summarise-reference_example = summarise-reference (λ l. eqb l 0) (λ t. false) channels
