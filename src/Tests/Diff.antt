-- ===== src/Tests/Diff.antt =====
-- The theorems on the comparison of scenes, applied.
use project008_soundtech_ass.Prelude.{
  ℕ, ◌+◌, ◌-◌, ◌≡◌, refl, Bool, true, false, some, [], ◌∷◌, ◌++◌, ok, All, eqb, eqb_refl, ◌==◌,
  ==_refl, number_eq,
}
use project008_soundtech_ass.Prelude.Text.{Text, codes, text_eq}
use project008_soundtech_ass.Query.Diff.{
  Leaf, absent, boolean, number, text, other, Node, leaf, dataclass, tuple, nil, attribute, end,
  item, Python, Change,
}
use project008_soundtech_ass.Query.Diff.Scenes.{Scene, compare}
use project008_soundtech_ass.Query.Diff.Same.{IsWellNamed, compare-same}
use project008_soundtech_ass.Query.Diff.Reported.{IsReport, compare-reports}

abbrev same : Leaf ℕ ℕ → Leaf ℕ ℕ → Bool
same absent absent = true
same (boolean true) (boolean true) = true
same (boolean false) (boolean false) = true
same (number m) (number n) = eqb m n
same (text s) (text t) = s == t
same (other m) (other n) = eqb m n
same _ _ = false

same_refl : (l : Leaf ℕ ℕ) → same l l ≡ true
same_refl absent = refl
same_refl (boolean true) = refl
same_refl (boolean false) = refl
same_refl (number n) = eqb_refl n
same_refl (text s) = ==_refl s
same_refl (other n) = eqb_refl n

-- Keys are texts, and numbers are written as one character.
abbrev python : Python ℕ ℕ Text
python = record {
  is_inf = λ n. false;
  sentinel = 0;
  distance = λ m n. (m - n) + (n - m);
  same = same;
  str =
      λ value. elim value [ leaf l ↦ elim l [ text s ↦ s | number n ↦ n ∷ [] | _ ↦ [] ] | _ ↦ [] ];
  key_of_text = λ s. s;
  key_of_value =
      λ value. elim value [ leaf l ↦ elim l [ text s ↦ s | number n ↦ n ∷ [] | _ ↦ [] ] | _ ↦ [] ];
  key_of_index = λ n. n ∷ [];
  str_key = λ k. k;
  str_number = λ n. n ∷ [];
}

-- a channel with a fader and one send
abbrev channel : ℕ → Node ℕ ℕ
channel level = dataclass (
    attribute (codes "fader_dB") (leaf (number level)) (
      attribute (codes "sends")
        (tuple (item (dataclass (attribute (codes "dest") (leaf (number b'3')) nil)) end)) nil))

abbrev scene : ℕ → Scene ℕ ℕ
scene level = record { channel_map = (8, channel level) ∷ []; family = λ kind. [] }

compare-same_example : compare python (scene 4) (scene 4) ≡ ok []
unfolding text_eq IsWellNamed
compare-same_example =
    compare-same python same_refl (scene 4) ((refl, tt, (refl, ((refl, tt, tt), tt), tt)), tt)
      (λ kind. tt)

abbrev moved : Change ℕ ℕ
moved = record {
  path = codes "ch." ++ 8 ∷ codes ".fader_dB";
  before = leaf (number 4);
  after = leaf (number 7);
  magnitude = some 3;
}

compare-reports_example : All (IsReport python) (moved ∷ [])
unfolding compare text_eq number_eq
compare-reports_example = compare-reports python (scene 4) (scene 7) (moved ∷ []) refl
