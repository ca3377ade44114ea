-- ===== src/Prelude/Text/Lines.antt =====
-- `str.splitlines`: a text as its lines.
use Prim.Native.Nat.{ℕ}
use mathlib.Core.Path.{◌≡◌, ap, sym, ◌∙◌}
use mathlib.Core.Bool.{Bool, false, ◌&&◌, ◌||◌}
use mathlib.Core.List.{List, [], ◌∷◌, ◌++◌, append_assoc, append-nil}
use project008_soundtech_ass.Prelude.Tests.{leb, eqb, if◌then◌else◌}
use project008_soundtech_ass.Prelude.Lists.{All}
use project008_soundtech_ass.Prelude.Text.{Text}

-- where `str.splitlines` cuts
abbrev pub is_break : ℕ → Bool
is_break c =
    (leb 10 c && leb c 13) || (leb 28 c && leb c 30) || eqb c 133 || eqb c 8232 || eqb c 8233

-- `text.splitlines()`, with blank lines that do not matter here
unfoldable pub split_lines : Text → Text → List Text
split_lines current [] = current ∷ []
split_lines current (c ∷ s) =
    let cut = current ∷ split_lines [] s in
    let kept = split_lines (current ++ c ∷ []) s in if is_break c then cut else kept

-- one line, with no break in it
abbrev pub IsLine : Text → Type 0
IsLine = All (λ c. is_break c ≡ false)

abbrev pub newline : ℕ
newline = 10

split_lines-line_from :
    (current line rest : Text)
    → IsLine line
    → split_lines current (line ++ newline ∷ rest) ≡ (current ++ line) ∷ split_lines [] rest
unfolding split_lines
split_lines-line_from current [] rest h =
    ap (λ s. s ∷ split_lines [] rest) (sym (append-nil current))
split_lines-line_from current (c ∷ line) rest (h, hs) =
    rw h (split_lines-line_from (current ++ c ∷ []) line rest hs ∙ rw append_assoc)

-- A line and its end are cut off.
pub split_lines-line :
    (line rest : Text)
    → IsLine line
    → split_lines [] (line ++ newline ∷ rest) ≡ line ∷ split_lines [] rest
split_lines-line line rest h = split_lines-line_from [] line rest h
