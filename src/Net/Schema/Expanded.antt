-- ===== src/Net/Schema/Expanded.antt =====
-- The nodes and the leaves that a level's replies name.
use mathlib.Core.Path.{subst}
use project008_soundtech_ass.Prelude.{
  ◌≡◌, refl, Bool, List, [], ◌∷◌, Option, none, some, All, All-append, arith,
}
use project008_soundtech_ass.Prelude.Text.{Text, text_eq}
use project008_soundtech_ass.Prelude.Dict.{Dict, insert}
use project008_soundtech_ass.Net.Codec.{OscMessage}
use project008_soundtech_ass.Net.Schema.{
  child_address, parse_lines, expand_lines, expand_body, expand, body_of,
}

-- The nodes do not depend on what is filed.
expand_lines-nodes :
    (address : Text) (lines : List (Text × Bool × Text)) (leaves leaves' : Dict Text Text)
    → (expand_lines address lines leaves).1 ≡ (expand_lines address lines leaves').1
unfolding expand_lines
expand_lines-nodes address [] leaves leaves' = refl
expand_lines-nodes address ((name, is_node, type_text) ∷ more) leaves leaves' = ground (
  arith,
  expand_lines-nodes address more leaves leaves',
  expand_lines-nodes address more (insert (child_address address name) type_text leaves)
      (insert (child_address address name) type_text leaves'),
)

expand_body-nodes :
    (address : Text) (body : Option Text) (leaves leaves' : Dict Text Text)
    → (expand_body address body leaves).1 ≡ (expand_body address body leaves').1
unfolding expand_body
expand_body-nodes address none leaves leaves' = refl
expand_body-nodes address (some s) leaves leaves' =
    expand_lines-nodes address (parse_lines s) leaves leaves'

-- the nodes that a reply names
abbrev pub nodes_of : {F : Type 0} → Text → OscMessage F → List Text
nodes_of address m = (expand_body address (body_of m) []).1

-- What holds of the nodes of each reply holds of the next level.
pub expand-All :
    {F : Type 0} (R : Text → Type 0) (replies : Dict Text (OscMessage F)) (leaves : Dict Text Text)
    → All (λ (address, m). All R (nodes_of address m)) replies
    → All R (expand replies leaves).1
unfolding expand
expand-All R [] leaves rs = tt
expand-All R ((address, m) ∷ more) leaves (r, rs) =
    let filed = expand_body address (body_of m) leaves in
    All-append R filed.1 (expand more filed.0).1
      (subst (All R) (expand_body-nodes address (body_of m) [] leaves) r)
      (expand-All R more filed.0 rs)
