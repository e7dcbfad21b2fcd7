-- ===== src/Tests/Drawn.antt =====
-- Drawings of small parse trees.
use casterisk.Prelude.{ℕ, ◌≡◌, refl, List, [], ◌∷◌, ◌++◌, Text, codes}
use casterisk.Outcome.{ok}
use casterisk.Utils.Escape.Quoted.{outside, pass, scan, LeavesAt, leaves_at}
use casterisk.Utils.Escape.{escape}
use casterisk.Syntax.Ast.{Ast}
use casterisk.Syntax.Dot.{print_dot}
use casterisk.Syntax.Dot.Quoted.{print_dot-LeavesAt}
use casterisk.Tests.Trees.{sample, ident, root}

-- A digit for each node on the way.
abbrev ones : List ℕ → Text
ones [] = codes "1"
ones (i ∷ at) = b'1' ∷ ones at

ones-no_quotes : (at : List ℕ) → scan outside (ones at) ≡ outside
unfolding scan pass
ones-no_quotes [] = refl
ones-no_quotes (i ∷ at) = ones-no_quotes at

-- The name of a rule with a quotation mark.
abbrev named : Ast → Text
named t = codes "R\""

print_dot_output :
    print_dot ones named (root (ident "v" ∷ (ident "w" ∷ []))) []
    ≡ ok (
        codes "digraph parse_tree\n{\n"
        ++ codes "  x1 [ label=\"ROOT\" ]\n  x1 -> { x11 }\n"
        ++ codes "  x11 [ label=\"R\\\"\\n\" ]\n  x11 -> { x111, x111 }\n"
        ++ codes "  x111 [ label=\"R\\\"\\nv\" ]\n  x111 [ label=\"R\\\"\\nw\" ]\n}\n")
unfolding print_dot escape
print_dot_output = refl

print_dot-LeavesAt_example :
    (out : Text) × (print_dot ones named sample [] ≡ ok out) × LeavesAt outside out
unfolding scan
print_dot-LeavesAt_example =
    print_dot-LeavesAt ones named ones-no_quotes sample [] refl (leaves_at refl)
