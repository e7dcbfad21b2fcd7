-- ===== src/Syntax/Dot.antt =====
-- src/catk/utils.hpp: `print_dot`, which draws the parse tree in the dot language. The address of a node
-- is a parameter that takes the way to it from the root, and its name, which is that of a C++ type, one too.
pub mod Quoted
use casterisk.Prelude.{ℕ, zero, suc, List, [], ◌∷◌, ◌++◌, Text, codes, if◌then◌else◌}
use casterisk.Outcome.{Outcome, ok, assert, ◌>>=◌, ◌>>◌}
use casterisk.Utils.Escape.{escape}
use casterisk.Syntax.Ast.{Ast, node, Forest, leaf, branch, is_root}

module _ (address : List ℕ → Text) (name : Ast → Text) where
  -- The label. `has_content()` holds of every node except the root.
  unfoldable pub dot_label : List ℕ → Ast → Text → Text → Text
  dot_label at (node r content line f) s os =
      let labelled = escape (os ++ codes "  x" ++ address at ++ codes " [ label=\"") s in
      let with_content =
        if is_root (node r content line f)
        then labelled
        else escape (labelled ++ codes "\\n") content in
      with_content ++ codes "\" ]\n"

  -- The loop over the children that are left, from the child `i` on, which prints their addresses. The
  -- last one is told by its address.
  unfoldable pub dot_edges : List ℕ → ℕ → Forest → Text → Text
  dot_edges at i leaf os = os
  dot_edges at i (branch t leaf) os = os ++ codes "x" ++ address (i ∷ at) ++ codes " }\n"
  dot_edges at i (branch t (branch u f)) os =
      dot_edges at (suc i) (branch u f) (os ++ codes "x" ++ address (i ∷ at) ++ codes ", ")

  -- What is printed only when there are children.
  unfoldable pub dot_arrows : List ℕ → Forest → Text → Text
  unfolding dot_edges
  dot_arrows at leaf os = os
  dot_arrows at (branch t f) os =
      dot_edges at zero (branch t f) (os ++ codes "  x" ++ address at ++ codes " -> { ")

  unfoldable mutual
    unfolding dot_label dot_arrows

    pub print_dot_node : List ℕ → Ast → Text → Text → Text
    print_dot_node at (node r content line f) s os =
        print_dot_nodes at zero f (dot_arrows at f (dot_label at (node r content line f) s os))

    -- The loop over the children that are left, which prints them.
    pub print_dot_nodes : List ℕ → ℕ → Forest → Text → Text
    print_dot_nodes at i leaf os = os
    print_dot_nodes at i (branch t f) os =
        print_dot_nodes at (suc i) f (print_dot_node (i ∷ at) t (name t) os)

  unfoldable pub print_dot : Ast → Text → Outcome Text
  unfolding print_dot_node
  print_dot n os = do
    assert (is_root n)
    ok (print_dot_node [] n (codes "ROOT") (os ++ codes "digraph parse_tree\n{\n") ++ codes "}\n")
