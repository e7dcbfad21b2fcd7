-- ===== src/Syntax/Dot/Quoted.antt =====
-- Quotation marks in the drawing of a parse tree.
use casterisk.Prelude.{
  ℕ, zero, suc, ◌≡◌, refl, true, List, [], ◌∷◌, ◌++◌, Text, codes, Bool-cases, inl, inr,
}
use casterisk.Outcome.{ok}
use casterisk.Utils.Escape.Quoted.{
  Place, outside, pass, scan, LeavesAt, append-LeavesAt, escape-LeavesAt,
}
use casterisk.Syntax.Ast.{Ast, node, Forest, leaf, branch, is_root}
use casterisk.Syntax.Dot.{
  dot_label, dot_edges, dot_arrows, print_dot_node, print_dot_nodes, print_dot,
}

module _ (address : List ℕ → Text) (name : Ast → Text)
    (no_quotes : (at : List ℕ) → scan outside (address at) ≡ outside) where
  -- An address, between two other texts.
  around :
      (at : List ℕ) {os : Text} (a b : Text) {q : Place}
      → LeavesAt outside os
      → scan outside a ≡ outside
      → scan outside b ≡ q
      → LeavesAt q (os ++ a ++ address at ++ b)
  around at a b h ha hb =
      append-LeavesAt (append-LeavesAt (append-LeavesAt h a ha) (address at) (no_quotes at)) b hb

  dot_label-LeavesAt :
      (at : List ℕ) (t : Ast) (s : Text) {os : Text}
      → LeavesAt outside os
      → LeavesAt outside (dot_label address name at t s os)
  unfolding dot_label scan pass
  dot_label-LeavesAt at (node r content line f) s h =
      let label = escape-LeavesAt s (around at (codes "  x") (codes " [ label=\"") h refl refl) in
      elim (Bool-cases (is_root (node r content line f))) [
        | inl e ↦ rw e (append-LeavesAt label (codes "\" ]\n") refl)
        | inr e ↦ rw e (
            append-LeavesAt (escape-LeavesAt content (append-LeavesAt label (codes "\\n") refl))
              (codes "\" ]\n") refl)
      ]

  dot_edges-LeavesAt :
      (at : List ℕ) (i : ℕ) (f : Forest) {os : Text}
      → LeavesAt outside os
      → LeavesAt outside (dot_edges address name at i f os)
  unfolding dot_edges scan pass
  dot_edges-LeavesAt at i leaf h = h
  dot_edges-LeavesAt at i (branch t leaf) h = around (i ∷ at) (codes "x") (codes " }\n") h refl refl
  dot_edges-LeavesAt at i (branch t (branch u f)) h =
      dot_edges-LeavesAt at (suc i) (branch u f)
        (around (i ∷ at) (codes "x") (codes ", ") h refl refl)

  dot_arrows-LeavesAt :
      (at : List ℕ) (f : Forest) {os : Text}
      → LeavesAt outside os
      → LeavesAt outside (dot_arrows address name at f os)
  unfolding dot_arrows scan pass
  dot_arrows-LeavesAt at leaf h = h
  dot_arrows-LeavesAt at (branch t f) h =
      dot_edges-LeavesAt at zero (branch t f) (around at (codes "  x") (codes " -> { ") h refl refl)

  mutual
    unfolding print_dot_node print_dot_nodes

    print_dot_node-LeavesAt :
        (at : List ℕ) (t : Ast) (s : Text) {os : Text}
        → LeavesAt outside os
        → LeavesAt outside (print_dot_node address name at t s os)
    print_dot_node-LeavesAt at (node r content line f) s h =
        print_dot_nodes-LeavesAt at zero f
          (dot_arrows-LeavesAt at f (dot_label-LeavesAt at (node r content line f) s h))

    print_dot_nodes-LeavesAt :
        (at : List ℕ) (i : ℕ) (f : Forest) {os : Text}
        → LeavesAt outside os
        → LeavesAt outside (print_dot_nodes address name at i f os)
    print_dot_nodes-LeavesAt at i leaf h = h
    print_dot_nodes-LeavesAt at i (branch t f) h =
        print_dot_nodes-LeavesAt at (suc i) f (print_dot_node-LeavesAt (i ∷ at) t (name t) h)

  -- When addresses have no quotation marks, print_dot of a root returns, and a reader of quoted texts that
  -- is outside of a quoted text in front of the drawing is outside again behind it, whatever the names
  -- and contents of the nodes are.
  pub print_dot-LeavesAt :
      (n : Ast) (os : Text)
      → is_root n ≡ true
      → LeavesAt outside os
      → (out : Text) × (print_dot address name n os ≡ ok out) × LeavesAt outside out
  unfolding print_dot scan pass
  print_dot-LeavesAt n os e h =
      let begun = append-LeavesAt h (codes "digraph parse_tree\n{\n") refl in
      let drawn = print_dot_node-LeavesAt [] n (codes "ROOT") begun in
      (_, rw e, append-LeavesAt drawn (codes "}\n") refl)
