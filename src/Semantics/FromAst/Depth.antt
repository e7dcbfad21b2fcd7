-- ===== src/Semantics/FromAst/Depth.antt =====
-- The parts of a node that src/catk/syntax/expr.hpp picks are less deep than the node.
use casterisk.Prelude.{
  ℕ, zero, suc, ◌≤◌, ◌<◌, ◌≡◌, List, [], ◌∷◌, some, arith, All, All-mono, get_elem?, subst,
  Bool-cases, inl, inr,
}
use mathlib.Core.Option.{some-injective}
use casterisk.Outcome.{unchecked}
use casterisk.Semantics.FromAst.Functional.{
  FunctionalRule, bin, unary, f_call, if_else, rule_opnds, rule_function,
}
use casterisk.Outcome.Yields.{
  Yields, holds, Yields-bind, Yields-assert, Yields-at, Yields-unchecked,
}
use casterisk.Syntax.Ast.{
  Ast, Forest, node, leaf, branch, children, to_list, last?, depth, depth_forest, is,
  f_call_param_bind,
}
use casterisk.Syntax.Parts.{
  child_at, child, each, f_call_opnd, behind_first, param_expr, right_expr, ret_stmt_expr,
  ret_context_stmts, lambda_params, lambda_body,
}

-- Every node in the forest.
All-depth : (f : Forest) → All (λ t. depth t ≤ depth_forest f) (to_list f)
unfolding depth
All-depth leaf = tt
All-depth (branch t f) = (omega arith, All-mono (λ c h. omega arith) (to_list f) (All-depth f))

-- `ast` is at most `d` deep; so its children are less deep.
pub children-depth : (d : ℕ) (ast : Ast) → depth ast ≤ d → All (λ c. depth c < d) (children ast)
unfolding depth
children-depth d (node r s l f) h = All-mono (λ c k. omega arith) (to_list f) (All-depth f)

-- The nodes less deep than `d`.
abbrev pub Below : ℕ → Ast → Type 0
Below d c = depth c < d

get_elem?-Below :
    (d : ℕ) (xs : List Ast) (i : ℕ) (c : Ast)
    → All (Below d) xs
    → get_elem? xs i ≡ some c
    → Below d c
get_elem?-Below d [] i c h e = cc
get_elem?-Below d (x ∷ xs) zero c h e = subst (Below d) (some-injective x c e) h.0
get_elem?-Below d (x ∷ xs) (suc i) c h e = get_elem?-Below d xs i c h.1 e

last?-Below : (d : ℕ) (xs : List Ast) (c : Ast) → All (Below d) xs → last? xs ≡ some c → Below d c
last?-Below d [] c h e = cc
last?-Below d (x ∷ []) c h e = subst (Below d) (some-injective x c e) h.0
last?-Below d (x ∷ (y ∷ ys)) c h e = last?-Below d (y ∷ ys) c h.1 e

module _ (d : ℕ) (ast : Ast) (h : depth ast ≤ d) where
  pub child_at-Below : (i : ℕ) → Yields (Below d) (child_at i ast)
  child_at-Below i =
      Yields-at (get_elem? (children ast) i)
        λ c e. get_elem?-Below d (children ast) i c (children-depth d ast h) e

  pub child-Below : (i : ℕ) → Yields (Below d) (child i ast)
  child-Below i =
      Yields-unchecked (get_elem? (children ast) i)
        λ c e. get_elem?-Below d (children ast) i c (children-depth d ast h) e

  last-Below : Yields (Below d) (unchecked (last? (children ast)))
  last-Below =
      Yields-unchecked (last? (children ast))
        λ c e. last?-Below d (children ast) c (children-depth d ast h) e

  pub right_expr-Below : Yields (Below d) (right_expr ast)
  unfolding right_expr
  right_expr-Below = Yields-assert _ (child_at-Below 1)

  pub param_expr-Below : Yields (Below d) (param_expr ast)
  unfolding param_expr
  param_expr-Below = Yields-assert _ (child-Below 1)

  pub ret_stmt_expr-Below : Yields (Below d) (ret_stmt_expr ast)
  unfolding ret_stmt_expr
  ret_stmt_expr-Below = Yields-assert _ (Yields-assert _ (child_at-Below 1))

  pub ret_context_stmts-Below : Yields (Below d) (ret_context_stmts ast)
  unfolding ret_context_stmts
  ret_context_stmts-Below = Yields-assert _ last-Below

  pub lambda_body-Below : Yields (Below d) (lambda_body ast)
  unfolding lambda_body
  lambda_body-Below = Yields-assert _ last-Below

  pub lambda_params-Below : Yields (All (Below d)) (lambda_params ast)
  unfolding lambda_params
  lambda_params-Below =
      Yields-assert _
        (Yields-bind (child_at-Below 0) λ c k. holds (children-depth d c (omega arith)))

  pub rule_function-Below : (r : FunctionalRule) → Yields (Below d) (rule_function r ast)
  unfolding rule_function
  rule_function-Below bin = Yields-assert _ (Yields-assert _ (child_at-Below 1))
  rule_function-Below unary = Yields-assert _ (Yields-assert _ (child-Below 0))
  rule_function-Below f_call = Yields-assert _ (child_at-Below 0)
  rule_function-Below if_else = Yields-assert _ (child_at-Below 0)

f_call_opnd-Below : (d : ℕ) (c : Ast) → Below d c → Yields (Below d) (f_call_opnd c)
f_call_opnd-Below d c h = elim (Bool-cases (is f_call_param_bind c)) [
  | inl e ↦ rw e (param_expr-Below d c (omega arith))
  | inr e ↦ rw e (holds h)
]

each-Below :
    (d : ℕ) (cs : List Ast) → All (Below d) cs → Yields (All (Below d)) (each f_call_opnd cs)
each-Below d [] h = holds tt
each-Below d (c ∷ cs) h =
    Yields-bind (f_call_opnd-Below d c h.0)
      λ y p. Yields-bind (each-Below d cs h.1) λ ys q. holds (p, q)

behind_first-Below : (d : ℕ) (ast : Ast) → depth ast ≤ d → All (Below d) (behind_first ast)
behind_first-Below d ast h = behind (children ast) (children-depth d ast h)
  where
    behind : (cs : List Ast) → All (Below d) cs → All (Below d) (elim cs [ [] ↦ [] | c ∷ r ↦ r ])
    behind [] k = tt
    behind (c ∷ cs) k = k.1

pub rule_opnds-Below :
    (d : ℕ) (ast : Ast) (h : depth ast ≤ d) (r : FunctionalRule)
    → Yields (All (Below d)) (rule_opnds r ast)
unfolding rule_opnds
rule_opnds-Below d ast h bin = Yields-assert _ (
    Yields-assert _ (
      Yields-bind (child-Below d ast h 0)
        λ a p. Yields-bind (child-Below d ast h 2) λ b q. holds (p, (q, tt))))
rule_opnds-Below d ast h unary =
    Yields-assert _ (Yields-assert _ (Yields-bind (child-Below d ast h 1) λ a p. holds (p, tt)))
rule_opnds-Below d ast h f_call = Yields-assert _ (each-Below d _ (behind_first-Below d ast h))
rule_opnds-Below d ast h if_else = Yields-assert _ (
    Yields-assert _ (
      Yields-bind (child-Below d ast h 1) λ a p.
        Yields-bind (child-Below d ast h 2)
          λ b q. Yields-bind (child-Below d ast h 3) λ c r. holds (p, (q, (r, tt)))))
