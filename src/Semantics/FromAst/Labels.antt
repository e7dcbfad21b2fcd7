-- ===== src/Semantics/FromAst/Labels.antt =====
-- The labels of the operands of a call, `f(a = x, b = y)`.
use casterisk.Prelude.{suc, length, lt→ltb, arith, ◌≡◌, refl, false, List, [], ◌∷◌, some, Text, ℕ}
use casterisk.Outcome.{ok}
use casterisk.Syntax.Ast.{
  Ast, Forest, node, leaf, branch, f_call_expr, f_call_param_bind, is, to_list,
}
use casterisk.Syntax.Parts.{each, f_call_opnd, param_expr}
use casterisk.Semantics.Graph.{Ptr, M, run}
use casterisk.Semantics.FromAst.Functional.{
  f_call, rule_opnds, binds_params, make_functional, functional_from_ast,
}

abbrev pub call : Text → ℕ → Ast → Forest → Ast
call s l function opnds = node (some f_call_expr) s l (branch function opnds)

-- An operand with a label, as the parser makes it: the name, and an expression.
pub record Labelled : Type 0 where
  pub text : Text
  pub line : ℕ
  pub name : Ast
  pub expr : Ast
  pub plain : is f_call_param_bind expr ≡ false

abbrev pub labelled_opnds : List Labelled → Forest
labelled_opnds [] = leaf
labelled_opnds (x ∷ xs) =
    branch (node (some f_call_param_bind) x.text x.line (branch x.name (branch x.expr leaf)))
      (labelled_opnds xs)

abbrev pub plain_opnds : List Labelled → Forest
plain_opnds [] = leaf
plain_opnds (x ∷ xs) = branch x.expr (plain_opnds xs)

exprs : List Labelled → List Ast
exprs [] = []
exprs (x ∷ xs) = x.expr ∷ exprs xs

each-labelled :
    (xs : List Labelled) → each f_call_opnd (to_list (labelled_opnds xs)) ≡ ok (exprs xs)
unfolding exprs param_expr
each-labelled [] = refl
each-labelled (x ∷ xs) = rw (each-labelled xs)

each-plain : (xs : List Labelled) → each f_call_opnd (to_list (plain_opnds xs)) ≡ ok (exprs xs)
unfolding exprs
each-plain [] = refl
each-plain (x ∷ xs) = rw (x.plain, each-plain xs)

module _ (rec : Ast → M Ptr) (s : Text) (l : ℕ) (function : Ast) (xs : List Labelled)
    (no_label : is f_call_param_bind function ≡ false) where
  binds_params-false : (opnds : Forest) → binds_params f_call (call s l function opnds) ≡ ok false
  unfolding binds_params
  binds_params-false opnds = rw (lt→ltb 0 (suc (length (to_list opnds))) (omega arith), no_label)

  rule_opnds-labelled : rule_opnds f_call (call s l function (labelled_opnds xs)) ≡ ok (exprs xs)
  unfolding rule_opnds
  rule_opnds-labelled = rw (each-labelled xs)

  rule_opnds-plain : rule_opnds f_call (call s l function (plain_opnds xs)) ≡ ok (exprs xs)
  unfolding rule_opnds
  rule_opnds-plain = rw (each-plain xs)

  make_functional-plain :
      make_functional rec f_call (call s l function (labelled_opnds xs))
      ≡ make_functional rec f_call (call s l function (plain_opnds xs))
  unfolding make_functional run
  make_functional-plain = rw (
    make_functional,
    rule_opnds-labelled,
    rule_opnds-plain,
    binds_params-false (labelled_opnds xs),
    binds_params-false (plain_opnds xs),
  )

  -- In a call whose first part is no labelled operand, as the parser makes it, the labels of the
  -- operands make no difference: the operands are passed in the order in which they are written,
  -- whatever the names of the parameters.
  pub functional_from_ast-plain :
      functional_from_ast rec (call s l function (labelled_opnds xs))
      ≡ functional_from_ast rec (call s l function (plain_opnds xs))
  unfolding functional_from_ast
  functional_from_ast-plain = make_functional-plain
