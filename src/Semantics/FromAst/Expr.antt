-- ===== src/Semantics/FromAst/Expr.antt =====
-- src/catk/semantics/expr.cpp: `Expr::from_ast` and `from_lambda_expr`.
use casterisk.Prelude.{ℕ, zero, suc, [], false, true, if◌then◌else◌}
use casterisk.Outcome.{internal_bug}
use casterisk.Syntax.Ast.{
  Ast, is_root, is, ret_context, assign_stmt, identifier, lambda_literal, int_literal, fp_literal,
}
use casterisk.Syntax.Parts.{lambda_params, lambda_body}
use casterisk.Semantics.PrimaryUnion.{Numerals}
use casterisk.Semantics.Graph.{Ptr, M, ◌>>=◌, throw, lift, out_of_fuel}
use casterisk.Semantics.FromAst.Symbol.{symbol_from_ast}
use casterisk.Semantics.FromAst.Leaves.{constant_from_ast}
use casterisk.Semantics.FromAst.Functional.{is_functional_expr, functional_from_ast}
use casterisk.Semantics.FromAst.Context.{context_from_ast, module_from_ast}

unfoldable pub from_lambda_expr : (Ast → M Ptr) → Ast → M Ptr
unfolding lambda_params lambda_body context_from_ast
from_lambda_expr rec ast = do
  params ← lift (lambda_params ast)
  body ← lift (lambda_body ast)
  context_from_ast rec body params false

-- The tests of `Expr::from_ast`. String and array literals, and a node with no meaning, end in the
-- same exception.
unfoldable pub expr_step : Numerals → (Ast → M Ptr) → Ast → M Ptr
unfolding module_from_ast context_from_ast symbol_from_ast is_functional_expr functional_from_ast
    from_lambda_expr constant_from_ast
expr_step num rec ast =
    if is_root ast
    then module_from_ast rec ast
    else if is ret_context ast
    then context_from_ast rec ast [] true
    else if is assign_stmt ast
    then symbol_from_ast rec ast
    else if is_functional_expr ast
    then functional_from_ast rec ast
    else if is identifier ast
    then symbol_from_ast rec ast
    else if is lambda_literal ast
    then from_lambda_expr rec ast
    else if is int_literal ast
    then constant_from_ast num ast
    else if is fp_literal ast
    then constant_from_ast num ast
    else throw internal_bug

-- `Expr::from_ast`; a unit of fuel for each level of the tree.
unfoldable pub expr_from_ast : Numerals → ℕ → Ast → M Ptr
unfolding expr_step
expr_from_ast num zero ast = λ _. out_of_fuel
expr_from_ast num (suc fuel) ast = expr_step num (expr_from_ast num fuel) ast
