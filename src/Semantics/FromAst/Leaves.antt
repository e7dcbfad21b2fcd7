-- ===== src/Semantics/FromAst/Leaves.antt =====
-- src/catk/semantics/constant.cpp and ret_expr.cpp: `Constant::from_ast` and `RetExpr::from_ast`.
use casterisk.Prelude.{none, some, ◌||◌, if◌then◌else◌}
use casterisk.Prelude.Int.{pos}
use casterisk.Outcome.{Outcome, raised, internal_bug, rt_assert}
use casterisk.Syntax.Ast.{Ast, int_literal, fp_literal, ret_stmt, is}
use casterisk.Syntax.Parts.{ret_stmt_expr}
use casterisk.Semantics.PrimaryUnion.{
  PrimaryUnion, int32, Numerals, int_literal_interpret, fp_literal_interpret,
}
use casterisk.Semantics.Graph.{Ptr, M, ◌>>=◌, ◌>>◌, pure, lift, alloc, store, constant, ret_expr}

-- `PrimaryUnion value_ {0}`
abbrev zero_value : PrimaryUnion
zero_value = int32 (pos 0)

-- `ConstantMaker`, chosen by the rule of the node.
unfoldable pub interpret : Numerals → Ast → Outcome PrimaryUnion
unfolding int_literal_interpret fp_literal_interpret
interpret num ast =
    if is int_literal ast
    then int_literal_interpret num ast
    else if is fp_literal ast
    then fp_literal_interpret num ast zero_value
    else raised internal_bug

unfoldable pub constant_from_ast : Numerals → Ast → M Ptr
unfolding alloc store interpret
constant_from_ast num ast = do
  lift (rt_assert (is int_literal ast || is fp_literal ast))
  cv ← alloc (constant zero_value)
  v ← lift (interpret num ast)
  store cv (constant v)
  pure cv

unfoldable pub ret_expr_from_ast : (Ast → M Ptr) → Ast → M Ptr
unfolding alloc store ret_stmt_expr
ret_expr_from_ast rec ast = do
  lift (rt_assert (is ret_stmt ast))
  ret ← alloc (ret_expr none)
  r_expr ← lift (ret_stmt_expr ast)
  rhs ← rec r_expr
  store ret (ret_expr (some rhs))
  pure ret
