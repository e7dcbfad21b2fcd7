-- ===== src/Syntax/Parts.antt =====
-- src/catk/syntax/expr.hpp: the static member functions of the grammar's rules, which pick the parts
-- of a node. `assert` is on, as in a debug build.
use casterisk.Prelude.{
  ℕ, Bool, false, List, [], ◌∷◌, Option, none, some, Text, ◌==◌, length, if◌then◌else◌, get_elem?,
  ltb,
}
use casterisk.Outcome.{Outcome, ok, ◌>>=◌, ◌>>◌, assert, at, unchecked}
use casterisk.Syntax.Ast.{
  Ast, children, content, is, last?, if_expr, bin_expr, unary_expr, f_call_expr, f_call_param_bind,
  int_literal, fp_literal, param, assign_stmt, ret_stmt, ret_context, context_stmts, capture_list,
  lambda_literal,
}

-- `*ast.children.at(i)`
abbrev pub child_at : ℕ → Ast → Outcome Ast
child_at i ast = at (get_elem? (children ast) i)

-- `*ast.children[i]`
abbrev pub child : ℕ → Ast → Outcome Ast
child i ast = unchecked (get_elem? (children ast) i)

abbrev pub size : Ast → ℕ
size ast = length (children ast)

-- `IntLiteral::literal`, `IntLiteral::tag`, `FPLiteral::literal` and `FPLiteral::tag`
unfoldable pub int_literal_literal : Ast → Outcome Ast
int_literal_literal ast = do assert (is int_literal ast); child_at 0 ast

unfoldable pub int_literal_tag : Ast → Outcome Ast
int_literal_tag ast = do assert (is int_literal ast); child_at 1 ast

unfoldable pub fp_literal_literal : Ast → Outcome Ast
fp_literal_literal ast = do assert (is fp_literal ast); child_at 0 ast

unfoldable pub fp_literal_tag : Ast → Outcome Ast
fp_literal_tag ast = do assert (is fp_literal ast); child_at 1 ast

-- `IfExpr::function` and `IfExpr::opnds`
unfoldable pub if_expr_function : Ast → Outcome Ast
if_expr_function ast = do assert (is if_expr ast); child_at 0 ast

unfoldable pub if_expr_opnds : Ast → Outcome (List Ast)
if_expr_opnds ast = do
  assert (is if_expr ast)
  assert (size ast == 4)
  a ← child 1 ast
  b ← child 2 ast
  c ← child 3 ast
  ok (a ∷ (b ∷ (c ∷ [])))

-- `Param::id`, `Param::has_default_expr` and `Param::default_expr`
unfoldable pub param_id : Ast → Outcome Ast
param_id ast = do assert (is param ast); child_at 0 ast

unfoldable pub has_default_expr : Ast → Outcome Bool
has_default_expr ast = do assert (is param ast); ok (ltb 1 (size ast))

unfoldable pub default_expr : Ast → Outcome Ast
default_expr ast = do assert (is param ast); child_at 1 ast

-- `FCallParamBind::param_name` and `FCallParamBind::param_expr`
unfoldable pub param_name : Ast → Outcome Text
param_name ast = do assert (is f_call_param_bind ast); c ← child 0 ast; ok (content c)

unfoldable pub param_expr : Ast → Outcome Ast
param_expr ast = do assert (is f_call_param_bind ast); child 1 ast

-- `FCallExpr::function`
unfoldable pub f_call_function : Ast → Outcome Ast
f_call_function ast = do assert (is f_call_expr ast); child_at 0 ast

-- `FCallExpr::is_param_bind_fcall`: it looks at the first child.
unfoldable pub is_param_bind_fcall : Ast → Outcome Bool
is_param_bind_fcall ast = do
  assert (is f_call_expr ast)
  if ltb 0 (size ast) then (do c ← child 0 ast; ok (is f_call_param_bind c)) else ok false

-- The loops over the children behind the first one.
abbrev pub behind_first : Ast → List Ast
behind_first ast = elim (children ast) [ [] ↦ [] | c ∷ cs ↦ cs ]

abbrev pub f_call_opnd : Ast → Outcome Ast
f_call_opnd c = if is f_call_param_bind c then param_expr c else ok c

abbrev pub each {ℓ κ} : {A : Type ℓ} {B : Type κ} → (A → Outcome B) → List A → Outcome (List B)
each f [] = ok []
each f (x ∷ xs) = f x >>= λ y. each f xs >>= λ ys. ok (y ∷ ys)

-- `FCallExpr::opnds` and `FCallExpr::opnd_labels`
unfoldable pub f_call_opnds : Ast → Outcome (List Ast)
unfolding param_expr
f_call_opnds ast = do assert (is f_call_expr ast); each f_call_opnd (behind_first ast)

unfoldable pub f_call_opnd_labels : Ast → Outcome (List Text)
unfolding param_name
f_call_opnd_labels ast = do assert (is f_call_expr ast); each param_name (behind_first ast)

-- `UnaryExpr::function` and `UnaryExpr::opnds`
unfoldable pub unary_expr_function : Ast → Outcome Ast
unary_expr_function ast = do assert (is unary_expr ast); assert (size ast == 2); child 0 ast

unfoldable pub unary_expr_opnds : Ast → Outcome (List Ast)
unary_expr_opnds ast = do
  assert (is unary_expr ast)
  assert (size ast == 2)
  a ← child 1 ast
  ok (a ∷ [])

-- `AssignStmt::left_list` and `AssignStmt::right_expr`
unfoldable pub left_list : Ast → Outcome Ast
left_list ast = do assert (is assign_stmt ast); child_at 0 ast

unfoldable pub right_expr : Ast → Outcome Ast
right_expr ast = do assert (is assign_stmt ast); child_at 1 ast

-- `AssignStmt::left_values`
unfoldable pub left_values : Ast → Outcome (List Ast)
left_values ast = do c ← child_at 0 ast; ok (children c)

-- `RetStmt::expr`
unfoldable pub ret_stmt_expr : Ast → Outcome Ast
ret_stmt_expr ast = do assert (is ret_stmt ast); assert (size ast == 2); child_at 1 ast

-- `RetContext::capture_list`, with none for the null pointer, and `RetContext::stmts`
unfoldable pub ret_context_capture_list : Ast → Outcome (Option Ast)
ret_context_capture_list ast = do
  assert (is ret_context ast)
  c ← child_at 0 ast
  ok (if is capture_list c then some c else none)

unfoldable pub ret_context_stmts : Ast → Outcome Ast
ret_context_stmts ast = do assert (is ret_context ast); unchecked (last? (children ast))

-- `ContextStmts::ret_stmt` and `RetContext::ret_stmt`
unfoldable pub context_stmts_ret_stmt : Ast → Outcome Ast
context_stmts_ret_stmt ast = do
  assert (is context_stmts ast)
  should_be_ret ← unchecked (last? (children ast))
  assert (is ret_stmt should_be_ret)
  ok should_be_ret

unfoldable pub ret_context_ret_stmt : Ast → Outcome Ast
unfolding ret_context_stmts context_stmts_ret_stmt
ret_context_ret_stmt ast = do
  assert (is ret_context ast)
  stmt_list ← ret_context_stmts ast
  context_stmts_ret_stmt stmt_list

-- `LambdaLiteral::params` and `LambdaLiteral::body`
unfoldable pub lambda_params : Ast → Outcome (List Ast)
lambda_params ast = do assert (is lambda_literal ast); c ← child_at 0 ast; ok (children c)

unfoldable pub lambda_body : Ast → Outcome Ast
lambda_body ast = do assert (is lambda_literal ast); unchecked (last? (children ast))

-- `LambdaLiteral::capture_list` and `LambdaLiteral::stmts`
unfoldable pub lambda_capture_list : Ast → Outcome (Option Ast)
unfolding lambda_body ret_context_capture_list
lambda_capture_list ast = do
  assert (is lambda_literal ast)
  b ← lambda_body ast
  ret_context_capture_list b

unfoldable pub lambda_stmts : Ast → Outcome Ast
unfolding lambda_body ret_context_stmts
lambda_stmts ast = do assert (is lambda_literal ast); b ← lambda_body ast; ret_context_stmts b

-- `BinExpr::function` and `BinExpr::opnds`
unfoldable pub bin_expr_function : Ast → Outcome Ast
bin_expr_function ast = do assert (is bin_expr ast); assert (size ast == 3); child_at 1 ast

unfoldable pub bin_expr_opnds : Ast → Outcome (List Ast)
bin_expr_opnds ast = do
  assert (is bin_expr ast)
  assert (size ast == 3)
  a ← child 0 ast
  b ← child 2 ast
  ok (a ∷ (b ∷ []))
