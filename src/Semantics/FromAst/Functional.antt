-- ===== src/Semantics/FromAst/Functional.antt =====
-- src/catk/semantics/functional_expr.cpp and function.hpp: `FunctionalExpr::from_ast`, with the
-- function that a call applies and the two ways to pass its operands.
use casterisk.Prelude.{
  ℕ, suc, Bool, false, true, List, [], ◌∷◌, Option, none, some, Text, ◌==◌, length, set, replicate,
  if◌then◌else◌, map,
}
use casterisk.Table.{find, insert}
use casterisk.Outcome.{Outcome, ok, internal_bug, undefined, bad_variant_access, at, rt_assert}
use casterisk.Syntax.Ast.{Ast, bin_expr, unary_expr, f_call_expr, if_expr, is, content}
use casterisk.Syntax.Parts.{
  bin_expr_function, bin_expr_opnds, unary_expr_function, unary_expr_opnds, if_expr_function,
  if_expr_opnds, f_call_function, f_call_opnds, f_call_opnd_labels, is_param_bind_fcall,
}
use casterisk.Semantics.Op.{ast_str_to_binop, ast_str_to_unaryop}
use casterisk.Semantics.Graph.{
  Ptr, FunctionProto, user, bin_op, unary_op, if_else_op, Context, Object, symbol, context,
  functional_expr, M, ◌>>=◌, ◌>>◌, pure, throw, lift, deref, alloc, load, store, get_name, each,
}
use casterisk.Semantics.FromAst.Symbol.{symbol_from_ast}

-- The rules of `FunctionalExprASTs`, in the order in which they are tried.
pub data FunctionalRule : Type 0 where
  bin unary f_call if_else : FunctionalRule

unfoldable pub functional_rule : Ast → Option FunctionalRule
functional_rule ast =
    if is bin_expr ast
    then some bin
    else if is unary_expr ast
    then some unary
    else if is f_call_expr ast
    then some f_call
    else if is if_expr ast
    then some if_else
    else none

unfoldable pub is_functional_expr : Ast → Bool
unfolding functional_rule
is_functional_expr ast = elim (functional_rule ast) [ none ↦ false | some r ↦ true ]

-- `FExpr::opnds` and `FExpr::function`
unfoldable pub rule_opnds : FunctionalRule → Ast → Outcome (List Ast)
unfolding bin_expr_opnds unary_expr_opnds f_call_opnds if_expr_opnds
rule_opnds bin ast = bin_expr_opnds ast
rule_opnds unary ast = unary_expr_opnds ast
rule_opnds f_call ast = f_call_opnds ast
rule_opnds if_else ast = if_expr_opnds ast

unfoldable pub rule_function : FunctionalRule → Ast → Outcome Ast
unfolding bin_expr_function unary_expr_function f_call_function if_expr_function
rule_function bin ast = bin_expr_function ast
rule_function unary ast = unary_expr_function ast
rule_function f_call ast = f_call_function ast
rule_function if_else ast = if_expr_function ast

-- `Function::from_expr<FExpr>`
unfoldable pub function_from_expr : (Ast → M Ptr) → FunctionalRule → Ast → M FunctionProto
unfolding ast_str_to_binop ast_str_to_unaryop symbol_from_ast
function_from_expr rec bin func_ast = do
  op ← lift (ast_str_to_binop (content func_ast))
  pure (bin_op op)
function_from_expr rec unary func_ast = do
  op ← lift (ast_str_to_unaryop (content func_ast))
  pure (unary_op op)
function_from_expr rec f_call func_ast = do
  sym ← symbol_from_ast rec func_ast
  pure (user (some sym))
function_from_expr rec if_else func_ast = pure if_else_op

-- `ast.is<FCallExpr>() && FCallExpr::is_param_bind_fcall(ast)`
unfoldable pub binds_params : FunctionalRule → Ast → Outcome Bool
unfolding is_param_bind_fcall
binds_params f_call ast = is_param_bind_fcall ast
binds_params _ ast = ok false

-- The operands in the order of the call.
unfoldable pub positional_opnds : (Ast → M Ptr) → List Ast → M (List (Option Ptr))
positional_opnds rec asts = do ps ← each rec asts; pure (map some ps)

-- `std::get<Symbol*>`
unfoldable pub get_user : FunctionProto → M (Option Ptr)
get_user (user p) = pure p
get_user _ = throw bad_variant_access

unfoldable pub rhs_of : Object → M (Option Ptr)
rhs_of (symbol name rhs) = pure rhs
rhs_of _ = throw undefined

-- `dynamic_cast<Context*>(ufunc->rhs())`, read through.
unfoldable pub context_of : Object → M Context
context_of (context c) = pure c
context_of _ = throw undefined

unfoldable pub callee_context : FunctionProto → M Context
unfolding load get_user rhs_of context_of
callee_context func = do
  ufunc ← get_user func
  sym ← deref ufunc
  o ← load sym
  rhs ← rhs_of o
  ctx ← deref rhs
  o' ← load ctx
  context_of o'

-- `index[p->get_name()] = i`, from `i` on.
unfoldable pub index_params : ℕ → List Text → List (Text × ℕ) → List (Text × ℕ)
unfolding insert
index_params i [] index = index
index_params i (name ∷ names) index = index_params (suc i) names (insert name i index)

-- The loop over the labels: each operand goes to the place of the parameter with its label.
unfoldable pub bind_loop :
    (Ast → M Ptr)
    → List (Text × ℕ)
    → List Text
    → List Ast
    → List (Option Ptr)
    → M (List (Option Ptr))
unfolding find
bind_loop rec index [] asts opnds = pure opnds
bind_loop rec index (name ∷ names) [] opnds = throw undefined
bind_loop rec index (name ∷ names) (ast ∷ asts) opnds = do
  i ← lift (at (find name index))
  p ← rec ast
  bind_loop rec index names asts (set opnds i (some p))

unfoldable pub named_opnds : (Ast → M Ptr) → Ast → FunctionProto → List Ast → M (List (Option Ptr))
unfolding f_call_opnd_labels callee_context get_name index_params bind_loop
named_opnds rec ast func asts = do
  labels ← lift (f_call_opnd_labels ast)
  ctx ← callee_context func
  lift (rt_assert (length ctx.params == length labels))
  names ← each get_name ctx.params
  bind_loop rec (index_params 0 names []) labels asts (replicate (length asts) none)

unfoldable pub pass_opnds :
    (Ast → M Ptr) → Bool → Ast → FunctionProto → List Ast → M (List (Option Ptr))
unfolding named_opnds positional_opnds
pass_opnds rec true ast func asts = named_opnds rec ast func asts
pass_opnds rec false ast func asts = positional_opnds rec asts

-- `FunctionalExprMaker`
unfoldable pub make_functional : (Ast → M Ptr) → FunctionalRule → Ast → M Ptr
unfolding alloc store rule_opnds rule_function function_from_expr binds_params pass_opnds
make_functional rec r ast = do
  fexpr ← alloc (functional_expr (user none) [])
  asts ← lift (rule_opnds r ast)
  func_ast ← lift (rule_function r ast)
  func ← function_from_expr rec r func_ast
  named ← lift (binds_params r ast)
  opnds ← pass_opnds rec named ast func asts
  store fexpr (functional_expr func opnds)
  pure fexpr

unfoldable pub functional_from_ast : (Ast → M Ptr) → Ast → M Ptr
unfolding functional_rule make_functional
functional_from_ast rec ast = elim (functional_rule ast) [
  | none ↦ throw internal_bug
  | some r ↦ make_functional rec r ast
]
