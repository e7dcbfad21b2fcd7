-- ===== src/Semantics/FromAst/Frame.antt =====
-- The functions `from_ast` change no object that was there before, and leave the current context as
-- it was, whether they return or throw.
use casterisk.Prelude.{
  ℕ, zero, suc, ◌≤◌, List, [], ◌∷◌, Option, none, some, Text, Bool, true, false, arith, set,
  Option-cases, inl, inr,
}
use casterisk.Syntax.Ast.{Ast, children}
use casterisk.Semantics.PrimaryUnion.{Numerals}
use casterisk.Semantics.Graph.{Ptr, Object, symbol, context, FunctionProto, user, World, M}
use casterisk.Semantics.Graph.Framed.{
  Frame, After, Framed, Framed-pure, Framed-throw, Framed-starved, Framed-lift, Framed-bind,
  Framed-load_context, Framed-with_current, Framed-for_each, Framed-if, framed,
}
use casterisk.Semantics.FromAst.Symbol.{
  get_symbol, or_internal_bug, resolve, param_symbol, assigned_symbol, new_symbol, symbol_from_ast,
}
use casterisk.Semantics.FromAst.Leaves.{constant_from_ast, ret_expr_from_ast}
use casterisk.Semantics.FromAst.Functional.{
  FunctionalRule, bin, unary, f_call, if_else, functional_rule, function_from_expr,
  positional_opnds, callee_context, get_user, rhs_of, context_of, bind_loop, named_opnds,
  pass_opnds, make_functional, functional_from_ast,
}
use casterisk.Semantics.FromAst.Context.{
  capture, capture_all, open_body, add_param, define_local, unless_bound, assign_stmt_in,
  return_stmt_in, statement, fill_context, context_from_ast, module_from_ast,
}
use casterisk.Semantics.FromAst.Expr.{from_lambda_expr, expr_step, expr_from_ast}

module _ (n : Ptr) (num : Numerals) where
  Framed-constant : (ast : Ast) → Framed n (constant_from_ast num ast)
  unfolding constant_from_ast
  Framed-constant ast = search framed depth 12

module _ (n : Ptr) where
  Framed-or_internal_bug : (p : Option Ptr) → Framed n (or_internal_bug p)
  unfolding or_internal_bug
  Framed-or_internal_bug none = Framed-throw _
  Framed-or_internal_bug (some p) = Framed-pure p

  Framed-resolve : (name : Text) (c : Option Ptr) → Framed n (resolve name c)
  unfolding resolve
  Framed-resolve name none = Framed-throw _
  Framed-resolve name (some c) =
      Framed-bind (Framed-load_context c) λ ctx. Framed-or_internal_bug (get_symbol ctx name)

  Framed-param_symbol : (ast : Ast) (sym : Ptr) → n ≤ sym → Framed n (param_symbol ast sym)
  unfolding param_symbol
  Framed-param_symbol ast sym h = search framed depth 12

  Framed-get_user : (func : FunctionProto) → Framed n (get_user func)
  unfolding get_user
  Framed-get_user (user p) = Framed-pure p
  Framed-get_user _ = Framed-throw _

  Framed-rhs_of : (o : Object) → Framed n (rhs_of o)
  unfolding rhs_of
  Framed-rhs_of (symbol name rhs) = Framed-pure rhs
  Framed-rhs_of _ = Framed-throw _

  Framed-context_of : (o : Object) → Framed n (context_of o)
  unfolding context_of
  Framed-context_of (context c) = Framed-pure c
  Framed-context_of _ = Framed-throw _

  Framed-callee : (func : FunctionProto) → Framed n (callee_context func)
  unfolding callee_context
  Framed-callee func = search (framed, Framed-get_user, Framed-rhs_of, Framed-context_of) depth 16

module _ (n : Ptr) (rec : Ast → M Ptr) (frames : (ast : Ast) → Framed n (rec ast)) where
  Framed-assigned : (ast : Ast) (sym : Ptr) → n ≤ sym → Framed n (assigned_symbol rec ast sym)
  unfolding assigned_symbol
  Framed-assigned ast sym h = search framed depth 12

  Framed-new_symbol : (ast : Ast) → Framed n (new_symbol rec ast)
  unfolding new_symbol
  Framed-new_symbol ast = search (framed, Framed-param_symbol, Framed-assigned) depth 12

  Framed-symbol : (ast : Ast) → Framed n (symbol_from_ast rec ast)
  unfolding symbol_from_ast
  Framed-symbol ast = search (framed, Framed-resolve, Framed-new_symbol)

  Framed-ret_expr : (ast : Ast) → Framed n (ret_expr_from_ast rec ast)
  unfolding ret_expr_from_ast
  Framed-ret_expr ast = search framed depth 12

  Framed-function : (r : FunctionalRule) (ast : Ast) → Framed n (function_from_expr rec r ast)
  unfolding function_from_expr
  Framed-function bin ast = search framed
  Framed-function unary ast = search framed
  Framed-function f_call ast = search (framed, Framed-symbol)
  Framed-function if_else ast = search framed

  Framed-bind_loop :
      (index : List (Text × ℕ)) (names : List Text) (asts : List Ast) (opnds : List (Option Ptr))
      → Framed n (bind_loop rec index names asts opnds)
  unfolding bind_loop
  Framed-bind_loop index [] asts opnds = Framed-pure opnds
  Framed-bind_loop index (name ∷ names) [] opnds = Framed-throw _
  Framed-bind_loop index (name ∷ names) (ast ∷ asts) opnds =
      Framed-bind (Framed-lift _)
        λ i. Framed-bind (frames ast) λ p. Framed-bind_loop index names asts (set opnds i (some p))

  Framed-named_opnds :
      (ast : Ast) (func : FunctionProto) (asts : List Ast)
      → Framed n (named_opnds rec ast func asts)
  unfolding named_opnds
  Framed-named_opnds ast func asts = search (framed, Framed-callee, Framed-bind_loop) depth 12

  Framed-pass_opnds :
      (named : Bool) (ast : Ast) (func : FunctionProto) (asts : List Ast)
      → Framed n (pass_opnds rec named ast func asts)
  unfolding pass_opnds positional_opnds
  Framed-pass_opnds true ast func asts = Framed-named_opnds ast func asts
  Framed-pass_opnds false ast func asts = search framed

  Framed-make_functional : (r : FunctionalRule) (ast : Ast) → Framed n (make_functional rec r ast)
  unfolding make_functional
  Framed-make_functional r ast = search (framed, Framed-function, Framed-pass_opnds) depth 16

  Framed-functional : (ast : Ast) → Framed n (functional_from_ast rec ast)
  unfolding functional_from_ast
  Framed-functional ast = elim (Option-cases (functional_rule ast)) [
    | inl e ↦ rw (e, functional_from_ast) (Framed-throw _)
    | inr (r, e) ↦ rw (e, functional_from_ast) (Framed-make_functional r ast)
  ]

  Framed-capture :
      (last : Option Ptr) (ctx : Ptr) → n ≤ ctx → (item : Ast) → Framed n (capture last ctx item)
  unfolding capture
  Framed-capture last ctx h item = search framed depth 16

  Framed-capture_all :
      (last : Option Ptr) (ctx : Ptr)
      → n ≤ ctx
      → (list : Option Ast) → Framed n (capture_all last ctx list)
  unfolding capture_all
  Framed-capture_all last ctx h none = Framed-pure tt
  Framed-capture_all last ctx h (some list) =
      Framed-for_each (Framed-capture last ctx h) (children list)

  Framed-open_body :
      (last : Option Ptr) (ctx : Ptr) (ast : Ast) → n ≤ ctx → Framed n (open_body last ctx ast)
  unfolding open_body
  Framed-open_body last ctx ast h = search (framed, Framed-capture_all) depth 12

  Framed-add_param : (ctx : Ptr) → n ≤ ctx → (ast : Ast) → Framed n (add_param rec ctx ast)
  unfolding add_param
  Framed-add_param ctx h ast = search (framed, Framed-symbol) depth 12

  Framed-define_local :
      (ctx : Ptr) (name : Text) (stmt : Ast) → n ≤ ctx → Framed n (define_local rec ctx name stmt)
  unfolding define_local
  Framed-define_local ctx name stmt h = search (framed, Framed-symbol) depth 12

  Framed-unless_bound :
      (p : Option Ptr) {m : M (Unit {0})} → Framed n m → Framed n (unless_bound p m)
  unfolding unless_bound
  Framed-unless_bound none g = g
  Framed-unless_bound (some p) g = Framed-pure tt

  Framed-assign : (ctx : Ptr) (stmt : Ast) → n ≤ ctx → Framed n (assign_stmt_in rec ctx stmt)
  unfolding assign_stmt_in
  Framed-assign ctx stmt h = search (framed, Framed-unless_bound, Framed-define_local) depth 12

  Framed-return : (ctx : Ptr) (stmt : Ast) → n ≤ ctx → Framed n (return_stmt_in rec ctx stmt)
  unfolding return_stmt_in
  Framed-return ctx stmt h = search (framed, Framed-ret_expr) depth 12

  Framed-statement : (ctx : Ptr) → n ≤ ctx → (stmt : Ast) → Framed n (statement rec ctx stmt)
  unfolding statement
  Framed-statement ctx h stmt = search (framed, Framed-assign, Framed-return)

  Framed-fill_context :
      (last : Option Ptr) (ctx : Ptr) (ast : Ast) (params : List Ast)
      → n ≤ ctx
      → Framed n (fill_context rec last ctx ast params)
  unfolding fill_context
  Framed-fill_context last ctx ast params h =
      search (framed, Framed-open_body, Framed-add_param, Framed-statement) depth 16

  Framed-context :
      (ast : Ast) (params : List Ast) (imm : Bool) → Framed n (context_from_ast rec ast params imm)
  unfolding context_from_ast
  Framed-context ast params imm = search (framed, Framed-with_current, Framed-fill_context) depth 12

  Framed-module : (ast : Ast) → Framed n (module_from_ast rec ast)
  unfolding module_from_ast
  Framed-module ast = search (framed, Framed-context) depth 12

  Framed-lambda : (ast : Ast) → Framed n (from_lambda_expr rec ast)
  unfolding from_lambda_expr
  Framed-lambda ast = search (framed, Framed-context) depth 12

  Framed-expr_step : (num : Numerals) (ast : Ast) → Framed n (expr_step num rec ast)
  unfolding expr_step
  Framed-expr_step num ast =
      search
        (
          Framed-if, Framed-throw, Framed-module, Framed-context, Framed-symbol, Framed-functional,
          Framed-lambda, Framed-constant,
        )
        depth 16

Framed-expr :
    (n : Ptr) (num : Numerals) (fuel : ℕ) (ast : Ast) → Framed n (expr_from_ast num fuel ast)
unfolding expr_from_ast
Framed-expr n num zero ast = Framed-starved
Framed-expr n num (suc fuel) ast =
    Framed-expr_step n (expr_from_ast num fuel) (Framed-expr n num fuel) num ast

-- Whatever the tree and the state, `Expr::from_ast` leaves every object that was allocated before as
-- it was, and leaves the current context as it was, both when it returns and when it throws.
pub expr_from_ast-Frame :
    (num : Numerals) (fuel : ℕ) (ast : Ast) (w : World)
    → After (Frame w.next w) (expr_from_ast num fuel ast w)
expr_from_ast-Frame num fuel ast w = (Framed-expr w.next num fuel ast).runs w (omega arith)
