-- ===== src/Semantics/FromAst/Termination.antt =====
-- The fuel of `Expr::from_ast`: the depth of the tree is enough.
use casterisk.Prelude.{
  ℕ, zero, suc, ◌≤◌, ◌<◌, List, [], Option, none, some, Text, Bool, true, false, arith, All,
}
use casterisk.Outcome.{internal_bug}
use casterisk.Syntax.Ast.{
  Ast, children, is, is_root, depth, ret_context, assign_stmt, identifier, lambda_literal,
  int_literal, fp_literal,
}
use casterisk.Semantics.PrimaryUnion.{Numerals}
use casterisk.Semantics.Graph.{Ptr, World, M}
use casterisk.Semantics.Graph.Ended.{
  Ends, Ended, Ends-pure, Ends-throw, Ends-lift, Ends-bind, Ends-then, Ends-alloc,
  Ends-get_current_context, Ends-load_context, Ends-modify_context, Ends-if, Ends-Yields,
  Ends-for_each, Ends-with_current, Ends-Giving, Giving, Giving-lift, Giving-throw, Giving-if,
  Giving-after, Giving-then,
}
use casterisk.Semantics.FromAst.Depth.{
  Below, children-depth, child-Below, ret_context_stmts-Below, lambda_body-Below,
  lambda_params-Below,
}
use casterisk.Semantics.FromAst.Functional.{is_functional_expr}
use casterisk.Semantics.FromAst.Context.{
  open_body, add_param, define_local, unless_bound, assign_stmt_in, return_stmt_in, statement,
  fill_context, context_from_ast, module_from_ast,
}
use casterisk.Semantics.FromAst.Expr.{from_lambda_expr, expr_step, expr_from_ast}
use casterisk.Semantics.FromAst.Ends.{
  Ends-constant, Ends-capture_all, Ends-symbol, Ends-ret_expr, Ends-functional,
}

-- `rec` ends on every node that is less than `d` deep.
module _ (d : ℕ) (rec : Ast → M Ptr) (ends : (ast : Ast) → depth ast < d → Ends (rec ast)) where
  Giving-open_body :
      (last : Option Ptr) (ctx : Ptr) (ast : Ast)
      → depth ast ≤ d
      → Giving (Below d) (open_body last ctx ast)
  unfolding open_body
  Giving-open_body last ctx ast h = Giving-if _ _ (Giving-lift _ (child-Below d ast h 0)) (
      Giving-if _ _
        (Giving-after _ (Ends-lift _) λ list.
          Giving-then _ (Ends-capture_all last ctx list)
            (Giving-lift _ (ret_context_stmts-Below d ast h)))
        (Giving-throw _ _))

  Ends-add_param : (ctx : Ptr) (ast : Ast) → Below d ast → Ends (add_param rec ctx ast)
  unfolding add_param
  Ends-add_param ctx ast h = Ends-bind (Ends-lift _) λ default. Ends-then (Ends-lift _) (
      Ends-bind (Ends-lift _)
        λ id. Ends-bind (Ends-symbol d rec ends ast (omega arith)) λ sym. Ends-modify_context ctx _)

  Ends-define_local :
      (ctx : Ptr) (name : Text) (stmt : Ast)
      → depth stmt ≤ d
      → Ends (define_local rec ctx name stmt)
  unfolding define_local
  Ends-define_local ctx name stmt h =
      Ends-then (Ends-modify_context ctx _)
        (Ends-bind (Ends-symbol d rec ends stmt h) λ sym. Ends-modify_context ctx _)

  Ends-unless_bound : (p : Option Ptr) {m : M (Unit {0})} → Ends m → Ends (unless_bound p m)
  unfolding unless_bound
  Ends-unless_bound none g = g
  Ends-unless_bound (some p) g = Ends-pure tt

  Ends-statement : (ctx : Ptr) (stmt : Ast) → Below d stmt → Ends (statement rec ctx stmt)
  unfolding statement assign_stmt_in return_stmt_in
  Ends-statement ctx stmt h =
      Ends-if _
        (Ends-bind (Ends-lift _) λ name.
          Ends-bind (Ends-load_context ctx)
            λ c. Ends-unless_bound _ (Ends-define_local ctx name stmt (omega arith)))
        (Ends-if _
          (Ends-bind (Ends-ret_expr d rec ends stmt (omega arith)) λ r. Ends-modify_context ctx _)
          (Ends-throw _))

  Ends-fill_context :
      (last : Option Ptr) (ctx : Ptr) (ast : Ast) (params : List Ast)
      → depth ast ≤ d
      → All (Below d) params
      → Ends (fill_context rec last ctx ast params)
  unfolding fill_context
  Ends-fill_context last ctx ast params h k =
      Ends-Giving _ (Giving-open_body last ctx ast h) λ stmts b.
        Ends-then (Ends-for_each (Below d) (Ends-add_param ctx) params k) (
          Ends-then
            (Ends-for_each (Below d) (Ends-statement ctx) (children stmts)
              (children-depth d stmts (omega arith)))
            (Ends-bind (Ends-load_context ctx) λ c. Ends-then (Ends-lift _) (Ends-pure ctx)))

  Ends-context :
      (ast : Ast) (params : List Ast) (imm : Bool)
      → depth ast ≤ d
      → All (Below d) params
      → Ends (context_from_ast rec ast params imm)
  unfolding context_from_ast
  Ends-context ast params imm h k = Ends-bind (Ends-alloc _) λ ctx.
      Ends-bind Ends-get_current_context
        λ last. Ends-with_current _ (Ends-fill_context last ctx ast params h k)

  Ends-module : (ast : Ast) → depth ast ≤ d → Ends (module_from_ast rec ast)
  unfolding module_from_ast
  Ends-module ast h =
      Ends-then (Ends-lift _) (Ends-bind (Ends-context ast [] false h tt) λ ctx. Ends-alloc _)

  Ends-lambda : (ast : Ast) → depth ast ≤ d → Ends (from_lambda_expr rec ast)
  unfolding from_lambda_expr
  Ends-lambda ast h = Ends-Yields (lambda_params-Below d ast h) λ params k.
      Ends-Yields (lambda_body-Below d ast h)
        λ body b. Ends-context body params false (omega arith) k

  Ends-expr_step : (num : Numerals) (ast : Ast) → depth ast ≤ d → Ends (expr_step num rec ast)
  unfolding expr_step
  Ends-expr_step num ast h = Ends-if (is_root ast) (Ends-module ast h) (
      Ends-if (is ret_context ast) (Ends-context ast [] true h tt) (
        Ends-if (is assign_stmt ast) (Ends-symbol d rec ends ast h) (
          Ends-if (is_functional_expr ast) (Ends-functional d rec ends ast h) (
            Ends-if (is identifier ast) (Ends-symbol d rec ends ast h) (
              Ends-if (is lambda_literal ast) (Ends-lambda ast h) (
                Ends-if (is int_literal ast) (Ends-constant num ast) (
                  Ends-if (is fp_literal ast) (Ends-constant num ast)
                    (Ends-throw internal_bug))))))))

Ends-expr :
    (num : Numerals) (fuel : ℕ) (ast : Ast) → depth ast < fuel → Ends (expr_from_ast num fuel ast)
unfolding expr_from_ast
Ends-expr num zero ast h = absurd (omega arith)
Ends-expr num (suc fuel) ast h =
    Ends-expr_step fuel (expr_from_ast num fuel) (Ends-expr num fuel) num ast (omega arith)

-- With more fuel than the tree is deep, `Expr::from_ast` returns or throws, from every state: the
-- model stops nowhere where the program would go on.
pub expr_from_ast-Ended :
    (num : Numerals) (fuel : ℕ) (ast : Ast) (w : World)
    → depth ast < fuel
    → Ended (expr_from_ast num fuel ast w)
expr_from_ast-Ended num fuel ast w h = (Ends-expr num fuel ast h).runs w
