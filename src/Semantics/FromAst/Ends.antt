-- ===== src/Semantics/FromAst/Ends.antt =====
-- The parts of `Expr::from_ast` that make symbols, constants and calls end.
use casterisk.Prelude.{
  ℕ, ◌≤◌, ◌<◌, List, [], ◌∷◌, Option, none, some, Text, Bool, true, false, arith, set, All,
  All-of_each, Option-cases, inl, inr,
}
use casterisk.Syntax.Ast.{Ast, children, content, depth}
use casterisk.Semantics.PrimaryUnion.{Numerals}
use casterisk.Semantics.Graph.{Ptr, Object, symbol, context, FunctionProto, user, M}
use casterisk.Semantics.Graph.Ended.{
  Ends, Ends-pure, Ends-throw, Ends-lift, Ends-bind, Ends-then, Ends-alloc, Ends-store,
  Ends-get_current_context, Ends-load_context, Ends-get_name, Ends-if, Ends-Yields, Ends-each,
  Ends-for_each, ended,
}
use casterisk.Semantics.FromAst.Depth.{
  Below, right_expr-Below, ret_stmt_expr-Below, rule_function-Below, rule_opnds-Below,
}
use casterisk.Semantics.FromAst.Symbol.{
  get_symbol, or_internal_bug, resolve, param_symbol, assigned_symbol, new_symbol, symbol_from_ast,
}
use casterisk.Semantics.FromAst.Leaves.{constant_from_ast, ret_expr_from_ast}
use casterisk.Semantics.FromAst.Functional.{
  FunctionalRule, bin, unary, f_call, if_else, functional_rule, function_from_expr, callee_context,
  get_user, rhs_of, context_of, bind_loop, pass_opnds, make_functional, functional_from_ast,
}
use casterisk.Semantics.FromAst.Context.{capture, capture_all}

pub Ends-constant : (num : Numerals) (ast : Ast) → Ends (constant_from_ast num ast)
unfolding constant_from_ast
Ends-constant num ast = search ended depth 12

Ends-or_internal_bug : (p : Option Ptr) → Ends (or_internal_bug p)
unfolding or_internal_bug
Ends-or_internal_bug none = Ends-throw _
Ends-or_internal_bug (some p) = Ends-pure p

Ends-resolve : (name : Text) (c : Option Ptr) → Ends (resolve name c)
unfolding resolve
Ends-resolve name none = Ends-throw _
Ends-resolve name (some c) =
    Ends-bind (Ends-load_context c) λ ctx. Ends-or_internal_bug (get_symbol ctx name)

Ends-get_user : (func : FunctionProto) → Ends (get_user func)
unfolding get_user
Ends-get_user (user p) = Ends-pure p
Ends-get_user _ = Ends-throw _

Ends-rhs_of : (o : Object) → Ends (rhs_of o)
unfolding rhs_of
Ends-rhs_of (symbol name rhs) = Ends-pure rhs
Ends-rhs_of _ = Ends-throw _

Ends-context_of : (o : Object) → Ends (context_of o)
unfolding context_of
Ends-context_of (context c) = Ends-pure c
Ends-context_of _ = Ends-throw _

Ends-callee : (func : FunctionProto) → Ends (callee_context func)
unfolding callee_context
Ends-callee func = search (ended, Ends-get_user, Ends-rhs_of, Ends-context_of) depth 16

Ends-param_symbol : (ast : Ast) (sym : Ptr) → Ends (param_symbol ast sym)
unfolding param_symbol
Ends-param_symbol ast sym = search ended depth 12

Ends-capture : (last : Option Ptr) (ctx : Ptr) (item : Ast) → Ends (capture last ctx item)
unfolding capture
Ends-capture last ctx item = search ended depth 16

pub Ends-capture_all :
    (last : Option Ptr) (ctx : Ptr) (list : Option Ast) → Ends (capture_all last ctx list)
unfolding capture_all
Ends-capture_all last ctx none = Ends-pure tt
Ends-capture_all last ctx (some list) =
    Ends-for_each (λ _. Unit {0}) (λ c _. Ends-capture last ctx c) (children list)
      (All-of_each _ (λ _. tt) (children list))

-- `rec` ends on every node that is less than `d` deep.
module _ (d : ℕ) (rec : Ast → M Ptr) (ends : (ast : Ast) → depth ast < d → Ends (rec ast)) where
  Ends-assigned : (ast : Ast) (sym : Ptr) → depth ast ≤ d → Ends (assigned_symbol rec ast sym)
  unfolding assigned_symbol
  Ends-assigned ast sym h = Ends-bind (Ends-lift _) λ name.
      Ends-then (Ends-store sym _)
        (Ends-Yields (right_expr-Below d ast h) λ c b. Ends-bind (ends c b) λ rhs. Ends-store sym _)

  pub Ends-symbol : (ast : Ast) → depth ast ≤ d → Ends (symbol_from_ast rec ast)
  unfolding symbol_from_ast new_symbol
  Ends-symbol ast h =
      Ends-if _ (Ends-bind Ends-get_current_context λ c. Ends-resolve (content ast) c) (
        Ends-bind (Ends-alloc _) λ sym.
          Ends-then (Ends-if _ (Ends-param_symbol ast sym) (Ends-assigned ast sym h))
            (Ends-pure sym))

  pub Ends-ret_expr : (ast : Ast) → depth ast ≤ d → Ends (ret_expr_from_ast rec ast)
  unfolding ret_expr_from_ast
  Ends-ret_expr ast h = Ends-then (Ends-lift _) (
      Ends-bind (Ends-alloc _) λ ret.
        Ends-Yields (ret_stmt_expr-Below d ast h)
          λ c b. Ends-bind (ends c b) λ rhs. Ends-then (Ends-store ret _) (Ends-pure ret))

  Ends-function :
      (r : FunctionalRule) (ast : Ast) → depth ast ≤ d → Ends (function_from_expr rec r ast)
  unfolding function_from_expr
  Ends-function bin ast h = search ended
  Ends-function unary ast h = search ended
  Ends-function f_call ast h = Ends-bind (Ends-symbol ast h) λ sym. Ends-pure _
  Ends-function if_else ast h = search ended

  Ends-bind_loop :
      (index : List (Text × ℕ)) (names : List Text) (asts : List Ast) (opnds : List (Option Ptr))
      → All (Below d) asts
      → Ends (bind_loop rec index names asts opnds)
  unfolding bind_loop
  Ends-bind_loop index [] asts opnds h = Ends-pure opnds
  Ends-bind_loop index (name ∷ names) [] opnds h = Ends-throw _
  Ends-bind_loop index (name ∷ names) (ast ∷ asts) opnds h =
      Ends-bind (Ends-lift _) λ i.
        Ends-bind (ends ast h.0) λ p. Ends-bind_loop index names asts (set opnds i (some p)) h.1

  Ends-pass_opnds :
      (named : Bool) (ast : Ast) (func : FunctionProto) (asts : List Ast)
      → All (Below d) asts
      → Ends (pass_opnds rec named ast func asts)
  unfolding pass_opnds
  Ends-pass_opnds true ast func asts h = Ends-bind (Ends-lift _) λ labels.
      Ends-bind (Ends-callee func) λ ctx. Ends-then (Ends-lift _) (
        Ends-bind
          (Ends-each (λ _. Unit {0}) (λ p _. Ends-get_name p) ctx.params
            (All-of_each _ (λ _. tt) ctx.params))
          λ names. Ends-bind_loop _ labels asts _ h)
  Ends-pass_opnds false ast func asts h =
      Ends-bind (Ends-each (Below d) ends asts h) λ ps. Ends-pure _

  Ends-make_functional :
      (r : FunctionalRule) (ast : Ast) → depth ast ≤ d → Ends (make_functional rec r ast)
  unfolding make_functional
  Ends-make_functional r ast h = Ends-bind (Ends-alloc _) λ fexpr.
      Ends-Yields (rule_opnds-Below d ast h r) λ asts bs.
        Ends-Yields (rule_function-Below d ast h r) λ f b.
          Ends-bind (Ends-function r f (omega arith)) λ func. Ends-bind (Ends-lift _) λ named.
            Ends-bind (Ends-pass_opnds named ast func asts bs)
              λ opnds. Ends-then (Ends-store fexpr _) (Ends-pure fexpr)

  pub Ends-functional : (ast : Ast) → depth ast ≤ d → Ends (functional_from_ast rec ast)
  unfolding functional_from_ast
  Ends-functional ast h = elim (Option-cases (functional_rule ast)) [
    | inl e ↦ rw (e, functional_from_ast) (Ends-throw _)
    | inr (r, e) ↦ rw (e, functional_from_ast) (Ends-make_functional r ast h)
  ]
