-- ===== src/Tests/Inferred.antt =====
-- Types of the expressions of small programs.
use casterisk.Prelude.{
  ◌↔◌, ◌≡◌, refl, arith, ◌==◌, if◌then◌else◌, [], ◌∷◌, Option, none, some, Text, codes,
}
use casterisk.Semantics.Graph.{run, ret_expr, World, Ptr, context, symbol}
use casterisk.Typing.Types.{primary, TypePtr, undecided, stored}
use casterisk.Typing.Typer.{Typer, Typed, gives, refuses, starves, make_type}
use casterisk.Typing.Infer.{get_type}
use casterisk.Typing.Infer.Keeps.{get_type-Kept}
use casterisk.Typing.Infer.Memo.{get_type-again}
use casterisk.Typing.Safe.{Kept, AfterT}
use casterisk.Typing.Agreement.{type_of_bin_op-primary}
use casterisk.Typing.Branches.{IsJoin, type_of_if_else-IsJoin}
use casterisk.Outcome.{rule_violation}
use casterisk.Typing.OpCast.{bop_cast}
use casterisk.Typing.Described.{bin_op_type}
use casterisk.Typing.Operands.{type_of_bin_op, type_of_if_else}
use casterisk.Semantics.Op.{bop_add}
use casterisk.Semantics.PrimaryType.{int8, int32}
use casterisk.Semantics.FromAst.Expr.{expr_from_ast}
use casterisk.Semantics.Clone.{deep_clone}
use casterisk.Semantics.Clone.Ret.{deep_clone_ret-table}
use casterisk.Syntax.Ast.{Ast}
use casterisk.GenLlvm.Accepted.{typed}
use casterisk.Tests.Trees.{
  zeros, root, assign, lambda, parameter, body, captures, stmts, ret, ident, call, int,
}
use casterisk.Tests.Graphs.{built, after, start}
use casterisk.Tests.Typed.{no_types, no_types-IsInterned}

abbrev pub fresh_typer : World → Typer
fresh_typer w = record {
  exprs = w;
  table = no_types;
  expr_type = λ p. none;
  def_to_inst = [];
  null_type = none;
}

-- The return expression of a context.
abbrev result_of : World → Ptr → Option Ptr
result_of w p = elim (w.cell p) [ some (context c) ↦ c.ret_expr | _ ↦ none ]

abbrev pub address : TypePtr → Text
address undecided = codes "0"
address (stored p) = codes "1"

abbrev pub id_of : Typed TypePtr → Option Text
id_of (gives (stored p) s) = elim (s.table.types p) [ some t ↦ some t.id | none ↦ none ]
id_of (gives undecided s) = some (codes "undecided")
id_of (refuses e s) = some (codes "refused")
id_of starves = none

-- The type that is inferred for what a module returns; its context stands at 0.
abbrev inferred : World → Option Text
inferred w = elim (result_of w 0) [
  | some r ↦ id_of (get_type address 10 30 r (fresh_typer w))
  | none ↦ none
]

-- `x = f(c)` has the type of `a + c` for `i64` operands.
inferred-sample : inferred built ≡ some (codes "8_pmt")
unfolding get_type run expr_from_ast deep_clone bop_cast
inferred-sample = refl

-- f = fn (a) { ret a; }; x = f(3i64); ret x;
abbrev identity : Ast
identity = root (
    assign "f"
      (lambda (parameter "a" ∷ []) (body (captures [] ∷ (stmts (ret (ident "a") ∷ []) ∷ []))))
    ∷ (assign "x" (call "f" (int "3" "i64" ∷ [])) ∷ (ret (ident "x") ∷ [])))

-- A clone of `ret a` has a clone of the parameter `a`, not the parameter of the instance, so it gets
-- no type.
inferred-identity :
    inferred (after (run (expr_from_ast zeros 10 identity) start)) ≡ some (codes "undecided")
unfolding get_type run expr_from_ast deep_clone bop_cast
inferred-identity = refl

-- The table when the type of what the sample returns has been asked for.
abbrev asked : Typed TypePtr
asked = get_type address 10 30 10 (fresh_typer built)

abbrev end_of : Typed TypePtr → Typer
end_of (gives t s) = s
end_of _ = fresh_typer built

get_type-Kept_example :
    AfterT (Kept built.next (fresh_typer built)) (get_type address 10 30 10 (fresh_typer built))
get_type-Kept_example = get_type-Kept address 10 30 10 (fresh_typer built) no_types-IsInterned

get_type-again_example : get_type address 10 1 10 (end_of asked) ≡ gives (stored 0) (end_of asked)
unfolding get_type run expr_from_ast deep_clone bop_cast
get_type-again_example = get_type-again address 10 30 0 10 (fresh_typer built) (end_of asked) 0 refl

-- A table that has `int8` at 0 and `int32` at 1.
abbrev two_types : Typer
two_types = record {
  exprs = start;
  table = record {
    types = λ p.
        if p == 0 then some (typed (codes "2_pmt") int8) else some (typed (codes "6_pmt") int32);
    next = 2;
    internal = (codes "2_pmt", 0) ∷ ((codes "6_pmt", 1) ∷ []);
  };
  expr_type = λ p. none;
  def_to_inst = [];
  null_type = none;
}

type_of_bin_op-primary_example :
    type_of_bin_op address bop_add (stored 0 ∷ (stored 1 ∷ [])) two_types
    ≡ make_type address (primary (bin_op_type bop_add int8 int32)) two_types
type_of_bin_op-primary_example =
    type_of_bin_op-primary address bop_add 0 1 (typed (codes "2_pmt") int8)
      (typed (codes "6_pmt") int32) int8 int32 two_types refl refl refl refl

type_of_if_else-IsJoin_example :
    ((t : TypePtr)
      → (type_of_if_else (stored 0 ∷ (undecided ∷ (stored 1 ∷ []))) two_types ≡ gives t two_types)
        ↔ IsJoin undecided (stored 1) t)
    × ((type_of_if_else (stored 0 ∷ (undecided ∷ (stored 1 ∷ []))) two_types
          ≡ refuses rule_violation two_types)
        ↔ ((t : TypePtr) → ¬ IsJoin undecided (stored 1) t))
type_of_if_else-IsJoin_example = type_of_if_else-IsJoin (stored 0) undecided (stored 1) two_types

-- A store with the parameter `a` at 0 and `ret a` at 1.
abbrev ret_a : World
ret_a = record {
  cell = λ p.
      if p == 0
      then some (symbol (codes "a") none)
      else if p == 1
      then some (ret_expr (some 0))
      else none;
  next = 2;
  current = none;
}

deep_clone_ret-table_example :
    deep_clone 2 1 [] ret_a ≡ deep_clone 2 1 ((codes "a", some 7) ∷ []) ret_a
deep_clone_ret-table_example =
    deep_clone_ret-table 0 1 0 (codes "a") ret_a [] ((codes "a", some 7) ∷ []) refl refl
      (omega arith)
