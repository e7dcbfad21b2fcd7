-- ===== src/Typing/Infer/Keeps.antt =====
-- Type inference keeps the table of types in order and changes no expression.
use casterisk.Prelude.{ℕ, zero, suc, List, [], ◌∷◌, Option, none, some, Text, arith, map}
use casterisk.Semantics.Op.{BinOp, UnaryOp, uop_addrof, uop_deref}
use casterisk.Semantics.Graph.{
  Ptr, FunctionProto, user, bin_op, unary_op, if_else_op, Object, constant, symbol, ret_expr,
  functional_expr, context, module_expr,
}
use casterisk.Semantics.Graph.Framed.{Framed-load, Framed-load_context, Framed-modify_context}
use casterisk.Semantics.Clone.Frame.{Framed-deep_clone}
use casterisk.Semantics.Clone.Fresh.{Fresh-deep_clone}
use casterisk.Typing.Types.{
  primary, lazy_context, TypePtr, undecided, stored, CatkType, serialize_instance,
}
use casterisk.Typing.Types.Intern.{IsInterned}
use casterisk.Typing.Typer.{Typer, T}
use casterisk.Typing.Operands.{
  constant_type, unless_undecided, switch_unary_op, type_of_bin_op, type_of_unary_op,
  type_of_if_else,
}
use casterisk.Typing.Infer.{
  set_params, make_instance, or_make, get_typed_context, get_type_at, type_of_call,
  type_of_function, type_of_symbol, visit_type, visit_at, keep_type, get_or_visit, get_type,
}
use casterisk.Typing.Safe.{
  Kept, AfterT, Safe, Safe-pure, Safe-throw, Safe-starves, Safe-lift, Safe-if, Safe-on_exprs,
  Safe-bind, Safe-then, Safe-each, Safe-Fresh, Safe-typed_as, Safe-set_type, Safe-get_null_type,
  Safe-instance_of, Safe-set_instance, Safe-load_type, Safe-make_type, safe,
}

module _ (n : Ptr) (print_address : TypePtr → Text) where
  Safe-unless : (t : TypePtr) {m : T TypePtr} → Safe n m → Safe n (unless_undecided t m)
  Safe-unless undecided g = Safe-pure undecided
  Safe-unless (stored p) g = g

  Safe-bin_op : (bop : BinOp) (tys : List TypePtr) → Safe n (type_of_bin_op print_address bop tys)
  unfolding type_of_bin_op
  Safe-bin_op bop tys = search (safe, Safe-unless) depth 24

  Safe-switch : (uop : UnaryOp) (t : TypePtr) → Safe n (switch_unary_op print_address uop t)
  Safe-switch uop_addrof t = Safe-make_type print_address _
  Safe-switch uop_deref t = search safe depth 12
  Safe-switch _ t = Safe-pure t

  Safe-unary_op :
      (uop : UnaryOp) (tys : List TypePtr) → Safe n (type_of_unary_op print_address uop tys)
  unfolding type_of_unary_op
  Safe-unary_op uop tys = search (safe, Safe-unless, Safe-switch) depth 16

  Safe-if_else : (tys : List TypePtr) → Safe n (type_of_if_else tys)
  unfolding type_of_if_else
  Safe-if_else tys = search safe depth 12

  Safe-set_params : (ps : List Ptr) (ts : List TypePtr) → Safe n (set_params ps ts)
  unfolding set_params
  Safe-set_params [] ts = Safe-pure tt
  Safe-set_params (p ∷ ps) [] = Safe-pure tt
  Safe-set_params (p ∷ ps) (t ∷ ts) = Safe-then (Safe-set_type p (some t)) (Safe-set_params ps ts)

  Safe-make_instance :
      (fuel : ℕ) (id : Text) (ctx : Ptr) (tys : List TypePtr)
      → Safe n (make_instance fuel id ctx tys)
  unfolding make_instance
  Safe-make_instance fuel id ctx tys =
      Safe-Fresh (Framed-deep_clone n fuel ctx []) (Fresh-deep_clone fuel ctx []) λ p h.
        Safe-bind (Safe-on_exprs (Framed-load_context p)) λ c. Safe-then (Safe-lift _) (
          Safe-then (Safe-set_params c.params tys) (
            Safe-then (Safe-on_exprs (Framed-modify_context p _ h))
              (Safe-then (Safe-set_instance id p) (Safe-pure p))))

  Safe-or_make :
      (fuel : ℕ) (id : Text) (ctx : Ptr) (tys : List TypePtr) (p : Option Ptr)
      → Safe n (or_make fuel id ctx tys p)
  Safe-or_make fuel id ctx tys none = Safe-make_instance fuel id ctx tys
  Safe-or_make fuel id ctx tys (some p) = Safe-pure p

  pub Safe-get_typed_context :
      (fuel : ℕ) (ctx : Ptr) (tys : List TypePtr) → Safe n (get_typed_context fuel ctx tys)
  unfolding get_typed_context
  Safe-get_typed_context fuel ctx tys = Safe-bind (Safe-on_exprs (Framed-load_context ctx)) λ c.
      Safe-then (Safe-lift _) (
        Safe-bind (Safe-each Safe-load_type tys) λ ts.
          Safe-bind (Safe-instance_of _)
            λ found. Safe-or_make fuel (serialize_instance c.id (map CatkType.id ts)) ctx tys found)

  Safe-keep_type : (p : Ptr) (t : TypePtr) → Safe n (keep_type p t)
  unfolding keep_type
  Safe-keep_type p undecided = search safe
  Safe-keep_type p (stored t) = search safe

  Safe-get_or_visit :
      (p : Ptr) {visit : T TypePtr} (t : Option TypePtr)
      → Safe n visit
      → Safe n (get_or_visit p visit t)
  unfolding get_or_visit
  Safe-get_or_visit p (some t) g = Safe-pure t
  Safe-get_or_visit p none g = Safe-then (Safe-set_type p _) (Safe-bind g (Safe-keep_type p))

  module _ (fuel : ℕ) (rec : Ptr → T TypePtr) (keeps : (p : Ptr) → Safe n (rec p)) where
    Safe-get_type_at : (p : Option Ptr) → Safe n (get_type_at print_address fuel rec p)
    Safe-get_type_at none = Safe-get_null_type
    Safe-get_type_at (some p) = keeps p

    Safe-call :
        (uf : Option Ptr) (tys : List TypePtr) → Safe n (type_of_call print_address fuel rec uf tys)
    unfolding type_of_call
    Safe-call uf tys = Safe-bind (Safe-get_type_at uf) λ t.
        Safe-bind (Safe-load_type t) λ c.
          Safe-bind (Safe-lift _) λ lazy. Safe-bind (Safe-get_typed_context fuel lazy tys) keeps

    Safe-function :
        (func : FunctionProto) (tys : List TypePtr)
        → Safe n (type_of_function print_address fuel rec func tys)
    unfolding type_of_function
    Safe-function (user uf) tys = Safe-call uf tys
    Safe-function (bin_op bop) tys = Safe-bin_op bop tys
    Safe-function (unary_op uop) tys = Safe-unary_op uop tys
    Safe-function if_else_op tys = Safe-if_else tys

    Safe-symbol : (rhs : Option Ptr) → Safe n (type_of_symbol print_address fuel rec rhs)
    Safe-symbol none = Safe-pure undecided
    Safe-symbol (some p) = keeps p

    Safe-visit : (p : Ptr) (o : Object) → Safe n (visit_type print_address fuel rec p o)
    unfolding visit_type
    Safe-visit p (constant v) = Safe-make_type print_address (primary (constant_type v))
    Safe-visit p (symbol name rhs) = Safe-symbol rhs
    Safe-visit p (ret_expr rhs) = Safe-get_type_at rhs
    Safe-visit p (functional_expr func opnds) =
        Safe-bind (Safe-each Safe-get_type_at opnds) (Safe-function func)
    Safe-visit p (context c) =
        Safe-if c.is_immediate (Safe-get_type_at c.ret_expr)
          (Safe-make_type print_address (lazy_context p))
    Safe-visit p (module_expr ctx) = Safe-throw _

    Safe-visit_at : (p : Ptr) → Safe n (visit_at print_address fuel rec p)
    unfolding visit_at
    Safe-visit_at p = Safe-bind (Safe-on_exprs (Framed-load p)) (Safe-visit p)

  pub Safe-get_type :
      (clone_fuel fuel : ℕ) (p : Ptr) → Safe n (get_type print_address clone_fuel fuel p)
  unfolding get_type
  Safe-get_type clone_fuel zero p = Safe-starves
  Safe-get_type clone_fuel (suc fuel) p = Safe-bind (Safe-typed_as p) λ t. Safe-get_or_visit p t (
      Safe-visit_at clone_fuel (get_type print_address clone_fuel fuel)
        (Safe-get_type clone_fuel fuel) p)

-- `get_type` of an expression, with the instances of contexts that it makes on the way, keeps the
-- table of types in order, changes no expression that was there before, and leaves the current context
-- as it was, both when it returns and when it throws.
pub get_type-Kept :
    (print_address : TypePtr → Text) (clone_fuel fuel : ℕ) (p : Ptr) (s : Typer)
    → IsInterned s.table
    → AfterT (Kept s.exprs.next s) (get_type print_address clone_fuel fuel p s)
get_type-Kept print_address clone_fuel fuel p s w =
    (Safe-get_type s.exprs.next print_address clone_fuel fuel p).runs s w (omega arith)
