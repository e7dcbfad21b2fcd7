-- ===== src/Typing/Operands.antt =====
-- src/catk/type.cpp: the types of constants, and of the built-in functions of their operands.
use casterisk.Prelude.{ℕ, Bool, true, false, List, get_elem?, Text, ◌==◌, if◌then◌else◌}
use casterisk.Outcome.{Outcome, ok, raised, unchecked, rule_violation}
use casterisk.Semantics.PrimaryType.{PrimaryType}
use casterisk.Semantics.PrimaryType as P
use casterisk.Semantics.PrimaryUnion.{PrimaryUnion}
use casterisk.Semantics.PrimaryUnion as U
use casterisk.Semantics.Op.{BinOp, UnaryOp, uop_addrof, uop_deref}
use casterisk.Typing.Types.{
  TypePtr, undecided, stored, primary, pointer_elem, is_pointer, as_primary, get_pointer_elem_ty,
}
use casterisk.Typing.OpCast.{bop_cast}
use casterisk.Typing.Operators.{is_comparison}
use casterisk.Typing.Typer.{T, ◌>>=◌, pure, throw, lift, load_type, make_type}

-- `Constant::get_type`
abbrev pub constant_type : PrimaryUnion → PrimaryType
constant_type (U.uint8 v) = P.uint8
constant_type (U.uint16 v) = P.uint16
constant_type (U.uint32 v) = P.uint32
constant_type (U.uint64 v) = P.uint64
constant_type (U.int8 v) = P.int8
constant_type (U.int16 v) = P.int16
constant_type (U.int32 v) = P.int32
constant_type (U.int64 v) = P.int64
constant_type (U.float v) = P.float32
constant_type (U.double v) = P.float64
constant_type (U.string v) = P.string

-- `opnd_tys_[i]`
abbrev pub operand : List TypePtr → ℕ → T TypePtr
operand tys i = lift (unchecked (get_elem? tys i))

-- `==` on pointers to types.
abbrev pub same_type : TypePtr → TypePtr → Bool
same_type undecided undecided = true
same_type (stored p) (stored q) = p == q
same_type _ _ = false

-- `if (t == Type::get_undecided()) return Type::get_undecided();`, and what follows.
abbrev pub unless_undecided : TypePtr → T TypePtr → T TypePtr
unless_undecided undecided m = pure undecided
unless_undecided (stored p) m = m

-- `print_address` writes the address of a type.
module _ (print_address : TypePtr → Text) where
  -- `GetTypeFuncVisit` of a binary operator
  unfoldable pub type_of_bin_op : BinOp → List TypePtr → T TypePtr
  unfolding ◌>>=◌ pure lift load_type make_type
  type_of_bin_op bop tys = do
    t0 ← operand tys 0
    unless_undecided t0 (do
      t1 ← operand tys 1
      unless_undecided t1 (
          if is_comparison bop then make_type print_address (primary P.bool) else (do
            c0 ← load_type t0
            p0 ← lift (as_primary c0)
            c1 ← load_type t1
            p1 ← lift (as_primary c1)
            make_type print_address (primary (bop_cast p0 p1).op0))))

  -- The switch on a unary operator, of an operand whose type is decided.
  abbrev pub switch_unary_op : UnaryOp → TypePtr → T TypePtr
  switch_unary_op uop_addrof t = make_type print_address (pointer_elem t)
  switch_unary_op uop_deref t = do
    c ← load_type t
    if is_pointer c then lift (get_pointer_elem_ty c) else throw rule_violation
  switch_unary_op _ t = pure t

  -- `GetTypeFuncVisit` of a unary operator
  unfoldable pub type_of_unary_op : UnaryOp → List TypePtr → T TypePtr
  unfolding ◌>>=◌ pure lift throw load_type make_type
  type_of_unary_op uop tys = do t ← operand tys 0; unless_undecided t (switch_unary_op uop t)

abbrev differing_branches : TypePtr → TypePtr → Outcome TypePtr
differing_branches undecided t2 = ok t2
differing_branches (stored p) undecided = ok (stored p)
differing_branches (stored p) (stored q) = raised rule_violation

-- `GetTypeFuncVisit` of an if-else, of the types of its branches.
abbrev pub join_branches : TypePtr → TypePtr → Outcome TypePtr
join_branches t1 t2 = if same_type t1 t2 then ok t1 else differing_branches t1 t2

unfoldable pub type_of_if_else : List TypePtr → T TypePtr
unfolding ◌>>=◌ lift
type_of_if_else tys = do t1 ← operand tys 1; t2 ← operand tys 2; lift (join_branches t1 t2)
