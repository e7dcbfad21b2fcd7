-- ===== src/Typing/Infer.antt =====
-- src/catk/type.cpp: the types of expressions.
pub mod Keeps
pub mod Memo
use casterisk.Prelude.{
  ℕ, zero, suc, Bool, true, false, not, List, [], ◌∷◌, length, get_elem?, Option, none, some, Text,
  ◌==◌, if◌then◌else◌, map,
}
use casterisk.Outcome.{Outcome, ok, raised, rt_assert, unchecked, internal_bug, rule_violation}
use casterisk.Semantics.PrimaryType.{PrimaryType}
use casterisk.Semantics.PrimaryType as P
use casterisk.Semantics.PrimaryUnion.{PrimaryUnion}
use casterisk.Semantics.PrimaryUnion as U
use casterisk.Semantics.Op.{BinOp, UnaryOp, uop_addrof, uop_deref}
use casterisk.Semantics.Graph as Graph
use casterisk.Semantics.Graph.{
  Ptr, Context, FunctionProto, user, bin_op, unary_op, if_else_op, Object, constant, symbol,
  ret_expr, functional_expr, context, module_expr,
}
use casterisk.Semantics.Clone.{deep_clone}
use casterisk.Typing.Types.{
  TypePtr, undecided, stored, Content, primary, pointer_elem, lazy_context, CatkType, is_pointer,
  as_primary, get_pointer_elem_ty, get_lazy_context, serialize_instance,
}
use casterisk.Typing.OpCast.{bop_cast}
use casterisk.Typing.Operators.{is_comparison}
use casterisk.Typing.Typer.{
  T, starves, get_null_type, ◌>>=◌, ◌>>◌, pure, throw, lift, on_exprs, each, typed_as, set_type,
  instance_of, set_instance, load_type, make_type,
}
use casterisk.Typing.Operands.{constant_type, type_of_bin_op, type_of_unary_op, type_of_if_else}

-- `expr_type[params[i]] = opnd_tys[i]` for each parameter.
unfoldable pub set_params : List Ptr → List TypePtr → T (Unit {0})
unfolding ◌>>◌ pure set_type
set_params (p ∷ ps) (t ∷ ts) = set_type p (some t) >> set_params ps ts
set_params _ _ = pure tt

-- The instance of a context for the types of the operands, when there is none: a deep clone. `fuel`
-- bounds the depth of the clone.
unfoldable pub make_instance : ℕ → Text → Ptr → List TypePtr → T Ptr
unfolding ◌>>=◌ ◌>>◌ pure lift on_exprs set_params set_instance
make_instance fuel id ctx tys = do
  imm_ctx ← on_exprs (deep_clone fuel ctx [])
  c ← on_exprs (Graph.load_context imm_ctx)
  lift (rt_assert (length c.params == length tys))
  set_params c.params tys
  on_exprs (Graph.modify_context imm_ctx λ d. record d { is_immediate = true })
  set_instance id imm_ctx
  pure imm_ctx

-- The instance that `def_to_inst` has, or a new one.
abbrev pub or_make : ℕ → Text → Ptr → List TypePtr → Option Ptr → T Ptr
or_make fuel id ctx tys none = make_instance fuel id ctx tys
or_make fuel id ctx tys (some p) = pure p

unfoldable pub get_typed_context : ℕ → Ptr → List TypePtr → T Ptr
unfolding ◌>>=◌ ◌>>◌ pure lift on_exprs each load_type instance_of make_instance
get_typed_context fuel ctx tys = do
  c ← on_exprs (Graph.load_context ctx)
  lift (rt_assert (not c.is_immediate))
  ts ← each load_type tys
  let id = serialize_instance c.id (map CatkType.id ts)
  found ← instance_of id
  or_make fuel id ctx tys found

-- `rec` is `get_type`.
module _ (print_address : TypePtr → Text) (fuel : ℕ) (rec : Ptr → T TypePtr) where
  -- `get_type` of a pointer that may be null
  abbrev pub get_type_at : Option Ptr → T TypePtr
  get_type_at none = get_null_type
  get_type_at (some p) = rec p

  -- `GetTypeFuncVisit` of a user function
  unfoldable pub type_of_call : Option Ptr → List TypePtr → T TypePtr
  unfolding ◌>>=◌ lift get_null_type load_type get_typed_context
  type_of_call uf tys = do
    lazy_ctx_type ← get_type_at uf
    c ← load_type lazy_ctx_type
    lazy_ctx ← lift (get_lazy_context c)
    imm_ctx ← get_typed_context fuel lazy_ctx tys
    rec imm_ctx

  unfoldable pub type_of_function : FunctionProto → List TypePtr → T TypePtr
  unfolding type_of_call type_of_bin_op type_of_unary_op type_of_if_else
  type_of_function (user uf) tys = type_of_call uf tys
  type_of_function (bin_op bop) tys = type_of_bin_op print_address bop tys
  type_of_function (unary_op uop) tys = type_of_unary_op print_address uop tys
  type_of_function if_else_op tys = type_of_if_else tys

  abbrev pub type_of_symbol : Option Ptr → T TypePtr
  type_of_symbol none = pure undecided
  type_of_symbol (some p) = rec p

  -- `GetTypeVisit`
  unfoldable pub visit_type : Ptr → Object → T TypePtr
  unfolding ◌>>=◌ pure throw get_null_type each make_type type_of_function
  visit_type p (constant v) = make_type print_address (primary (constant_type v))
  visit_type p (symbol name rhs) = type_of_symbol rhs
  visit_type p (ret_expr rhs) = get_type_at rhs
  visit_type p (functional_expr func opnds) = do
    tys ← each get_type_at opnds
    type_of_function func tys
  visit_type p (context c) =
      if c.is_immediate then get_type_at c.ret_expr else make_type print_address (lazy_context p)
  visit_type p (module_expr ctx) = throw internal_bug

  -- `virt_visit` of the object at an address
  unfoldable pub visit_at : Ptr → T TypePtr
  unfolding ◌>>=◌ on_exprs visit_type
  visit_at p = do o ← on_exprs (Graph.load p); visit_type p o

-- What `get_type` does with the type that it has found: an undecided one is not kept.
unfoldable pub keep_type : Ptr → TypePtr → T TypePtr
unfolding ◌>>◌ pure set_type
keep_type p undecided = set_type p none >> pure undecided
keep_type p (stored t) = set_type p (some (stored t)) >> pure (stored t)

-- The type that `expr_type` has, or the one that `visit` finds; meanwhile it is undecided.
unfoldable pub get_or_visit : Ptr → T TypePtr → Option TypePtr → T TypePtr
unfolding ◌>>=◌ ◌>>◌ pure set_type keep_type
get_or_visit p visit (some t) = pure t
get_or_visit p visit none = do set_type p (some undecided); t ← visit; keep_type p t

-- `catk::get_type`; a unit of fuel for each call that is under way. `clone_fuel` bounds the depth of
-- the deep clones.
unfoldable pub get_type : (TypePtr → Text) → (clone_fuel fuel : ℕ) → Ptr → T TypePtr
unfolding ◌>>=◌ typed_as get_or_visit visit_at
get_type print_address clone_fuel zero p = λ _. starves
get_type print_address clone_fuel (suc fuel) p = do
  t ← typed_as p
  get_or_visit p (visit_at print_address clone_fuel (get_type print_address clone_fuel fuel) p) t
