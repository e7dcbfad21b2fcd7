-- ===== src/GenLlvm/Values.antt =====
-- src/catk/behavior/gen_llvm/value.cpp: the values of expressions, and module.cpp: whole modules.
use casterisk.Prelude.{
  ℕ, zero, suc, Bool, true, false, ◌==◌, List, [], ◌∷◌, length, Option, none, some, Text, codes,
}
use casterisk.Outcome.{internal_bug, rt_assert}
use casterisk.Semantics.Graph as Graph
use casterisk.Semantics.Graph.{
  Ptr, FunctionProto, user, bin_op, unary_op, if_else_op, Object, constant, symbol, functional_expr,
  context, ret_expr, module_expr, name_of,
}
use casterisk.Typing.Types.{CatkType, get_lazy_context}
use casterisk.Typing.Typer.{Typer, load_type}
use casterisk.GenLlvm.Builder.{Llvm}
use casterisk.Semantics.Op.{BinOp}
use casterisk.GenLlvm.BinOps.{resolve_flag, bin_op_handle}
use casterisk.GenLlvm.Legalize.{translate_bin_op}
use casterisk.GenLlvm.UnaryOps.{UnaryBuilder, translate_unary_op, translate_constant}
use casterisk.GenLlvm.Session.{
  DriverBuilder, Session, Made, D, starves, ◌>>=◌, ◌>>◌, pure, throw, lift, on_types, on_exprs,
  build, gen, ask, emit, each, deref, set_storage,
}
use casterisk.GenLlvm.CTypes.{c_void, c_none, get_function_type}
use casterisk.GenLlvm.Types.{Inference, get_type, translate_type}
use casterisk.GenLlvm.Contexts.{
  translate_at, translate_context_def, translate_context_call, create_function,
}

abbrev is_some : {A : Type 0} → Option A → Bool
is_some none = false
is_some (some a) = true

module _ {L : Llvm} {K : DriverBuilder L} where
  -- The type of an operand.
  unfoldable pub operand_type : Inference → Option Ptr → D L K CatkType
  unfolding ◌>>=◌ get_type on_types load_type
  operand_type I p = do t ← get_type I p; on_types (load_type t)

module _ {L : Llvm} {K : DriverBuilder L} (B : UnaryBuilder L) (I : Inference) (fuel : ℕ)
    (rec : Ptr → D L K (Option L.Value)) where
  -- The place of a symbol: a new one, in which its right-hand side is stored.
  unfoldable pub make_storage : Ptr → Text → Option Ptr → D L K L.Value
  unfolding ◌>>=◌ ◌>>◌ pure translate_at deref build emit set_storage
  make_storage p name rhs = do
    r ← translate_at B I fuel rec rhs
    v ← deref r
    storage ← build (K.create_alloca (L.type_of v) name)
    set_storage p (some storage)
    emit (K.create_store v storage)
    pure storage

  abbrev pub or_make_storage : Ptr → Text → Option Ptr → Option L.Value → D L K L.Value
  or_make_storage p name rhs (some v) = pure v
  or_make_storage p name rhs none = make_storage p name rhs

  -- `ValueTransVis` on a symbol
  unfoldable pub translate_symbol : Ptr → Text → Option Ptr → D L K (Option L.Value)
  unfolding ◌>>=◌ pure ask make_storage build
  translate_symbol p name rhs = do
    found ← ask λ s. s.symbol_storage p
    storage ← or_make_storage p name rhs found
    r ← build (B.create_load (K.get_pointer_element_type (L.type_of storage)) storage)
    pure (some r)

  unfoldable pub translate_opnds : List (Option Ptr) → D L K (List (Option L.Value))
  unfolding each translate_at
  translate_opnds s_opnds = each (translate_at B I fuel rec) s_opnds

  -- One branch: its value, stored at `place`.
  unfoldable pub store_branch : K.Block → K.Block → L.Value → Option Ptr → D L K (Unit {0})
  unfolding ◌>>=◌ ◌>>◌ translate_at deref emit
  store_branch block end_block place opnd = do
    emit (K.set_insert_point block)
    r ← translate_at B I fuel rec opnd
    v ← deref r
    emit (K.create_store v place)
    emit (K.create_br end_block)

  -- `operator()(IfElseOp)`
  unfoldable pub translate_if_else : L.LlvmType → List (Option Ptr) → D L K (Option L.Value)
  unfolding ◌>>=◌ ◌>>◌ pure throw build translate_at ask deref emit store_branch
  translate_if_else res_type (c ∷ (a ∷ (b ∷ []))) = do
    place ← build (K.create_alloca res_type [])
    cur_pt ← build K.get_insert_point
    cond ← translate_at B I fuel rec c
    func ← ask λ s. s.curr_func
    then_block ← build (K.create_block (codes "then") func)
    else_block ← build (K.create_block (codes "else") func)
    end_block ← build (K.create_block (codes "end") func)
    v ← deref cond
    emit (K.create_cond_br v then_block else_block)
    store_branch then_block end_block place a
    store_branch else_block end_block place b
    emit (K.set_insert_point end_block)
    r ← build (B.create_load (L.type_of place) place)
    pure (some r)
  translate_if_else res_type _ = throw internal_bug

  -- `operator()(Symbol*)`
  unfoldable pub translate_call : Option Ptr → List (Option Ptr) → D L K (Option L.Value)
  unfolding ◌>>=◌ translate_opnds operand_type lift translate_at deref on_exprs Graph.get_name
      translate_context_call
  translate_call uf s_opnds = do
    opnds ← translate_opnds s_opnds
    t ← operand_type I uf
    callee_ctx ← lift (get_lazy_context t)
    ctx_struct ← translate_at B I fuel rec uf
    p ← deref uf
    name ← on_exprs (Graph.get_name p)
    translate_context_call B I fuel rec name callee_ctx ctx_struct s_opnds opnds

  -- The type of an operand, once `resolve_flag` has been called on it.
  unfoldable pub flagged_type : Option Ptr → D L K CatkType
  unfolding ◌>>=◌ pure lift operand_type resolve_flag
  flagged_type p = do t ← operand_type I p; flag ← lift (resolve_flag t); pure t

  -- The operands of a binary operator, which are read through when a use of `BOP_HANDLE` takes it.
  unfoldable pub bin_operands :
      BinOp → List CatkType → List (Option L.Value) → D L K (List (CatkType × L.Value))
  unfolding ◌>>=◌ ◌>>◌ pure throw lift deref bin_op_handle
  bin_operands bop (t0 ∷ (t1 ∷ [])) (v0 ∷ (v1 ∷ [])) = do
    h ← lift (bin_op_handle bop t0 t1)
    lift (rt_assert (is_some h))
    w0 ← deref v0
    w1 ← deref v1
    pure ((t0, w0) ∷ ((t1, w1) ∷ []))
  bin_operands bop _ _ = throw internal_bug

  -- `visit_func`
  unfoldable pub translate_function :
      CatkType → L.LlvmType → FunctionProto → List (Option Ptr) → D L K (Option L.Value)
  unfolding ◌>>=◌ ◌>>◌ pure lift each gen translate_opnds flagged_type bin_operands translate_bin_op
      translate_unary_op translate_if_else translate_call
  translate_function s_res_type res_type (user uf) s_opnds = translate_call uf s_opnds
  translate_function s_res_type res_type (bin_op bop) s_opnds = do
    opnds ← translate_opnds s_opnds
    lift (rt_assert (length opnds == 2))
    tys ← each flagged_type s_opnds
    typed_opnds ← bin_operands bop tys opnds
    r ← gen (translate_bin_op L s_res_type res_type bop typed_opnds)
    pure (some r)
  translate_function s_res_type res_type (unary_op uop) s_opnds = do
    opnds ← translate_opnds s_opnds
    gen (translate_unary_op L B uop opnds)
  translate_function s_res_type res_type if_else_op s_opnds = translate_if_else res_type s_opnds

  -- `ValueTransVis`; a return statement and a module are not in its list of classes.
  unfoldable pub translate_object : Ptr → Object → D L K (Option L.Value)
  unfolding ◌>>=◌ pure throw lift translate_constant translate_symbol get_type on_types load_type
      translate_type translate_function translate_context_def
  translate_object p (constant v) = do r ← lift (translate_constant L B v); pure (some r)
  translate_object p (symbol name rhs) = translate_symbol p name rhs
  translate_object p (functional_expr func opnds) = do
    t ← get_type I (some p)
    res_type ← translate_type I fuel t
    s_res_type ← on_types (load_type t)
    translate_function s_res_type res_type func opnds
  translate_object p (context c) = translate_context_def B I fuel rec p
  translate_object p (ret_expr rhs) = throw internal_bug
  translate_object p (module_expr ctx) = throw internal_bug

module _ {L : Llvm} {K : DriverBuilder L} (B : UnaryBuilder L) (I : Inference) where
  -- `translate_value`; a unit of fuel for each call that is under way.
  unfoldable pub translate_value : ℕ → Ptr → D L K (Option L.Value)
  unfolding ◌>>=◌ on_exprs Graph.load translate_object
  translate_value zero p = λ _. starves
  translate_value (suc fuel) p = do
    o ← on_exprs (Graph.load p)
    translate_object B I fuel (translate_value fuel) p o

  -- `get_context` of a module.
  unfoldable pub context_of_module : Object → D L K Ptr
  unfolding deref throw
  context_of_module (module_expr ctx) = deref ctx
  context_of_module _ = throw internal_bug

  -- `handle_module`
  unfoldable pub handle_module : ℕ → Ptr → D L K (Unit {0})
  unfolding ◌>>=◌ ◌>>◌ emit lift get_function_type create_function ask on_exprs Graph.load
      context_of_module translate_context_def translate_context_call translate_value
  handle_module fuel smod = do
    emit K.new_module
    ft ← lift (get_function_type L K c_void c_none)
    func ← create_function ft (codes "catk_mod_construct")
    block ← ask λ s. K.get_entry_block func s.builder
    emit (K.set_insert_point block)
    o ← on_exprs (Graph.load smod)
    sctx ← context_of_module o
    ctx_struct ← translate_context_def B I fuel (translate_value fuel) sctx
    translate_context_call B I fuel (translate_value fuel) (codes "init") sctx ctx_struct [] []
    emit (K.create_ret none)

  -- A new driver.
  abbrev pub new_driver : Typer → L.State → Session L K
  new_driver t st = record {
    typer = t;
    builder = st;
    curr_func = none;
    slazy_ctx_struct = λ p. none;
    typed_ctx_func = λ p. none;
    symbol_storage = λ p. none;
  }

  -- `gen_llvm_mod`: a new driver translates the module.
  unfoldable pub gen_llvm_mod : ℕ → Ptr → Typer → L.State → Made L K (Unit {0})
  unfolding handle_module
  gen_llvm_mod fuel smod t st = handle_module fuel smod (new_driver t st)
