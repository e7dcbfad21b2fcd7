-- ===== src/GenLlvm/Contexts.antt =====
-- src/catk/behavior/gen_llvm/context.cpp and driver.cpp: the values of contexts, and their calls.
use casterisk.Prelude.{ℕ, suc, List, [], ◌∷◌, Option, none, some, Text, codes, if◌then◌else◌}
use casterisk.Outcome.{bad_typeid, undefined, assert_failed, unchecked}
use casterisk.Semantics.Graph as Graph
use casterisk.Semantics.Graph.{Ptr, Context, Object, ret_expr}
use casterisk.Typing.Infer as Infer
use casterisk.GenLlvm.Builder.{Llvm}
use casterisk.GenLlvm.UnaryOps.{UnaryBuilder}
use casterisk.GenLlvm.Session.{
  DriverBuilder, D, ◌>>=◌, ◌>>◌, pure, throw, lift, on_types, on_exprs, build, ask, emit, each,
  for_each, for_index, deref, set_curr_func, set_ctx_struct, set_ctx_func, set_storage,
}
use casterisk.GenLlvm.Types.{Inference, get_type, captured, translate_type}

module _ {L : Llvm} {K : DriverBuilder L} where
  abbrev pub function_or_fail : Option K.Func → D L K K.Func
  function_or_fail none = throw assert_failed
  function_or_fail (some f) = pure f

  -- `create_function`
  unfoldable pub create_function : K.FuncType → Text → D L K K.Func
  unfolding ◌>>=◌ ◌>>◌ pure throw build set_curr_func
  create_function ft name = do
    f ← build (K.get_or_insert_function name ft)
    func ← function_or_fail f
    build (K.create_block (codes "catk_begin") (some func))
    set_curr_func (some func)
    pure func

  unfoldable pub rhs_of_ret : Object → D L K (Option Ptr)
  unfolding pure throw
  rhs_of_ret (ret_expr rhs) = pure rhs
  rhs_of_ret _ = throw undefined

  -- `rhs` of the return statement.
  unfoldable pub returned_rhs : Context → D L K (Option Ptr)
  unfolding ◌>>=◌ pure throw deref on_exprs Graph.load
  returned_rhs c = do r ← deref c.ret_expr; o ← on_exprs (Graph.load r); rhs_of_ret o

  -- A member of the structure at `p`.
  unfoldable pub get_ctx_struct_mem : L.LlvmType → L.Value → ℕ → D L K L.Value
  unfolding ◌>>=◌ lift build
  get_ctx_struct_mem ty p i = do
    rt ← lift (unchecked (K.get_struct_element_type ty i))
    gep ← build (K.create_struct_gep ty p i)
    build (K.create_bit_or_pointer_cast gep (K.get_pointer_to rt))

  -- The value that `slazy_ctx_struct_` has, or the one that is made.
  abbrev pub or_define : D L K L.Value → Option L.Value → D L K L.Value
  or_define define (some v) = pure v
  or_define define none = define

  -- The function that `typed_ctx_func_` has, or the one that is made.
  abbrev pub or_generate : D L K K.Func → Option K.Func → D L K K.Func
  or_generate generate (some f) = pure f
  or_generate generate none = generate

  -- A captured symbol: its place is a member of the structure that the function is given.
  unfoldable pub bind_capture : K.Func → ℕ → Ptr → D L K (Unit {0})
  unfolding ◌>>=◌ ◌>>◌ lift build set_storage
  bind_capture func i scap = do
    lift (unchecked (K.get_struct_element_type (L.type_of (K.get_arg func 0)) i))
    gep ← build (K.create_extract_value (K.get_arg func 0) i)
    set_storage scap (some gep)

  -- A parameter: its place is a new one that the argument is stored in.
  unfoldable pub bind_param : K.Func → ℕ → Ptr → D L K (Unit {0})
  unfolding ◌>>=◌ ◌>>◌ on_exprs Graph.get_name build emit set_storage
  bind_param func i sparam = do
    name ← on_exprs (Graph.get_name sparam)
    storage ← build (K.create_alloca (L.type_of (K.get_arg func (suc i))) name)
    emit (K.create_store (K.get_arg func (suc i)) storage)
    set_storage sparam (some storage)

  unfoldable pub erase : Ptr → D L K (Unit {0})
  unfolding set_storage
  erase p = set_storage p none

  unfoldable pub param_type : Inference → ℕ → Ptr → D L K L.LlvmType
  unfolding ◌>>=◌ get_type translate_type
  param_type I fuel p = do t ← get_type I (some p); translate_type I fuel t

  -- `rec` is `translate_value`, which may give a null pointer; `fuel` bounds `translate_type`.
  module _ (B : UnaryBuilder L) (I : Inference) (fuel : ℕ)
      (rec : Ptr → D L K (Option L.Value)) where
    -- `translate_value` of a pointer that may be null: `virt_visit` throws then.
    unfoldable pub translate_at : Option Ptr → D L K (Option L.Value)
    unfolding throw
    translate_at none = throw bad_typeid
    translate_at (some p) = rec p

    unfoldable pub store_capture : L.LlvmType → L.Value → ℕ → Ptr → D L K (Unit {0})
    unfolding ◌>>=◌ captured translate_at get_ctx_struct_mem deref emit
    store_capture ty p i scap = do
      tar ← captured scap
      cap ← translate_at tar
      ptr ← get_ctx_struct_mem ty p i
      v ← deref cap
      emit (K.create_store v ptr)

    unfoldable pub define_context : Ptr → Context → D L K L.Value
    unfolding ◌>>=◌ ◌>>◌ build get_type translate_type for_index store_capture set_ctx_struct
    define_context sctx c = do
      t ← get_type I (some sctx)
      ty ← translate_type I fuel t
      p ← build (K.create_alloca ty [])
      for_index (store_capture ty p) 0 c.captures
      set_ctx_struct sctx p
      build (B.create_load ty p)

    -- `translate_context_def`; an immediate context has a null pointer for its value.
    unfoldable pub translate_context_def : Ptr → D L K (Option L.Value)
    unfolding ◌>>=◌ pure on_exprs Graph.load_context ask define_context
    translate_context_def sctx = do
      c ← on_exprs (Graph.load_context sctx)
      if c.is_immediate then pure none else (do
        res ← ask λ s. s.slazy_ctx_struct sctx
        v ← or_define (define_context sctx c) res
        pure (some v))

    -- The body of the function for the instance `sctx` of `callee`.
    unfoldable pub fill_function : K.Func → (callee sctx : Ptr) → D L K (Unit {0})
    unfolding ◌>>=◌ ◌>>◌ on_exprs Graph.load_context ask emit for_each for_index bind_capture
        bind_param returned_rhs translate_at erase
    fill_function func callee sctx = do
      block ← ask λ s. K.get_entry_block func s.builder
      emit (K.set_insert_point block)
      c ← on_exprs (Graph.load_context callee)
      for_index (bind_capture func) 0 c.captures
      d ← on_exprs (Graph.load_context sctx)
      for_index (bind_param func) 0 d.params
      d ← on_exprs (Graph.load_context sctx)
      rhs ← returned_rhs d
      res ← translate_at rhs
      emit (K.create_ret res)
      d ← on_exprs (Graph.load_context sctx)
      for_each erase d.captures
      for_each erase d.params
      for_each erase d.locals

    -- The function for an instance, which is entered into `typed_ctx_func_` before its body is made.
    unfoldable pub generate_function :
        Text → (callee : Ptr) → Option L.Value → (sctx : Ptr) → Option K.Func → D L K K.Func
    unfolding ◌>>=◌ ◌>>◌ pure get_type translate_type deref on_exprs Graph.load_context each
        param_type create_function set_ctx_func ask set_curr_func fill_function emit
    generate_function name callee ctx_struct sctx trans_curr_func = do
      sret_ty ← get_type I (some sctx)
      rty ← translate_type I fuel sret_ty
      v ← deref ctx_struct
      d ← on_exprs (Graph.load_context sctx)
      param_tys ← each (param_type I fuel) d.params
      func ← create_function (K.get_function_type rty (L.type_of v ∷ param_tys)) name
      set_ctx_func sctx func
      call_site ← ask λ s. K.get_insert_block s.builder
      set_curr_func (some func)
      fill_function func callee sctx
      emit (K.set_insert_point call_site)
      set_curr_func trans_curr_func
      pure func

    unfoldable pub call_context :
        Text
        → (callee : Ptr) → Option L.Value
        → List (Option Ptr)
        → List (Option L.Value)
        → (trans_curr_func : Option K.Func) → D L K (Option L.Value)
    unfolding ◌>>=◌ ◌>>◌ pure on_types on_exprs Graph.load_context returned_rhs translate_at each
        get_type ask Infer.get_typed_context generate_function deref build
    call_context name callee ctx_struct s_opnds opnds trans_curr_func = do
      c ← on_exprs (Graph.load_context callee)
      if c.is_immediate then (do rhs ← returned_rhs c; translate_at rhs) else (do
        opnd_tys ← each (get_type I) s_opnds
        sctx ← on_types (Infer.get_typed_context I.clone_fuel callee opnd_tys)
        found ← ask λ s. s.typed_ctx_func sctx
        func ← or_generate (generate_function name callee ctx_struct sctx trans_curr_func) found
        v ← deref ctx_struct
        args ← each deref opnds
        r ← build (K.create_call func (v ∷ args))
        pure (some r))

    -- `translate_context_call`
    unfoldable pub translate_context_call :
        Text
        → (callee : Ptr) → Option L.Value
        → List (Option Ptr)
        → List (Option L.Value)
        → D L K (Option L.Value)
    unfolding ◌>>=◌ ask call_context
    translate_context_call name callee ctx_struct s_opnds opnds = do
      trans_curr_func ← ask λ s. s.curr_func
      call_context name callee ctx_struct s_opnds opnds trans_curr_func
