-- ===== src/GenLlvm/Restores.antt =====
-- `translate_value` comes back to the function that it was called in.
pub mod Parts
pub mod Calls
use casterisk.Prelude.{
  ℕ, zero, suc, ◌≡◌, ◌∙◌, refl, List, [], ◌∷◌, codes, Option, none, some, Text, Bool, true, false,
  if◌then◌else◌, ◌==◌, Bool-cases, inl, inr, ==_iff, arith,
}
use casterisk.Outcome.{Outcome}
use casterisk.Semantics.Op.{BinOp}
use casterisk.Semantics.Graph.{
  Ptr, Context, FunctionProto, user, bin_op, unary_op, if_else_op, Object, constant, symbol,
  functional_expr, context, ret_expr, module_expr, load,
}
use casterisk.Semantics.Graph.Framed.{Framed, Framed-load, Framed-load_context, Framed-get_name}
use casterisk.Typing.Types.{
  TypePtr, CatkType, Content, struct_type, primary, pointer_elem, lazy_context,
}
use casterisk.Typing.Types.Intern.{IsInterned}
use casterisk.Typing.Safe.{Kept, Kept-refl, Safe, Safe-load_type}
use casterisk.Typing.Infer.Keeps.{Safe-get_type, Safe-get_typed_context}
use casterisk.Typing.Typer.{Typer}
use casterisk.GenLlvm.Builder.{Llvm}
use casterisk.GenLlvm.UnaryOps.{UnaryBuilder}
use casterisk.GenLlvm.Session.{
  DriverBuilder, Session, D, on_exprs, build, deref, each, for_each, change, set_curr_func,
  set_ctx_func, ask, pure, ◌>>=◌, ◌>>◌, emit,
}
use casterisk.GenLlvm.CTypes.{get_function_type, c_void, c_none}
use casterisk.GenLlvm.Types.{
  Inference, get_type, rhs_of, as_symbol, captured, get_struct_type, or_create, capture_type,
  capture_types, visit_content, translate_type,
}
use casterisk.GenLlvm.Contexts.{
  function_or_fail, create_function, rhs_of_ret, returned_rhs, get_ctx_struct_mem, or_define,
  or_generate, translate_at, store_capture, define_context, translate_context_def, bind_capture,
  bind_param, erase, fill_function, param_type, generate_function, call_context,
  translate_context_call,
}
use casterisk.GenLlvm.Values.{
  make_storage, or_make_storage, translate_symbol, translate_opnds, operand_type, store_branch,
  flagged_type, bin_operands, translate_if_else, translate_call, translate_function,
  translate_object, translate_value, context_of_module, handle_module, gen_llvm_mod, new_driver,
}
use casterisk.GenLlvm.Steady.{
  Grows, Absent, At, EndsIn, ends_made, From, Steady, From-pure, From-bind, From-then, From-known,
  From-ask, From-weaken,
}
use casterisk.GenLlvm.Steady.Rules.{
  steady, Steady-pure, Steady-throw, Steady-starves, Steady-lift, Steady-deref, Steady-if,
  Steady-bind, Steady-then, Steady-each, Steady-for_each, Steady-for_index, Steady-on_types,
  Steady-on_exprs, Steady-build, Steady-gen, Steady-ask, Steady-emit, Steady-set_storage,
  Steady-set_ctx_struct,
}
use casterisk.GenLlvm.Restores.Parts.{
  Steady-get_type, Steady-load_object, Steady-rhs_of, Steady-as_symbol, Steady-captured,
  Steady-get_struct_type, Steady-or_create, Steady-capture_type, Steady-capture_types,
  Steady-visit_content, Steady-translate_type, Steady-rhs_of_ret, Steady-returned_rhs,
  Steady-get_ctx_struct_mem, Steady-function_or_fail, Steady-operand_type, Steady-bind_capture,
  Steady-bind_param, Steady-param_type,
}
use casterisk.GenLlvm.Restores.Calls.{
  Has, From-Has, From-create_function, From-set_curr_func, From-set_ctx_func, From-Has,
  From-create_function, Steady-translate_at, Steady-store_capture, Steady-or_define,
  Steady-define_context, Steady-translate_context_def, Steady-erase, Steady-fill_function,
  From-generate_function, From-if, Steady-last, From-call_context, Steady-translate_context_call,
}

module _ {L : Llvm} {K : DriverBuilder L} {n : Ptr} (B : UnaryBuilder L) (I : Inference) (fuel : ℕ)
    (rec : Ptr → D L K (Option L.Value)) (g : (p : Ptr) → Steady n none (rec p)) where
  Steady-make_storage :
      (p : Ptr) (name : Text) (rhs : Option Ptr)
      → Steady n none (make_storage B I fuel rec p name rhs)
  unfolding make_storage
  Steady-make_storage p name rhs = search (steady, Steady-translate_at B I fuel rec g) depth 20

  Steady-or_make_storage :
      (p : Ptr) (name : Text) (rhs : Option Ptr) (v : Option L.Value)
      → Steady n none (or_make_storage B I fuel rec p name rhs v)
  Steady-or_make_storage p name rhs none = Steady-make_storage p name rhs
  Steady-or_make_storage p name rhs (some v) = Steady-pure v

  Steady-translate_symbol :
      (p : Ptr) (name : Text) (rhs : Option Ptr)
      → Steady n none (translate_symbol B I fuel rec p name rhs)
  unfolding translate_symbol
  Steady-translate_symbol p name rhs = search (steady, Steady-or_make_storage) depth 12

  Steady-translate_opnds :
      (ps : List (Option Ptr)) → Steady n none (translate_opnds B I fuel rec ps)
  unfolding translate_opnds
  Steady-translate_opnds ps = Steady-each (Steady-translate_at B I fuel rec g) ps

  Steady-store_branch :
      (b e : K.Block) (place : L.Value) (p : Option Ptr)
      → Steady n none (store_branch B I fuel rec b e place p)
  unfolding store_branch
  Steady-store_branch b e place p = search (steady, Steady-translate_at B I fuel rec g) depth 20

  Steady-translate_if_else :
      (ty : L.LlvmType) (ps : List (Option Ptr))
      → Steady n none (translate_if_else B I fuel rec ty ps)
  unfolding translate_if_else
  Steady-translate_if_else ty (c ∷ (x ∷ (y ∷ []))) =
      search (steady, Steady-translate_at B I fuel rec g, Steady-store_branch) depth 40
  Steady-translate_if_else ty [] = Steady-throw _
  Steady-translate_if_else ty (c ∷ []) = Steady-throw _
  Steady-translate_if_else ty (c ∷ (x ∷ [])) = Steady-throw _
  Steady-translate_if_else ty (c ∷ (x ∷ (y ∷ (z ∷ zs)))) = Steady-throw _

  Steady-translate_call :
      (uf : Option Ptr) (ps : List (Option Ptr)) → Steady n none (translate_call B I fuel rec uf ps)
  unfolding translate_call
  Steady-translate_call uf ps = Steady-bind (Steady-translate_opnds ps) λ opnds.
      Steady-bind (Steady-operand_type I uf) λ t. Steady-bind (Steady-lift _) λ callee.
        Steady-bind (Steady-translate_at B I fuel rec g uf) λ v. Steady-bind (Steady-deref uf) λ p.
          Steady-bind (Steady-on_exprs (Framed-get_name p))
            λ name. Steady-translate_context_call B I fuel rec g name callee v ps opnds

  Steady-flagged_type : (p : Option Ptr) → Steady n none (flagged_type B I fuel rec p)
  unfolding flagged_type
  Steady-flagged_type p = search (steady, Steady-operand_type) depth 12

  Steady-bin_operands :
      (bop : BinOp) (tys : List CatkType) (vs : List (Option L.Value))
      → Steady n none (bin_operands B I fuel rec bop tys vs)
  unfolding bin_operands
  Steady-bin_operands bop (t0 ∷ (t1 ∷ [])) (v0 ∷ (v1 ∷ [])) = search steady depth 24
  Steady-bin_operands bop _ _ = Steady-throw _

  Steady-translate_function :
      (t : CatkType) (ty : L.LlvmType) (func : FunctionProto) (ps : List (Option Ptr))
      → Steady n none (translate_function B I fuel rec t ty func ps)
  unfolding translate_function
  Steady-translate_function t ty (user uf) ps = Steady-translate_call uf ps
  Steady-translate_function t ty (bin_op bop) ps =
      search (steady, Steady-translate_opnds, Steady-flagged_type, Steady-bin_operands) depth 24
  Steady-translate_function t ty (unary_op uop) ps =
      search (steady, Steady-translate_opnds) depth 16
  Steady-translate_function t ty if_else_op ps = Steady-translate_if_else ty ps

  Steady-translate_object :
      (p : Ptr) (o : Object) → Steady n none (translate_object B I fuel rec p o)
  unfolding translate_object
  Steady-translate_object p (constant v) = Steady-bind (Steady-lift _) λ r. Steady-pure (some r)
  Steady-translate_object p (symbol name rhs) = Steady-translate_symbol p name rhs
  Steady-translate_object p (functional_expr func opnds) =
      Steady-bind (Steady-get_type I (some p)) λ t.
        Steady-bind (Steady-translate_type I fuel t) λ ty.
          Steady-bind (Steady-on_types (Safe-load_type t))
            λ c. Steady-translate_function c ty func opnds
  Steady-translate_object p (context c) = Steady-translate_context_def B I fuel rec g p
  Steady-translate_object p (ret_expr rhs) = Steady-throw _
  Steady-translate_object p (module_expr ctx) = Steady-throw _

Steady-translate_value :
    {L : Llvm} {K : DriverBuilder L} {n : Ptr} (B : UnaryBuilder L) (I : Inference) (fuel : ℕ)
    (p : Ptr)
    → Steady {L = L} {K = K} n none (translate_value B I fuel p)
unfolding translate_value
Steady-translate_value B I zero p = Steady-starves
Steady-translate_value B I (suc fuel) p = Steady-bind (Steady-load_object p) λ o.
    Steady-translate_object B I fuel (translate_value B I fuel) (Steady-translate_value B I fuel) p
      o

-- When the table of types is in order: the translation of any expression comes back to the function that
-- the driver was in when it returns, though it goes into the functions that it makes on the way. On a
-- return and on an exception, a context that had a function still has this one, a context that had a
-- structure still has one, no expression that was there has changed, and the table of types is in order.
pub translate_value-Grows :
    (L : Llvm) (K : DriverBuilder L) (B : UnaryBuilder L) (I : Inference) (fuel : ℕ) (p : Ptr)
    (s : Session L K)
    → IsInterned s.typer.table
    → EndsIn s.typer.exprs.next s (λ u. u.curr_func ≡ s.curr_func) (translate_value B I fuel p s)
translate_value-Grows L K B I fuel p s w =
    (From-weaken {P = At s.curr_func none} (λ u q. q) (λ u q. q.function)
        ((Steady-translate_value B I fuel p).at s.curr_func)).runs
      s w (omega arith) (record { function = refl; absent = tt })

Steady-context_of_module :
    {L : Llvm} {K : DriverBuilder L} {n : Ptr} (B : UnaryBuilder L) (I : Inference) (o : Object)
    → Steady {L = L} {K = K} n none (context_of_module B I o)
unfolding context_of_module
Steady-context_of_module B I (module_expr ctx) = Steady-deref ctx
Steady-context_of_module B I _ = Steady-throw _

From-handle_module :
    {L : Llvm} {K : DriverBuilder L} {n : Ptr} (B : UnaryBuilder L) (I : Inference) (fuel : ℕ)
    (p : Ptr)
    → From {L = L} {K = K} n (Has none) (Has none) (handle_module B I fuel p)
unfolding handle_module
From-handle_module {L} {K} B I fuel p = From-then (From-Has {a = none} (Steady-emit K.new_module)) (
    From-bind (From-Has {a = none} (Steady-lift (get_function_type L K c_void c_none))) λ ft.
      From-bind (From-create_function none ft (codes "catk_mod_construct")) λ func.
        From-bind (From-Has {a = none} (Steady-ask (λ s. K.get_entry_block func s.builder)))
          λ block. From-then (From-Has {a = none} (Steady-emit (K.set_insert_point block))) (
            From-bind (From-Has {a = none} (Steady-load_object p)) λ o.
              From-bind (From-Has {a = none} (Steady-context_of_module B I o)) λ sctx.
                From-bind
                  (From-Has {a = none} (
                    Steady-translate_context_def B I fuel (translate_value B I fuel)
                      (Steady-translate_value B I fuel) sctx))
                  λ v.
                    From-then
                      (From-Has {a = none} (
                        Steady-translate_context_call B I fuel (translate_value B I fuel)
                          (Steady-translate_value B I fuel) (codes "init") sctx v [] []))
                      (From-Has {a = none} (Steady-emit (K.create_ret none)))))

-- When the table of types is in order, the generation of a module, for any fuel, changes no expression of
-- the program and leaves the table in order, whether it returns or raises an error; it may add expressions.
pub gen_llvm_mod-Grows :
    (L : Llvm) (K : DriverBuilder L) (B : UnaryBuilder L) (I : Inference) (fuel : ℕ) (p : Ptr)
    (t : Typer) (st : L.State)
    → IsInterned t.table
    → EndsIn t.exprs.next
        (new_driver B I t st)
        (λ u. Unit {0})
        (gen_llvm_mod {K = K} B I fuel p t st)
unfolding gen_llvm_mod
gen_llvm_mod-Grows L K B I fuel p t st w =
    (From-handle_module B I fuel p).runs (new_driver B I t st) w (omega arith) tt
