-- ===== src/GenLlvm/Restores/Parts.antt =====
-- The parts of the translation that stay in one function of LLVM: types and members.
use casterisk.Prelude.{ℕ, zero, suc, List, Option, none, some, Text}
use casterisk.Semantics.Graph.{Ptr, Context, Object, symbol, ret_expr, load}
use casterisk.Semantics.Graph.Framed.{Framed-load, Framed-load_context, Framed-get_name}
use casterisk.Typing.Types.{TypePtr, Content, struct_type, primary, pointer_elem, lazy_context}
use casterisk.Typing.Safe.{Safe-get_null_type, Safe-load_type}
use casterisk.Typing.Infer.Keeps.{Safe-get_type}
use casterisk.GenLlvm.Builder.{Llvm}
use casterisk.GenLlvm.Session.{DriverBuilder, D, on_exprs}
use casterisk.GenLlvm.Types.{
  Inference, get_type, rhs_of, as_symbol, captured, get_struct_type, or_create, capture_type,
  capture_types, visit_content, translate_type,
}
use casterisk.GenLlvm.Contexts.{
  function_or_fail, rhs_of_ret, returned_rhs, get_ctx_struct_mem, bind_capture, bind_param,
  param_type,
}
use casterisk.GenLlvm.Values.{operand_type}
use casterisk.GenLlvm.Steady.{Steady}
use casterisk.GenLlvm.Steady.Rules.{
  steady, Steady-pure, Steady-throw, Steady-starves, Steady-lift, Steady-bind, Steady-each,
  Steady-on_types, Steady-on_exprs, Steady-ask,
}

module _ {L : Llvm} {K : DriverBuilder L} {n : Ptr} {a : Option Ptr} where
  pub Steady-get_type : (I : Inference) (p : Option Ptr) → Steady {L = L} {K = K} n a (get_type I p)
  unfolding get_type
  Steady-get_type I none = Steady-on_types Safe-get_null_type
  Steady-get_type I (some p) =
      Steady-on_types (Safe-get_type n I.print_address I.clone_fuel I.type_fuel p)

  pub Steady-load_object : (p : Ptr) → Steady {L = L} {K = K} n a (on_exprs (load p))
  Steady-load_object p = Steady-on_exprs (Framed-load p)

  pub Steady-rhs_of : (o : Object) → Steady {L = L} {K = K} n a (rhs_of o)
  unfolding rhs_of
  Steady-rhs_of (symbol name rhs) = Steady-pure rhs
  Steady-rhs_of _ = Steady-throw _

  pub Steady-as_symbol : (p : Option Ptr) → Steady {L = L} {K = K} n a (as_symbol p)
  unfolding as_symbol
  Steady-as_symbol none = Steady-pure none
  Steady-as_symbol (some p) = search (steady, Steady-load_object)

  pub Steady-captured : (p : Ptr) → Steady {L = L} {K = K} n a (captured p)
  unfolding captured
  Steady-captured p = search (steady, Steady-load_object, Steady-rhs_of, Steady-as_symbol)

  pub Steady-get_struct_type : (name : Text) → Steady {L = L} {K = K} n a (get_struct_type name)
  unfolding get_struct_type
  Steady-get_struct_type name = Steady-ask _

  pub Steady-or_create :
      (id : Text) {members : D L K (List L.LlvmType)} (ty : Option L.LlvmType)
      → Steady n a members
      → Steady n a (or_create id members ty)
  Steady-or_create id (some ty) g = Steady-pure ty
  Steady-or_create id none g = search steady

  module _ (I : Inference) (rec : TypePtr → D L K L.LlvmType)
      (g : (t : TypePtr) → Steady n a (rec t)) where
    pub Steady-capture_type : (p : Ptr) → Steady n a (capture_type I rec p)
    unfolding capture_type
    Steady-capture_type p = search (steady, Steady-captured, Steady-get_type, g)

    pub Steady-capture_types : (p : Ptr) → Steady n a (capture_types I rec p)
    unfolding capture_types
    Steady-capture_types p =
        Steady-bind (Steady-on_exprs (Framed-load_context p))
          λ c. Steady-each Steady-capture_type c.captures

    pub Steady-visit_content : (id : Text) (c : Content) → Steady n a (visit_content I rec id c)
    unfolding visit_content
    Steady-visit_content id (struct_type name members) =
        Steady-bind (Steady-get_struct_type name)
          λ ty. Steady-or_create name ty (Steady-each g members)
    Steady-visit_content id (primary pt) = Steady-lift _
    Steady-visit_content id (lazy_context p) =
        Steady-bind (Steady-get_struct_type id)
          λ ty. Steady-or_create id ty (Steady-capture_types p)
    Steady-visit_content id (pointer_elem t) = search (steady, g)

  pub Steady-translate_type :
      (I : Inference) (fuel : ℕ) (t : TypePtr)
      → Steady {L = L} {K = K} n a (translate_type I fuel t)
  unfolding translate_type
  Steady-translate_type I zero t = Steady-starves
  Steady-translate_type I (suc fuel) t = Steady-bind (Steady-on_types (Safe-load_type t)) λ c.
      Steady-visit_content I (translate_type I fuel) (Steady-translate_type I fuel) c.id c.content

  pub Steady-rhs_of_ret : (o : Object) → Steady {L = L} {K = K} n a (rhs_of_ret o)
  unfolding rhs_of_ret
  Steady-rhs_of_ret (ret_expr rhs) = Steady-pure rhs
  Steady-rhs_of_ret _ = Steady-throw _

  pub Steady-returned_rhs : (c : Context) → Steady {L = L} {K = K} n a (returned_rhs c)
  unfolding returned_rhs
  Steady-returned_rhs c = search (steady, Steady-load_object, Steady-rhs_of_ret)

  pub Steady-get_ctx_struct_mem :
      (ty : L.LlvmType) (p : L.Value) (i : ℕ)
      → Steady {L = L} {K = K} n a (get_ctx_struct_mem ty p i)
  unfolding get_ctx_struct_mem
  Steady-get_ctx_struct_mem ty p i = search steady

  pub Steady-function_or_fail :
      (f : Option K.Func) → Steady {L = L} {K = K} n a (function_or_fail f)
  Steady-function_or_fail none = Steady-throw _
  Steady-function_or_fail (some f) = Steady-pure f

  pub Steady-operand_type :
      (I : Inference) (p : Option Ptr) → Steady {L = L} {K = K} n a (operand_type I p)
  unfolding operand_type
  Steady-operand_type I p =
      Steady-bind (Steady-get_type I p) λ t. Steady-on_types (Safe-load_type t)

module _ {L : Llvm} {K : DriverBuilder L} {n : Ptr} {a : Option Ptr} where
  pub Steady-bind_capture :
      (f : K.Func) (i : ℕ) (p : Ptr) → Steady {L = L} {K = K} n a (bind_capture f i p)
  unfolding bind_capture
  Steady-bind_capture f i p = search steady

  pub Steady-bind_param :
      (f : K.Func) (i : ℕ) (p : Ptr) → Steady {L = L} {K = K} n a (bind_param f i p)
  unfolding bind_param
  Steady-bind_param f i p =
      Steady-bind (Steady-on_exprs (Framed-get_name p)) λ name. search steady depth 12

module _ {L : Llvm} {K : DriverBuilder L} {n : Ptr} {a : Option Ptr} where
  pub Steady-param_type :
      (I : Inference) (fuel : ℕ) (p : Ptr) → Steady {L = L} {K = K} n a (param_type I fuel p)
  unfolding param_type
  Steady-param_type I fuel p =
      Steady-bind (Steady-get_type I (some p)) λ t. Steady-translate_type I fuel t
