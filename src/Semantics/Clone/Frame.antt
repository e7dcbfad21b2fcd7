-- ===== src/Semantics/Clone/Frame.antt =====
-- `deep_clone` copies: it changes no object that was there before.
use casterisk.Prelude.{ℕ, zero, suc, ◌≤◌, List, Option, none, some, Text, arith}
use casterisk.Semantics.Graph.{
  Ptr, Context, FunctionProto, user, Object, constant, symbol, ret_expr, functional_expr, context,
  module_expr, World, M,
}
use casterisk.Semantics.Graph.Framed.{
  Frame, After, Framed, Framed-pure, Framed-starved, Framed-lift, Framed-bind, Framed-load, framed,
}
use casterisk.Semantics.Clone.{
  SymbolTable, clone, rhs_clone, clone_symbol, clone_ret, clone_function, clone_named, clone_opnd,
  clone_functional, clone_into, share_capture, clone_context, clone_module, clone_step, deep_clone,
}

module _ (n : Ptr) where
  Framed-clone : (p : Ptr) → Framed n (clone p)
  unfolding clone
  Framed-clone p = search framed depth 8

  Framed-function : (st : SymbolTable) (func : FunctionProto) → Framed n (clone_function st func)
  unfolding clone_function
  Framed-function st (user uf) = search framed depth 12
  Framed-function st _ = Framed-pure _

  Framed-share_capture : (ctx : Ptr) → n ≤ ctx → (c : Ptr) → Framed n (share_capture ctx c)
  unfolding share_capture
  Framed-share_capture ctx h c = search framed depth 12

module _ (n : Ptr) (rec : Ptr → SymbolTable → M Ptr)
    (frames : (p : Ptr) (st : SymbolTable) → Framed n (rec p st)) where
  Framed-rhs : (st : SymbolTable) (rhs : Option Ptr) → Framed n (rhs_clone rec st rhs)
  unfolding rhs_clone
  Framed-rhs st none = Framed-pure none
  Framed-rhs st (some p) = search framed depth 12

  Framed-symbol :
      (st : SymbolTable) (name : Text) (rhs : Option Ptr) → Framed n (clone_symbol rec st name rhs)
  unfolding clone_symbol
  Framed-symbol st name rhs = search (framed, Framed-rhs) depth 12

  Framed-ret : (st : SymbolTable) (rhs : Option Ptr) → Framed n (clone_ret rec st rhs)
  unfolding clone_ret
  Framed-ret st rhs = search framed depth 12

  Framed-named : (st : SymbolTable) (p : Ptr) (o : Object) → Framed n (clone_named rec st p o)
  unfolding clone_named
  Framed-named st p (symbol name rhs) = Framed-lift _
  Framed-named st p _ = search framed depth 8

  Framed-opnd : (st : SymbolTable) (opnd : Option Ptr) → Framed n (clone_opnd rec st opnd)
  unfolding clone_opnd
  Framed-opnd st opnd = search (framed, Framed-named) depth 12

  Framed-functional :
      (st : SymbolTable) (func : FunctionProto) (opnds : List (Option Ptr))
      → Framed n (clone_functional rec st func opnds)
  unfolding clone_functional
  Framed-functional st func opnds = search (framed, Framed-function, Framed-opnd) depth 14

  Framed-into :
      (ctx : Ptr) (add : Ptr → Context → Context)
      → n ≤ ctx
      → (p : Ptr) → Framed n (clone_into rec ctx add p)
  unfolding clone_into
  Framed-into ctx add h p = search framed depth 12

  Framed-context : (c : Context) → Framed n (clone_context rec c)
  unfolding clone_context
  Framed-context c = search (framed, Framed-into, Framed-share_capture) depth 18

  Framed-module : (st : SymbolTable) (ctx : Option Ptr) → Framed n (clone_module rec st ctx)
  unfolding clone_module
  Framed-module st ctx = search framed depth 12

  Framed-step : (p : Ptr) (st : SymbolTable) (o : Object) → Framed n (clone_step rec p st o)
  unfolding clone_step
  Framed-step p st (constant v) = Framed-clone n p
  Framed-step p st (symbol name rhs) = Framed-symbol st name rhs
  Framed-step p st (ret_expr rhs) = Framed-ret st rhs
  Framed-step p st (functional_expr func opnds) = Framed-functional st func opnds
  Framed-step p st (context c) = Framed-context c
  Framed-step p st (module_expr ctx) = Framed-module st ctx

pub Framed-deep_clone :
    (n : Ptr) (fuel : ℕ) (p : Ptr) (st : SymbolTable) → Framed n (deep_clone fuel p st)
unfolding deep_clone
Framed-deep_clone n zero p st = Framed-starved
Framed-deep_clone n (suc fuel) p st =
    Framed-bind (Framed-load p)
      λ o. Framed-step n (deep_clone fuel) (Framed-deep_clone n fuel) p st o

-- A deep clone changes no object that was allocated before and leaves the current context as it
-- was, both when it returns and when it throws.
pub deep_clone-Frame :
    (fuel : ℕ) (p : Ptr) (st : SymbolTable) (w : World)
    → After (Frame w.next w) (deep_clone fuel p st w)
deep_clone-Frame fuel p st w = (Framed-deep_clone w.next fuel p st).runs w (omega arith)
