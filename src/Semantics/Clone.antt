-- ===== src/Semantics/Clone.antt =====
-- src/catk/semantics: the virtual members `dependencies`, `clone` and `deep_clone` of the classes
-- derived from `Expr`. `deep_clone` takes `rec`, the virtual call on the parts of an object.
pub mod Frame
pub mod Fresh
pub mod Ret
use casterisk.Prelude.{
  ℕ, zero, suc, Bool, true, false, List, [], ◌∷◌, ◌++◌, Option, none, some, Text, map,
}
use casterisk.Table.{find}
use casterisk.Outcome.{Outcome, ok, raised, assert_failed, at, bad_variant_access}
use casterisk.Semantics.Graph.{
  Ptr, Context, empty_context, FunctionProto, user, bin_op, unary_op, if_else_op, Object, constant,
  symbol, ret_expr, functional_expr, context, module_expr, M, ◌>>=◌, ◌>>◌, pure, throw, lift, deref,
  alloc, load, store, load_context, modify_context, get_name, each, for_each, out_of_fuel,
}
use casterisk.Semantics.FromAst.Context.{bind_name}

abbrev pub to_vector : Option Ptr → List Ptr
to_vector none = []
to_vector (some p) = p ∷ []

-- The operands, each behind `assert(opnds_[i])`.
abbrev pub present : List (Option Ptr) → Outcome (List Ptr)
present [] = ok []
present (none ∷ ps) = raised assert_failed
present (some p ∷ ps) = elim (present ps) [ ok qs ↦ ok (p ∷ qs) | raised e ↦ raised e ]

abbrev pub function_dependencies : FunctionProto → Outcome (List Ptr)
function_dependencies (user none) = raised assert_failed
function_dependencies (user (some p)) = ok (p ∷ [])
function_dependencies _ = ok []

unfoldable pub dependencies : Object → Outcome (List Ptr)
dependencies (constant v) = ok []
dependencies (symbol name rhs) = ok (to_vector rhs)
dependencies (ret_expr rhs) = ok (to_vector rhs)
dependencies (functional_expr func opnds) = elim (present opnds) [
  | raised e ↦ raised e
  | ok ps ↦ elim (function_dependencies func) [ raised e ↦ raised e | ok qs ↦ ok (ps ++ qs) ]
]
dependencies (context c) = ok c.captures
dependencies (module_expr ctx) = ok []

-- `clone_impl`: a new object of the class, assigned from this one.
unfoldable pub clone : Ptr → M Ptr
unfolding load alloc
clone p = do o ← load p; alloc o

abbrev pub SymbolTable : Type 0
SymbolTable = List (Text × Option Ptr)

-- `has_name()`
abbrev pub has_name : Object → Bool
has_name (symbol name rhs) = true
has_name _ = false

unfoldable pub rhs_clone : (Ptr → SymbolTable → M Ptr) → SymbolTable → Option Ptr → M (Option Ptr)
unfolding pure ◌>>=◌
rhs_clone rec st none = pure none
rhs_clone rec st (some p) = do q ← rec p st; pure (some q)

-- `Symbol::deep_clone`
unfoldable pub clone_symbol : (Ptr → SymbolTable → M Ptr) → SymbolTable → Text → Option Ptr → M Ptr
unfolding alloc store rhs_clone
clone_symbol rec st name rhs = do
  sym ← alloc (symbol name none)
  q ← rhs_clone rec st rhs
  store sym (symbol name q)
  pure sym

-- `RetExpr::deep_clone`
unfoldable pub clone_ret : (Ptr → SymbolTable → M Ptr) → SymbolTable → Option Ptr → M Ptr
unfolding alloc store deref
clone_ret rec st rhs = do
  re ← alloc (ret_expr none)
  p ← deref rhs
  q ← rec p st
  store re (ret_expr (some q))
  pure re

-- The function of a call: a user function is looked up by its name, an operator is copied.
unfoldable pub clone_function : SymbolTable → FunctionProto → M FunctionProto
unfolding deref get_name find
clone_function st (user uf) = do
  p ← deref uf
  name ← get_name p
  q ← lift (at (find name st))
  pure (user q)
clone_function st (bin_op op) = pure (bin_op op)
clone_function st (unary_op op) = pure (unary_op op)
clone_function st if_else_op = pure if_else_op

-- An operand: one with a name is looked up, another one is cloned.
unfoldable pub clone_named :
    (Ptr → SymbolTable → M Ptr) → SymbolTable → Ptr → Object → M (Option Ptr)
unfolding find
clone_named rec st p (symbol name rhs) = lift (at (find name st))
clone_named rec st p _ = do q ← rec p st; pure (some q)

unfoldable pub clone_opnd : (Ptr → SymbolTable → M Ptr) → SymbolTable → Option Ptr → M (Option Ptr)
unfolding deref load clone_named
clone_opnd rec st opnd = do p ← deref opnd; o ← load p; clone_named rec st p o

-- `FunctionalExpr::deep_clone`
unfoldable pub clone_functional :
    (Ptr → SymbolTable → M Ptr) → SymbolTable → FunctionProto → List (Option Ptr) → M Ptr
unfolding alloc store clone_function clone_opnd
clone_functional rec st func opnds = do
  fe ← alloc (functional_expr (user none) [])
  f ← clone_function st func
  store fe (functional_expr f [])
  qs ← each (clone_opnd rec st) opnds
  store fe (functional_expr f qs)
  pure fe

-- One parameter or local of a context: its clone is found by its name from then on.
unfoldable pub clone_into :
    (Ptr → SymbolTable → M Ptr) → Ptr → (Ptr → Context → Context) → Ptr → M (Unit {0})
unfolding load_context get_name modify_context
clone_into rec ctx add p = do
  c ← load_context ctx
  nsym ← rec p c.accessible
  name ← get_name nsym
  modify_context ctx λ c. bind_name name (some nsym) (add nsym c)

abbrev add_param_clone : Ptr → Context → Context
add_param_clone p c = record c { params = c.params ++ p ∷ [] }

abbrev add_local_clone : Ptr → Context → Context
add_local_clone p c = record c { locals = c.locals ++ p ∷ [] }

-- A capture is shared with the context that is cloned.
unfoldable pub share_capture : Ptr → Ptr → M (Unit {0})
unfolding get_name modify_context
share_capture ctx c = do
  name ← get_name c
  modify_context ctx λ d. record (bind_name name (some c) d) { captures = d.captures ++ c ∷ [] }

-- `Context::deep_clone`; the table that it is given is not used.
unfoldable pub clone_context : (Ptr → SymbolTable → M Ptr) → Context → M Ptr
unfolding alloc clone_into share_capture load_context modify_context deref
clone_context rec c = do
  ctx ← alloc (context empty_context)
  for_each (clone_into rec ctx add_param_clone) c.params
  for_each (share_capture ctx) c.captures
  for_each (clone_into rec ctx add_local_clone) c.locals
  r ← deref c.ret_expr
  d ← load_context ctx
  q ← rec r d.accessible
  modify_context ctx λ d. record d { ret_expr = some q; is_immediate = c.is_immediate; id = c.id }
  pure ctx

-- `Module::deep_clone`
unfoldable pub clone_module : (Ptr → SymbolTable → M Ptr) → SymbolTable → Option Ptr → M Ptr
unfolding alloc store deref
clone_module rec st ctx = do
  m ← alloc (module_expr none)
  p ← deref ctx
  q ← rec p st
  store m (module_expr (some q))
  pure m

-- The virtual call.
unfoldable pub clone_step : (Ptr → SymbolTable → M Ptr) → Ptr → SymbolTable → Object → M Ptr
unfolding clone clone_symbol clone_ret clone_functional clone_context clone_module
clone_step rec p st (constant v) = clone p
clone_step rec p st (symbol name rhs) = clone_symbol rec st name rhs
clone_step rec p st (ret_expr rhs) = clone_ret rec st rhs
clone_step rec p st (functional_expr func opnds) = clone_functional rec st func opnds
clone_step rec p st (context c) = clone_context rec c
clone_step rec p st (module_expr ctx) = clone_module rec st ctx

-- `Expr::deep_clone`; a unit of fuel for each level of the graph.
unfoldable pub deep_clone : ℕ → Ptr → SymbolTable → M Ptr
unfolding load clone_step
deep_clone zero p st = λ _. out_of_fuel
deep_clone (suc fuel) p st = do o ← load p; clone_step (deep_clone fuel) p st o
