-- ===== src/Semantics/Graph.antt =====
-- src/catk/memory/vector_based.hpp, src/catk/semantics/{memory.hpp,utils.cpp} and the members of the
-- classes of src/catk/semantics: the store of expressions, the current context, and the monad of the
-- functions that change them. An expression is known by its address, the number of objects that were
-- allocated before it; a null pointer is `none`.
pub mod Framed
pub mod Ended
pub mod Valid
use casterisk.Prelude.{
  ℕ, suc, ◌+◌, Bool, true, false, List, [], ◌∷◌, Option, none, some, Text, ◌==◌, if◌then◌else◌,
  codes,
}
use casterisk.Outcome.{Fault, undefined, internal_bug, Outcome, ok, raised}
use casterisk.Semantics.Op.{BinOp, UnaryOp}
use casterisk.Semantics.PrimaryUnion.{PrimaryUnion}

abbrev pub Ptr : Type 0
Ptr = ℕ

-- `FunctionProto`: the function that a `FunctionalExpr` applies.
pub data FunctionProto : Type 0 where
  user : Option Ptr → FunctionProto
  bin_op : BinOp → FunctionProto
  unary_op : UnaryOp → FunctionProto
  if_else_op : FunctionProto

-- `Context`, with `accessible_` as an association list whose values may be null.
pub record Context : Type 0 where
  pub accessible : List (Text × Option Ptr)
  pub params : List Ptr
  pub captures : List Ptr
  pub locals : List Ptr
  pub ret_expr : Option Ptr
  pub is_immediate : Bool
  pub id : Text

abbrev pub empty_context : Context
empty_context = record {
  accessible = [];
  params = [];
  captures = [];
  locals = [];
  ret_expr = none;
  is_immediate = true;
  id = [];
}

-- The classes derived from `Expr`, each with its members.
pub data Object : Type 0 where
  constant : (value : PrimaryUnion) → Object
  symbol : (name : Text) (rhs : Option Ptr) → Object
  ret_expr : (rhs : Option Ptr) → Object
  functional_expr : (func : FunctionProto) (opnds : List (Option Ptr)) → Object
  context : Context → Object
  module_expr : (ctx : Option Ptr) → Object

-- `DB<Expr>` and `current_context_`.
pub record World : Type 0 where
  pub cell : Ptr → Option Object
  pub next : Ptr
  pub current : Option Ptr

-- The end of a run: a value, or a C++ exception, with the state that is left; `out_of_fuel` has no
-- counterpart in the program.
pub data Run {ℓ} (A : Type ℓ) : Type ℓ where
  returned : A → World → Run A
  thrown : Fault → World → Run A
  out_of_fuel : Run A

abbrev pub M {ℓ} : Type ℓ → Type ℓ
M A = World → Run A

abbrev pub and_then {ℓ κ} : {A : Type ℓ} {B : Type κ} → Run A → (A → M B) → Run B
and_then (returned a w) f = f a w
and_then (thrown e w) f = thrown e w
and_then out_of_fuel f = out_of_fuel

module _ {ℓ κ} {A : Type ℓ} {B : Type κ} where
  infixl 5 ◌>>=◌ ◌>>◌
  unfoldable pub ◌>>=◌ : M A → (A → M B) → M B
  (m >>= f) w = and_then (m w) f

  unfoldable pub ◌>>◌ : M A → M B → M B
  unfolding ◌>>=◌
  m >> k = m >>= λ _. k

unfoldable pub pure {ℓ} : {A : Type ℓ} → A → M A
pure a w = returned a w

unfoldable pub throw {ℓ} : {A : Type ℓ} → Fault → M A
throw e w = thrown e w

unfoldable pub lift {ℓ} : {A : Type ℓ} → Outcome A → M A
unfolding pure throw
lift (ok a) = pure a
lift (raised e) = throw e

abbrev pub update : (Ptr → Option Object) → Ptr → Object → Ptr → Option Object
update f p o q = if q == p then some o else f q

-- `DB::alloc`
unfoldable pub alloc : Object → M Ptr
alloc o w = returned w.next (record w { cell = update w.cell w.next o; next = w.next + 1 })

-- What the address holds; a null or dangling pointer is not checked.
unfoldable pub load : Ptr → M Object
load p w = elim (w.cell p) [ none ↦ thrown undefined w | some o ↦ returned o w ]

unfoldable pub store : Ptr → Object → M (Unit {0})
store p o w = returned tt (record w { cell = update w.cell p o })

-- `*p`, of a pointer that may be null.
unfoldable pub deref : Option Ptr → M Ptr
unfolding pure throw
deref none = throw undefined
deref (some p) = pure p

-- `get_current_context`
unfoldable pub get_current_context : M (Option Ptr)
get_current_context w = returned w.current w

-- The scope of a `ContextSwitchGuard`: its constructor sets the current context, and its destructor
-- puts the last one back, after a return and after an exception.
unfoldable pub with_current {ℓ} : {A : Type ℓ} → Option Ptr → M A → M A
with_current p m w = elim (m (record w { current = p })) [
  | returned a w' ↦ returned a (record w' { current = w.current })
  | thrown e w' ↦ thrown e (record w' { current = w.current })
  | out_of_fuel ↦ out_of_fuel
]

-- A member of a context, through its address.
unfoldable pub as_context : Object → M Context
unfolding pure throw
as_context (context c) = pure c
as_context _ = throw undefined

unfoldable pub load_context : Ptr → M Context
unfolding load as_context ◌>>=◌
load_context p = do o ← load p; as_context o

unfoldable pub modify_context : Ptr → (Context → Context) → M (Unit {0})
unfolding load_context store ◌>>=◌
modify_context p f = do c ← load_context p; store p (context (f c))

-- The virtual `get_name()`.
abbrev pub name_of : Object → Text
name_of (symbol name rhs) = name
name_of _ = []

unfoldable pub get_name : Ptr → M Text
unfolding load ◌>>=◌ pure
get_name p = do o ← load p; pure (name_of o)

-- A loop over a list.
unfoldable pub each {ℓ κ} : {A : Type ℓ} {B : Type κ} → (A → M B) → List A → M (List B)
unfolding pure ◌>>=◌
each f [] = pure []
each f (x ∷ xs) = f x >>= λ y. each f xs >>= λ ys. pure (y ∷ ys)

unfoldable pub for_each {ℓ} : {A : Type ℓ} → (A → M (Unit {0})) → List A → M (Unit {0})
unfolding pure ◌>>◌
for_each f [] = pure tt
for_each f (x ∷ xs) = f x >> for_each f xs

-- A run from a state; to unfold it is to unfold the monad.
unfoldable pub run {ℓ} : {A : Type ℓ} → M A → World → Run A
unfolding ◌>>=◌ ◌>>◌ pure throw lift deref as_context each for_each get_current_context with_current
    alloc load store load_context modify_context get_name
run m w = m w
