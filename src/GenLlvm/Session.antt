-- ===== src/GenLlvm/Session.antt =====
-- src/catk/behavior/gen_llvm/driver.hpp: the members of `Driver`, the part of LLVM that it uses, and the
-- monad of the functions that change them.
use casterisk.Prelude.{ℕ, suc, List, [], ◌∷◌, Option, none, some, Text, ◌==◌, if◌then◌else◌}
use casterisk.Outcome.{Fault, undefined, Outcome, ok, raised}
use casterisk.Semantics.Graph.{Ptr, M}
use casterisk.Typing.Typer as Typer
use casterisk.Typing.Typer.{Typer, Typed, gives, refuses, T}
use casterisk.GenLlvm.Builder.{Llvm, Gen}

-- The rest of what the driver uses of LLVM. `get_or_insert_function` gives `none` where the cast of its
-- result to a function fails. `get_insert_point` is the instruction that the insert point leads to.
-- `identified_struct_types` are those of the module, with their names.
pub record DriverBuilder (L : Llvm) : Type 1 where
  pub Func : Type 0
  pub Block : Type 0
  pub FuncType : Type 0
  pub new_module : L.State → L.State
  pub identified_struct_types : L.State → List (Text × L.LlvmType)
  pub get_void_ty : L.LlvmType
  pub get_function_type : L.LlvmType → List L.LlvmType → FuncType
  pub function_as_type : FuncType → L.LlvmType
  pub get_pointer_to : L.LlvmType → L.LlvmType
  pub get_pointer_element_type : L.LlvmType → L.LlvmType
  pub get_struct_element_type : L.LlvmType → ℕ → Option L.LlvmType
  pub create_struct : List L.LlvmType → Text → L.State → L.LlvmType × L.State
  pub get_or_insert_function : Text → FuncType → L.State → Option Func × L.State
  pub get_arg : Func → ℕ → L.Value
  pub get_entry_block : Func → L.State → Block
  pub create_block : Text → Option Func → L.State → Block × L.State
  pub get_insert_block : L.State → Block
  pub get_insert_point : L.State → L.Value × L.State
  pub set_insert_point : Block → L.State → L.State
  pub create_alloca : L.LlvmType → Text → L.State → L.Value × L.State
  pub create_store : L.Value → L.Value → L.State → L.State
  pub create_struct_gep : L.LlvmType → L.Value → ℕ → L.State → L.Value × L.State
  pub create_bit_or_pointer_cast : L.Value → L.LlvmType → L.State → L.Value × L.State
  pub create_extract_value : L.Value → ℕ → L.State → L.Value × L.State
  pub create_call : Func → List L.Value → L.State → L.Value × L.State
  pub create_ret : Option L.Value → L.State → L.State
  pub create_cond_br : L.Value → Block → Block → L.State → L.State
  pub create_br : Block → L.State → L.State

-- The members of the driver, the state of the builder, and the state of type inference. The maps give
-- `none` where they have no entry or a null pointer.
pub record Session (L : Llvm) (K : DriverBuilder L) : Type 0 where
  pub typer : Typer
  pub builder : L.State
  pub curr_func : Option K.Func
  pub slazy_ctx_struct : Ptr → Option L.Value
  pub typed_ctx_func : Ptr → Option K.Func
  pub symbol_storage : Ptr → Option L.Value

-- The end of a run. An exception in the middle of a call of the builder leaves the builder as it was
-- before that call.
pub data Made (L : Llvm) (K : DriverBuilder L) (A : Type 0) : Type 0 where
  made : A → Session L K → Made L K A
  failed : Fault → Session L K → Made L K A
  starves : Made L K A

abbrev pub D : (L : Llvm) → DriverBuilder L → Type 0 → Type 0
D L K A = Session L K → Made L K A

abbrev pub next_of :
    {L : Llvm} {K : DriverBuilder L} {A B : Type 0} → Made L K A → (A → D L K B) → Made L K B
next_of (made a s) f = f a s
next_of (failed e s) f = failed e s
next_of starves f = starves

module _ {L : Llvm} {K : DriverBuilder L} {A B : Type 0} where
  infixl 5 ◌>>=◌ ◌>>◌
  unfoldable pub ◌>>=◌ : D L K A → (A → D L K B) → D L K B
  (m >>= f) s = next_of (m s) f

  unfoldable pub ◌>>◌ : D L K A → D L K B → D L K B
  unfolding ◌>>=◌
  m >> k = m >>= λ _. k

module _ {L : Llvm} {K : DriverBuilder L} {A : Type 0} where
  unfoldable pub pure : A → D L K A
  pure a s = made a s

  unfoldable pub throw : Fault → D L K A
  throw e s = failed e s

  unfoldable pub lift : Outcome A → D L K A
  unfolding pure throw
  lift (ok a) = pure a
  lift (raised e) = throw e

  abbrev pub back : Session L K → Typed A → Made L K A
  back s (gives a t) = made a (record s { typer = t })
  back s (refuses e t) = failed e (record s { typer = t })
  back s Typer.starves = starves

  -- A step of type inference.
  unfoldable pub on_types : T A → D L K A
  on_types m s = back s (m s.typer)

  -- A step on the expressions.
  unfoldable pub on_exprs : M A → D L K A
  unfolding on_types Typer.on_exprs
  on_exprs m = on_types (Typer.on_exprs m)

  -- A step of the builder that gives a value.
  unfoldable pub build : (L.State → A × L.State) → D L K A
  build f s = let r = f s.builder in made r.0 (record s { builder = r.1 })

  -- A part of the translation that only the builder's state takes part in.
  abbrev pub after_gen : Session L K → Outcome (A × L.State) → Made L K A
  after_gen s (ok (a, b)) = made a (record s { builder = b })
  after_gen s (raised e) = failed e s

  unfoldable pub gen : Gen L.State A → D L K A
  gen m s = after_gen s (m s.builder)

  unfoldable pub ask : (Session L K → A) → D L K A
  ask f s = made (f s) s

module _ {L : Llvm} {K : DriverBuilder L} where
  unfoldable pub change : (Session L K → Session L K) → D L K (Unit {0})
  change f s = made tt (f s)

  -- A step of the builder without a value.
  unfoldable pub emit : (L.State → L.State) → D L K (Unit {0})
  unfolding change
  emit f = change λ s. record s { builder = f s.builder }

  unfoldable pub set_curr_func : Option K.Func → D L K (Unit {0})
  unfolding change
  set_curr_func f = change λ s. record s { curr_func = f }

  -- `slazy_ctx_struct_[p] = v`
  unfoldable pub set_ctx_struct : Ptr → L.Value → D L K (Unit {0})
  unfolding change
  set_ctx_struct p v =
      change
        λ s. record s { slazy_ctx_struct = λ q. if q == p then some v else s.slazy_ctx_struct q }

  -- `typed_ctx_func_[p] = f`
  unfoldable pub set_ctx_func : Ptr → K.Func → D L K (Unit {0})
  unfolding change
  set_ctx_func p f =
      change λ s. record s { typed_ctx_func = λ q. if q == p then some f else s.typed_ctx_func q }

  -- `symbol_storage_[p] = v`, or the erasure of `p`.
  unfoldable pub set_storage : Ptr → Option L.Value → D L K (Unit {0})
  unfolding change
  set_storage p v =
      change λ s. record s { symbol_storage = λ q. if q == p then v else s.symbol_storage q }

module _ {L : Llvm} {K : DriverBuilder L} {A B : Type 0} where
  unfoldable pub each : (A → D L K B) → List A → D L K (List B)
  unfolding pure ◌>>=◌
  each f [] = pure []
  each f (x ∷ xs) = f x >>= λ y. each f xs >>= λ ys. pure (y ∷ ys)

module _ {L : Llvm} {K : DriverBuilder L} {A : Type 0} where
  unfoldable pub for_each : (A → D L K (Unit {0})) → List A → D L K (Unit {0})
  unfolding pure ◌>>◌
  for_each f [] = pure tt
  for_each f (x ∷ xs) = f x >> for_each f xs

  -- A loop with its index.
  unfoldable pub for_index : (ℕ → A → D L K (Unit {0})) → ℕ → List A → D L K (Unit {0})
  unfolding pure ◌>>◌
  for_index f i [] = pure tt
  for_index f i (x ∷ xs) = f i x >> for_index f (suc i) xs

-- A pointer that is read through.
module _ {L : Llvm} {K : DriverBuilder L} {A : Type 0} where
  unfoldable pub deref : Option A → D L K A
  unfolding pure throw
  deref none = throw undefined
  deref (some a) = pure a
