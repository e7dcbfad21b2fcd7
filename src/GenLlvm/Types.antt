-- ===== src/GenLlvm/Types.antt =====
-- src/catk/behavior/gen_llvm/type.cpp: the types of LLVM for the types of expressions.
use casterisk.Prelude.{ℕ, zero, suc, List, Option, none, some, Text}
use casterisk.Table.{find}
use casterisk.Outcome.{undefined}
use casterisk.Typing.Typer.{get_null_type}
use casterisk.Semantics.Graph as Graph
use casterisk.Semantics.Graph.{Ptr, Object, symbol}
use casterisk.Typing.Types.{TypePtr, Content, struct_type, primary, pointer_elem, lazy_context}
use casterisk.Typing.Typer.{load_type}
use casterisk.Typing.Infer as Infer
use casterisk.GenLlvm.Builder.{Llvm, translate_primary}
use casterisk.GenLlvm.Session.{
  DriverBuilder, D, starves, ◌>>=◌, pure, throw, lift, on_types, on_exprs, build, ask, each,
}

-- How type inference is run: how an address of a type is written, and the bounds on the depth of a clone
-- and of the inference.
pub record Inference : Type 0 where
  pub print_address : TypePtr → Text
  pub clone_fuel : ℕ
  pub type_fuel : ℕ

abbrev pub symbol_or_null : Ptr → Object → Option Ptr
symbol_or_null p (symbol name rhs) = some p
symbol_or_null p _ = none

module _ {L : Llvm} {K : DriverBuilder L} where
  -- `catk::get_type`
  unfoldable pub get_type : Inference → Option Ptr → D L K TypePtr
  unfolding on_types Infer.get_type get_null_type
  get_type I none = on_types get_null_type
  get_type I (some p) = on_types (Infer.get_type I.print_address I.clone_fuel I.type_fuel p)

  -- `rhs` of a symbol; `as_symbol` is the cast of a pointer to one.
  unfoldable pub rhs_of : Object → D L K (Option Ptr)
  unfolding pure throw
  rhs_of (symbol name rhs) = pure rhs
  rhs_of _ = throw undefined

  unfoldable pub as_symbol : Option Ptr → D L K (Option Ptr)
  unfolding ◌>>=◌ pure on_exprs Graph.load
  as_symbol none = pure none
  as_symbol (some p) = do o ← on_exprs (Graph.load p); pure (symbol_or_null p o)

  -- The symbol that a capture stands for, or null.
  unfoldable pub captured : Ptr → D L K (Option Ptr)
  unfolding ◌>>=◌ on_exprs Graph.load rhs_of as_symbol
  captured scap = do o ← on_exprs (Graph.load scap); rhs ← rhs_of o; as_symbol rhs

  -- `get_struct_type`
  unfoldable pub get_struct_type : Text → D L K (Option L.LlvmType)
  unfolding ask find
  get_struct_type name = ask λ s. find name (K.identified_struct_types s.builder)

  -- The type of that name, or one that is made of `members`.
  abbrev pub or_create : Text → D L K (List L.LlvmType) → Option L.LlvmType → D L K L.LlvmType
  or_create name members (some ty) = pure ty
  or_create name members none = do tys ← members; build (K.create_struct tys name)

  -- `TypeTransVis`; `rec` is `translate_type`, and `id` the identifier of the type.
  module _ (I : Inference) (rec : TypePtr → D L K L.LlvmType) where
    -- A member of the structure of a context: a pointer to what is captured.
    unfoldable pub capture_type : Ptr → D L K L.LlvmType
    unfolding ◌>>=◌ pure captured get_type
    capture_type scap = do
      tar ← captured scap
      t ← get_type I tar
      ty ← rec t
      pure (K.get_pointer_to ty)

    unfoldable pub capture_types : Ptr → D L K (List L.LlvmType)
    unfolding ◌>>=◌ on_exprs Graph.load_context each capture_type
    capture_types p = do c ← on_exprs (Graph.load_context p); each capture_type c.captures

    unfoldable pub visit_content : Text → Content → D L K L.LlvmType
    unfolding ◌>>=◌ pure lift build each get_struct_type capture_types
    visit_content id (struct_type name members) = do
      ty ← get_struct_type name
      or_create name (each rec members) ty
    visit_content id (primary pt) = lift (translate_primary L pt)
    visit_content id (lazy_context p) = do
      ty ← get_struct_type id
      or_create id (capture_types p) ty
    visit_content id (pointer_elem t) = do ty ← rec t; pure (K.get_pointer_to ty)

  -- `translate_type`; a unit of fuel for each type inside another.
  unfoldable pub translate_type : Inference → ℕ → TypePtr → D L K L.LlvmType
  unfolding ◌>>=◌ on_types load_type visit_content
  translate_type I zero t = λ _. starves
  translate_type I (suc fuel) t = do
    c ← on_types (load_type t)
    visit_content I (translate_type I fuel) c.id c.content
