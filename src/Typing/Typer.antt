-- ===== src/Typing/Typer.antt =====
-- The state of type inference, src/catk/type.cpp and src/catk/type/context.hpp: the expressions, the
-- table of types, `expr_type` and `def_to_inst`; and the monad of the functions that change it.

use casterisk.Prelude.{List, [], ◌∷◌, Option, none, some, Text, ◌==◌, if◌then◌else◌}
use casterisk.Table.{find}
use casterisk.Outcome.{Fault, undefined, bad_typeid, Outcome, ok, raised, unchecked}
use casterisk.Semantics.Graph.{Ptr, context, World, Run, returned, thrown, out_of_fuel, M}
use casterisk.Typing.Types.{
  TypePtr, undecided, stored, Content, CatkType, undecided_type, serialize_type_id,
}
use casterisk.Typing.Types.Intern as Intern
use casterisk.Typing.Types.Intern.{TypeTable}

-- `expr_type` gives `none` where the map has no entry or a null pointer, and so does `def_to_inst`. The entry
-- of `expr_type` for the null pointer is `null_type`.
pub record Typer : Type 0 where
  pub exprs : World
  pub table : TypeTable
  pub expr_type : Ptr → Option TypePtr
  pub def_to_inst : List (Text × Ptr)
  pub null_type : Option TypePtr

-- The end of a run, as for the runs on the store of expressions.
pub data Typed (A : Type 0) : Type 0 where
  gives : A → Typer → Typed A
  refuses : Fault → Typer → Typed A
  starves : Typed A

abbrev pub T : Type 0 → Type 0
T A = Typer → Typed A

abbrev pub next_of : {A B : Type 0} → Typed A → (A → T B) → Typed B
next_of (gives a s) f = f a s
next_of (refuses e s) f = refuses e s
next_of starves f = starves

module _ {A B : Type 0} where
  infixl 5 ◌>>=◌ ◌>>◌
  unfoldable pub ◌>>=◌ : T A → (A → T B) → T B
  (m >>= f) s = next_of (m s) f

  unfoldable pub ◌>>◌ : T A → T B → T B
  unfolding ◌>>=◌
  m >> k = m >>= λ _. k

module _ {A : Type 0} where
  unfoldable pub pure : A → T A
  pure a s = gives a s

  unfoldable pub throw : Fault → T A
  throw e s = refuses e s

  unfoldable pub lift : Outcome A → T A
  unfolding pure throw
  lift (ok a) = pure a
  lift (raised e) = throw e

  abbrev pub back : Typer → Run A → Typed A
  back s (returned a w) = gives a (record s { exprs = w })
  back s (thrown e w) = refuses e (record s { exprs = w })
  back s out_of_fuel = starves

  -- A step on the expressions.
  unfoldable pub on_exprs : M A → T A
  on_exprs m s = back s (m s.exprs)

unfoldable pub each : {A B : Type 0} → (A → T B) → List A → T (List B)
unfolding pure ◌>>=◌
each f [] = pure []
each f (x ∷ xs) = f x >>= λ y. each f xs >>= λ ys. pure (y ∷ ys)

-- `expr_type[p]`
unfoldable pub typed_as : Ptr → T (Option TypePtr)
typed_as p s = gives (s.expr_type p) s

-- `expr_type[p] = t`
unfoldable pub set_type : Ptr → Option TypePtr → T (Unit {0})
set_type p t s = gives tt (record s { expr_type = λ q. if q == p then t else s.expr_type q })

abbrev pub null_typed : Typer → Option TypePtr → Typed TypePtr
null_typed s (some t) = gives t s
null_typed s none = refuses bad_typeid (record s { null_type = some undecided })

-- `get_type` of a null pointer: `virt_visit` throws, and the entry stays undecided.
unfoldable pub get_null_type : T TypePtr
get_null_type s = null_typed s s.null_type

-- `def_to_inst`
unfoldable pub instance_of : Text → T (Option Ptr)
unfolding find
instance_of id s = gives (find id s.def_to_inst) s

unfoldable pub set_instance : Text → Ptr → T (Unit {0})
set_instance id p s = gives tt (record s { def_to_inst = (id, p) ∷ s.def_to_inst })

-- The type that a pointer leads to.
abbrev pub type_at : TypeTable → TypePtr → Outcome CatkType
type_at t undecided = ok undecided_type
type_at t (stored p) = unchecked (t.types p)

unfoldable pub load_type : TypePtr → T CatkType
unfolding lift
load_type p s = lift (type_at s.table p) s

-- `get_id` of a context.
abbrev pub context_id : World → Ptr → Outcome Text
context_id w p = elim (w.cell p) [ some (context c) ↦ ok c.id | _ ↦ raised undefined ]

abbrev pub intern : Typer → Content → Text → Typed TypePtr
intern s c id = let r = Intern.get_type id c s.table in gives r.0 (record s { table = r.1 })

-- `type::Context::getType`
unfoldable pub make_type : (TypePtr → Text) → Content → T TypePtr
unfolding Intern.get_type
make_type print_address c s = elim (serialize_type_id print_address (context_id s.exprs) c) [
  | ok id ↦ intern s c id
  | raised e ↦ refuses e s
]
