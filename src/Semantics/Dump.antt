-- ===== src/Semantics/Dump.antt =====
-- `Expr::dump`, `dump_str` and `dependencies`, src/catk/semantics: expressions as text.

pub mod Level
pub mod Fuel
pub mod Ranked
pub mod Ended
pub mod Literals
use casterisk.Prelude.{
  ℕ, zero, suc, ◌+◌, ◌-◌, ◌%◌, Bool, true, false, ◌||◌, ◌==◌, if◌then◌else◌, List, [], ◌∷◌, ◌++◌,
  length, map, Option, none, some, Text, codes, decimal,
}
use casterisk.Prelude.Int.{ℤ, pos, negsuc}
use casterisk.Outcome.{
  Outcome, ok, raised, Fault, undefined, assert_failed, internal_bug, rt_assert,
}
use casterisk.Io.FmtDevice.{FmtDevice, fmt_device}
use casterisk.Io.Manipulators.{add_indent_manip, sub_indent_manip}
use casterisk.Semantics.Op.{BinOp, UnaryOp, binop_to_string, unaryop_to_string}
use casterisk.Semantics.PrimaryUnion.{
  PrimaryUnion, uint8, uint16, uint32, uint64, int8, int16, int32, int64, float, double, string,
}
use casterisk.Semantics.Graph.{
  Ptr, World, Context, FunctionProto, user, bin_op, unary_op, if_else_op, Object, constant, symbol,
  ret_expr, functional_expr, context, module_expr, name_of,
}
use casterisk.Semantics.Clone.{dependencies}
use casterisk.Semantics.Printer.{
  Printed, printed, failed, starves, P, ◌>>=◌, ◌>>◌, pure, throw, lift, deref, put, manip, look,
}

-- How a stream writes a number with a fraction.
pub record Fractions : Type 0 where
  pub float_text : ℕ → Text
  pub double_text : ℕ → Text

abbrev pub int_text : ℤ → Text
int_text (pos n) = decimal n
int_text (negsuc n) = codes "-" ++ decimal (suc n)

-- The character that a stream writes for an integer of 8 bits.
abbrev pub byte_of : ℤ → ℕ
byte_of (pos n) = n
byte_of (negsuc n) = 255 - n

-- `Constant::dump`; an integer of 8 bits is written as a character.
unfoldable pub dump_constant : Fractions → PrimaryUnion → P (Unit {0})
unfolding ◌>>◌ put decimal
dump_constant F (uint8 v) = do put (v ∷ []); put (codes "u8")
dump_constant F (uint16 v) = do put (decimal v); put (codes "u16")
dump_constant F (uint32 v) = do put (decimal v); put (codes "u32")
dump_constant F (uint64 v) = do put (decimal v); put (codes "u64")
dump_constant F (int8 v) = do put (byte_of v ∷ []); put (codes "i8")
dump_constant F (int16 v) = do put (int_text v); put (codes "i16")
dump_constant F (int32 v) = do put (int_text v); put (codes "i32")
dump_constant F (int64 v) = do put (int_text v); put (codes "i64")
dump_constant F (float v) = do put (F.float_text v); put (codes "f32")
dump_constant F (double v) = do put (F.double_text v); put (codes "f64")
dump_constant F (string s) = do put (codes "\""); put s; put (codes "\"")

abbrev pub contains : Ptr → List Ptr → Bool
contains p [] = false
contains p (q ∷ qs) = p == q || contains p qs

-- `rec` is `dump` of the expression at an address; the expressions are those of `w`.
module _ (F : Fractions) (w : World) (rec : Ptr → P (Unit {0})) where
  unfoldable pub dump_at : Option Ptr → P (Unit {0})
  unfolding ◌>>=◌ deref
  dump_at p = do q ← deref p; rec q

  -- A loop with `is_first`, and a separator.
  unfoldable pub dump_list : Text → Bool → List (Option Ptr) → P (Unit {0})
  unfolding ◌>>◌ pure put dump_at
  dump_list sep is_first [] = pure tt
  dump_list sep true (p ∷ ps) = do dump_at p; dump_list sep false ps
  dump_list sep false (p ∷ ps) = do put sep; dump_at p; dump_list sep false ps

  -- `FunctionalExpr::dump`
  unfoldable pub dump_functional : FunctionProto → List (Option Ptr) → P (Unit {0})
  unfolding ◌>>=◌ ◌>>◌ pure throw put deref look dump_at dump_list
  dump_functional (user uf) opnds = do
    p ← deref uf
    o ← look w p
    put (name_of o)
    put (codes "(")
    dump_list (codes ", ") true opnds
    put (codes ")")
  dump_functional (bin_op bop) (a ∷ (b ∷ [])) = do
    dump_at a
    put (codes " ")
    put (binop_to_string bop)
    put (codes " ")
    dump_at b
  dump_functional (bin_op bop) _ = throw internal_bug
  dump_functional (unary_op uop) (a ∷ []) = do put (unaryop_to_string uop); dump_at a
  dump_functional (unary_op uop) _ = throw internal_bug
  dump_functional if_else_op (c ∷ (a ∷ (b ∷ []))) = do
    put (codes "if(")
    dump_at c
    put (codes ") ")
    dump_at a
    put (codes " else ")
    dump_at b
  dump_functional if_else_op _ = throw internal_bug

  -- The definition of a symbol, after which it counts as dumped.
  unfoldable pub define : Ptr → List Ptr → Object → P (List Ptr)
  unfolding ◌>>◌ pure put dump_at
  define p dumped (symbol name rhs) = do
    rec p
    put (codes " = ")
    dump_at rhs
    put (codes ";")
    put (10 ∷ [])
    pure (p ∷ dumped)
  define p dumped _ = pure dumped

  -- The calls of `dump_deps` for the dependencies, one behind another.
  unfoldable pub deps_loop : (Ptr → List Ptr → P (List Ptr)) → List Ptr → List Ptr → P (List Ptr)
  unfolding ◌>>=◌ pure
  deps_loop deps [] dumped = pure dumped
  deps_loop deps (d ∷ ds) dumped = do dumped ← deps d dumped; deps_loop deps ds dumped

  abbrev pub deps_and_define :
      (Ptr → List Ptr → P (List Ptr)) → Ptr → Object → List Ptr → List Ptr → P (List Ptr)
  deps_and_define deps p o [] dumped = pure dumped
  deps_and_define deps p o (d ∷ ds) dumped = do
    dumped ← deps_loop deps (d ∷ ds) dumped
    define p dumped o

  -- `dump_deps`; it gives what counts as dumped. A unit of fuel for each call that is under way.
  unfoldable pub dump_deps : ℕ → Ptr → List Ptr → P (List Ptr)
  unfolding ◌>>=◌ pure lift look dependencies deps_loop define
  dump_deps zero p dumped = λ d. starves
  dump_deps (suc fuel) p dumped =
      let deps = dump_deps fuel in
      if contains p dumped
      then pure dumped
      else (do o ← look w p; ds ← lift (dependencies o); deps_and_define deps p o ds dumped)

  -- Captures or parameters, in their brackets.
  unfoldable pub dump_names : Text → Text → List Ptr → P (Unit {0})
  unfolding ◌>>◌ pure put dump_list
  dump_names left right [] = pure tt
  dump_names left right (p ∷ ps) = do
    put left
    dump_list (codes ",") true (map some (p ∷ ps))
    put right

  -- `Context::dump`
  unfoldable pub dump_context : ℕ → Context → P (Unit {0})
  unfolding ◌>>=◌ ◌>>◌ put manip deref dump_names dump_deps
  dump_context fuel c = do
    dump_names (codes "[") (codes "] ") c.captures
    dump_names (codes "(") (codes ") ") c.params
    put (codes "{")
    put (10 ∷ [])
    manip (add_indent_manip (pos 2))
    r ← deref c.ret_expr
    dump_deps fuel r (c.params ++ c.captures)
    rec r
    put (codes ";")
    put (10 ∷ [])
    manip (sub_indent_manip (pos 2))
    put (codes "}")

  -- `Symbol::dump`, `RetExpr::dump` and `Module::dump`
  abbrev pub dump_symbol : Text → P (Unit {0})
  dump_symbol name = put name

  abbrev pub dump_ret_expr : Option Ptr → P (Unit {0})
  dump_ret_expr rhs = do put (codes "ret "); dump_at rhs

  abbrev pub dump_module : Option Ptr → P (Unit {0})
  dump_module ctx = dump_at ctx

  -- The virtual call
  unfoldable pub dump_object : ℕ → Object → P (Unit {0})
  unfolding ◌>>◌ put dump_constant dump_at dump_functional dump_context
  dump_object fuel (constant v) = dump_constant F v
  dump_object fuel (symbol name rhs) = dump_symbol name
  dump_object fuel (ret_expr rhs) = dump_ret_expr rhs
  dump_object fuel (functional_expr func opnds) = dump_functional func opnds
  dump_object fuel (context c) = dump_context fuel c
  dump_object fuel (module_expr ctx) = dump_module ctx

-- `dump`; a unit of fuel for each call that is under way.
unfoldable pub dump : Fractions → World → ℕ → Ptr → P (Unit {0})
unfolding ◌>>=◌ look dump_object
dump F w zero p = λ d. starves
dump F w (suc fuel) p = do o ← look w p; dump_object F w (dump F w fuel) fuel o

abbrev pub text_of : Printed (Unit {0}) → Option Text
text_of (printed a d) = some d.out
text_of _ = none

-- `dump_str`
unfoldable pub dump_str : Fractions → World → ℕ → Ptr → Option Text
unfolding dump fmt_device
dump_str F w fuel p = text_of (dump F w fuel p (fmt_device []))
