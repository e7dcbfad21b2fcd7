-- ===== src/Semantics/PrimaryUnion.antt =====
-- src/catk/semantics/utils.hpp: `PrimaryUnion`, the value of a constant, and what reads one from a
-- literal: `IntLiteral::interpret` and `FPLiteral::interpret` of src/catk/syntax/expr.hpp.
pub mod Tags
use casterisk.Prelude.{ℕ, Text, codes, text_eq, if◌then◌else◌}
use casterisk.Prelude.Int.{ℤ}
use casterisk.Outcome.{Outcome, ok, raised, ◌>>=◌, assert_failed}
use casterisk.Syntax.Ast.{Ast, content}
use casterisk.Syntax.Parts.{
  int_literal_literal, int_literal_tag, fp_literal_literal, fp_literal_tag,
}

-- A `float` or `double` is its bit pattern.
pub data PrimaryUnion : Type 0 where
  uint8 uint16 uint32 uint64 : ℕ → PrimaryUnion
  int8 int16 int32 int64 : ℤ → PrimaryUnion
  float double : ℕ → PrimaryUnion
  string : Text → PrimaryUnion

-- What the code takes from other libraries: `boost::lexical_cast` to an integer type of the given
-- number of bits, and `std::stof` and `std::stod`.
pub record Numerals : Type 0 where
  pub cast_unsigned : ℕ → Text → Outcome ℕ
  pub cast_signed : ℕ → Text → Outcome ℤ
  pub stof : Text → Outcome ℕ
  pub stod : Text → Outcome ℕ

-- The conversion that the tag asks for.
unfoldable pub int_value : Numerals → (tag content : Text) → Outcome PrimaryUnion
unfolding text_eq
int_value num tag content =
    if text_eq tag (codes "u8")
    then (do v ← num.cast_unsigned 8 content; ok (uint8 v))
    else if text_eq tag (codes "u16")
    then (do v ← num.cast_unsigned 16 content; ok (uint16 v))
    else if text_eq tag (codes "u32")
    then (do v ← num.cast_unsigned 32 content; ok (uint32 v))
    else if text_eq tag (codes "u64")
    then (do v ← num.cast_unsigned 64 content; ok (uint64 v))
    else if text_eq tag (codes "i8")
    then (do v ← num.cast_signed 8 content; ok (int8 v))
    else if text_eq tag (codes "i16")
    then (do v ← num.cast_signed 16 content; ok (int16 v))
    else if text_eq tag (codes "i32")
    then (do v ← num.cast_signed 32 content; ok (int32 v))
    else if text_eq tag (codes "i64")
    then (do v ← num.cast_signed 64 content; ok (int64 v))
    else raised assert_failed

-- `IntLiteral::interpret`, which returns what it leaves in the store.
unfoldable pub int_literal_interpret : Numerals → Ast → Outcome PrimaryUnion
unfolding int_value int_literal_tag int_literal_literal
int_literal_interpret num ast = do
  t ← int_literal_tag ast
  c ← int_literal_literal ast
  int_value num (content t) (content c)

-- `FPLiteral::interpret`; at another tag the store keeps its value.
unfoldable pub fp_literal_interpret : Numerals → Ast → PrimaryUnion → Outcome PrimaryUnion
unfolding text_eq fp_literal_tag fp_literal_literal
fp_literal_interpret num ast before = do
  t ← fp_literal_tag ast
  if text_eq (content t) (codes "f32")
      then (do c ← fp_literal_literal ast; v ← num.stof (content c); ok (float v))
      else if text_eq (content t) (codes "f64")
      then (do c ← fp_literal_literal ast; v ← num.stod (content c); ok (double v))
      else ok before
