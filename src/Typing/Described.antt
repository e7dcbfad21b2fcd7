-- ===== src/Typing/Described.antt =====
-- A description of the types that src/catk/type.cpp gives binary operators.
use casterisk.Prelude.{◌≡◌, refl, Bool, false, ◌||◌, ◌==◌, leb, [], ◌∷◌, Text, arith, if◌then◌else◌}
use casterisk.Semantics.PrimaryType.{PrimaryType, bool, ordinal}
use casterisk.Semantics.PrimaryType.Laws.{ordinal-injective}
use casterisk.Semantics.Op.{BinOp, binop_to_string, bop_lt, bop_gt, bop_eq, bop_le, bop_ge, bop_ne}
use casterisk.Typing.OpCast.{bop_cast}
use casterisk.Typing.Operators.{is_comparison}

-- The description of a binary operator's type, which goes by the spelling of the operator and by the order
-- of the enumerators: a spelling that begins with one of `<`, `>`, `=` and `!` gives `bool`, every other
-- one the greater type of the operands.
abbrev begins_comparison : Text → Bool
begins_comparison [] = false
begins_comparison (c ∷ s) = c == b'<' || c == b'>' || c == b'=' || c == b'!'

abbrev greater : PrimaryType → PrimaryType → PrimaryType
greater p0 p1 = if leb (ordinal p1) (ordinal p0) then p0 else p1

unfoldable pub bin_op_type : BinOp → PrimaryType → PrimaryType → PrimaryType
bin_op_type bop p0 p1 = if begins_comparison (binop_to_string bop) then bool else greater p0 p1

greater-bop_cast : (p0 p1 : PrimaryType) → greater p0 p1 ≡ (bop_cast p0 p1).op0
unfolding bop_cast
greater-bop_cast p0 p1 = ground (arith, ordinal-injective p0 p1)

-- The switch and the cast of the code give the type of the description.
pub bin_op_type_lem :
    (bop : BinOp) (p0 p1 : PrimaryType)
    → bin_op_type bop p0 p1 ≡ (if is_comparison bop then bool else (bop_cast p0 p1).op0)
unfolding bin_op_type
bin_op_type_lem bop_lt p0 p1 = refl
bin_op_type_lem bop_gt p0 p1 = refl
bin_op_type_lem bop_eq p0 p1 = refl
bin_op_type_lem bop_le p0 p1 = refl
bin_op_type_lem bop_ge p0 p1 = refl
bin_op_type_lem bop_ne p0 p1 = refl
bin_op_type_lem _ p0 p1 = greater-bop_cast p0 p1
