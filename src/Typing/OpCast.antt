-- ===== src/Typing/OpCast.antt =====
-- src/catk/type/op_cast.hpp: the types that the operands of a binary operator are cast to.
use casterisk.Prelude.{◌≤◌, ◌≡◌, ◌⊎◌, ltb, if◌then◌else◌, arith}
use casterisk.Semantics.PrimaryType.{PrimaryType, ordinal}
use casterisk.Semantics.PrimaryType.Laws.{ordinal-injective}

pub record BopCastInfo : Type 0 where
  pub op0 : PrimaryType
  pub op1 : PrimaryType

unfoldable pub bop_cast : PrimaryType → PrimaryType → BopCastInfo
bop_cast op0 op1 =
    let r = if ltb (ordinal op1) (ordinal op0) then op0 else op1 in record { op0 = r; op1 = r }

-- Both operands are cast to one type; it is the type of one of them, and no operand's enumerator is
-- above its enumerator.
pub bop_cast_least :
    (s t : PrimaryType)
    → let r = bop_cast s t in
      (r.op0 ≡ r.op1)
      × ((r.op0 ≡ s) ⊎ (r.op0 ≡ t))
      × (ordinal s ≤ ordinal r.op0)
      × (ordinal t ≤ ordinal r.op0)
unfolding bop_cast
bop_cast_least s t = ground arith

-- The type of the operation depends neither on the order of the operands nor on how a chain of
-- them is bracketed.
pub bop_cast_semilattice :
    (s t u : PrimaryType)
    → (bop_cast s t ≡ bop_cast t s)
      × (bop_cast (bop_cast s t).op0 u ≡ bop_cast s (bop_cast t u).op0)
unfolding bop_cast
bop_cast_semilattice s t u =
    ground (arith, ordinal-injective s t, ordinal-injective t u, ordinal-injective s u)
