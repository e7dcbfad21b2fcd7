-- ===== src/Typing/Operators.antt =====
-- src/catk/type.cpp: `GetTypeFuncVisit` on the operators, of the types of their operands.
use casterisk.Prelude.{Bool, true, false}
use casterisk.Semantics.Op.{BinOp, bop_lt, bop_gt, bop_eq, bop_le, bop_ge, bop_ne}

-- The cases of the switch that give `CATK_BOOL`; its `default` branch takes no enumerator.
abbrev pub is_comparison : BinOp → Bool
is_comparison bop_lt = true
is_comparison bop_gt = true
is_comparison bop_eq = true
is_comparison bop_le = true
is_comparison bop_ge = true
is_comparison bop_ne = true
is_comparison _ = false
