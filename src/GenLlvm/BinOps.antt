-- ===== src/GenLlvm/BinOps.antt =====
-- src/catk/behavior/gen_llvm/value.cpp: `ValueTransForFuncExprVis` on binary operators.
use casterisk.Prelude.{
  ℕ, Bool, false, ◌&&◌, ◌||◌, not, ◌==◌, if◌then◌else◌, List, [], ◌∷◌, Option, none, some,
}
use casterisk.Outcome.{Outcome, ok, raised, internal_bug, ◌>>=◌}
use casterisk.Semantics.Op.{
  BinOp, bop_add, bop_sub, bop_mul, bop_div, bop_mod, bop_and, bop_or, bop_xor, bop_lt, bop_gt,
  bop_eq, bop_le, bop_ge, bop_ne,
}
use casterisk.Typing.Types.{CatkType, is_primary, is_signed_int, is_unsigned_int, is_float}
use casterisk.GenLlvm.Builder.{
  Handler, create_add, create_fadd, create_sub, create_fsub, create_mul, create_fmul, create_sdiv,
  create_udiv, create_fdiv, create_srem, create_urem, create_frem, create_and, create_or,
  create_xor, create_icmp_slt, create_icmp_ult, create_fcmp_olt, create_icmp_sgt, create_icmp_ugt,
  create_fcmp_ogt, create_icmp_eq, create_fcmp_oeq, create_icmp_sle, create_icmp_ule,
  create_fcmp_ole, create_icmp_sge, create_icmp_uge, create_fcmp_oge, create_icmp_ne,
  create_fcmp_one,
}

-- The constants `SI`, `UI`, `FP` and `NP`, one bit each.
pub data Flag : Type 0 where
  si ui fp np : Flag

-- A number made of these bits by `|`.
abbrev pub Mask : Type 0
Mask = List Flag

abbrev flag_bit : Flag → ℕ
flag_bit si = 1
flag_bit ui = 2
flag_bit fp = 4
flag_bit np = 16

-- `flag & mask`, as a condition.
abbrev pub meets : Flag → Mask → Bool
meets f [] = false
meets f (g ∷ gs) = flag_bit f == flag_bit g || meets f gs

pub data TypeLegalizer : Type 0 where
  tl_match_ret_type tl_match_ret_bits tl_by_bop_pri_cast : TypeLegalizer

-- One use of `BOP_HANDLE`.
pub record BopHandle : Type 0 where
  pub lhsflag : Mask
  pub rhsflag : Mask
  pub tbop : BinOp
  pub type_legalizer : TypeLegalizer
  pub handler : Handler

abbrev row : Mask → BinOp → TypeLegalizer → Handler → BopHandle
row m bop l h = record { lhsflag = m; rhsflag = m; tbop = bop; type_legalizer = l; handler = h }

abbrev ints : Mask
ints = si ∷ (ui ∷ [])

abbrev signed : Mask
signed = si ∷ []

abbrev unsigned : Mask
unsigned = ui ∷ []

abbrev floats : Mask
floats = fp ∷ []

abbrev pub bop_handles : List BopHandle
bop_handles =
    row ints bop_add tl_match_ret_type create_add
    ∷ row floats bop_add tl_match_ret_type create_fadd
    ∷ row ints bop_sub tl_match_ret_type create_sub
    ∷ row floats bop_sub tl_match_ret_type create_fsub
    ∷ row ints bop_mul tl_match_ret_type create_mul
    ∷ row floats bop_mul tl_match_ret_type create_fmul
    ∷ row signed bop_div tl_match_ret_type create_sdiv
    ∷ row unsigned bop_div tl_match_ret_type create_udiv
    ∷ row floats bop_div tl_match_ret_type create_fdiv
    ∷ row signed bop_mod tl_match_ret_type create_srem
    ∷ row unsigned bop_mod tl_match_ret_type create_urem
    ∷ row floats bop_mod tl_match_ret_type create_frem
    ∷ row ints bop_and tl_match_ret_bits create_and
    ∷ row ints bop_or tl_match_ret_bits create_or
    ∷ row ints bop_xor tl_match_ret_bits create_xor
    ∷ row signed bop_lt tl_by_bop_pri_cast create_icmp_slt
    ∷ row unsigned bop_lt tl_by_bop_pri_cast create_icmp_ult
    ∷ row floats bop_lt tl_by_bop_pri_cast create_fcmp_olt
    ∷ row signed bop_gt tl_by_bop_pri_cast create_icmp_sgt
    ∷ row unsigned bop_gt tl_by_bop_pri_cast create_icmp_ugt
    ∷ row floats bop_gt tl_by_bop_pri_cast create_fcmp_ogt
    ∷ row ints bop_eq tl_by_bop_pri_cast create_icmp_eq
    ∷ row floats bop_eq tl_by_bop_pri_cast create_fcmp_oeq
    ∷ row signed bop_le tl_by_bop_pri_cast create_icmp_sle
    ∷ row unsigned bop_le tl_by_bop_pri_cast create_icmp_ule
    ∷ row floats bop_le tl_by_bop_pri_cast create_fcmp_ole
    ∷ row signed bop_ge tl_by_bop_pri_cast create_icmp_sge
    ∷ row unsigned bop_ge tl_by_bop_pri_cast create_icmp_uge
    ∷ row floats bop_ge tl_by_bop_pri_cast create_fcmp_oge
    ∷ row ints bop_ne tl_by_bop_pri_cast create_icmp_ne
    ∷ row floats bop_ne tl_by_bop_pri_cast create_fcmp_one
    ∷ []

abbrev bop_number : BinOp → ℕ
bop_number bop_add = 0
bop_number bop_sub = 1
bop_number bop_mul = 2
bop_number bop_div = 3
bop_number bop_mod = 4
bop_number bop_and = 5
bop_number bop_or = 6
bop_number bop_xor = 7
bop_number bop_lt = 8
bop_number bop_gt = 9
bop_number bop_eq = 10
bop_number bop_le = 11
bop_number bop_ge = 12
bop_number bop_ne = 13

-- The condition of `BOP_HANDLE`.
abbrev pub applies : BinOp → Flag → Flag → BopHandle → Bool
applies bop f0 f1 h =
    bop_number h.tbop == bop_number bop && meets f0 h.lhsflag && meets f1 h.rhsflag

-- The uses of `BOP_HANDLE` one behind another: the first one that applies returns.
abbrev pub first_handle : BinOp → Flag → Flag → List BopHandle → Option BopHandle
first_handle bop f0 f1 [] = none
first_handle bop f0 f1 (h ∷ hs) = if applies bop f0 f1 h then some h else first_handle bop f0 f1 hs

-- `resolve_flag`, of the type of the operand.
unfoldable pub resolve_flag : CatkType → Outcome Flag
resolve_flag semty = if not (is_primary semty) then ok np else (do
  f ← is_float semty
  if f then ok fp else (do
    s ← is_signed_int semty
    if s then ok si else (do u ← is_unsigned_int semty; if u then ok ui else raised internal_bug)))

-- The use of `BOP_HANDLE` that takes the operator.
unfoldable pub bin_op_handle : BinOp → CatkType → CatkType → Outcome (Option BopHandle)
unfolding resolve_flag
bin_op_handle bop t0 t1 =
    resolve_flag t0 >>= λ f0. resolve_flag t1 >>= λ f1. ok (first_handle bop f0 f1 bop_handles)
