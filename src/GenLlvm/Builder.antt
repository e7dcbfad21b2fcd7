-- ===== src/GenLlvm/Builder.antt =====
-- What the code generator uses of LLVM, and src/catk/behavior/gen_llvm/type.cpp on primary types.
-- The builder is a parameter: it keeps a state, and a call of it gives a value.
use casterisk.Prelude.{ℕ, ◌≡◌, Bool, true}
use casterisk.Outcome.{Outcome, ok, raised, internal_bug, Fault}
use casterisk.Semantics.PrimaryType.{
  PrimaryType, bool, ubool, int8, uint8, int16, uint16, int32, uint32, int64, uint64, float32,
  float64, string, pt_end,
}

-- The members of the builder that make a value of two operands.
pub data Handler : Type 0 where
  create_add create_fadd create_sub create_fsub create_mul create_fmul : Handler
  create_sdiv create_udiv create_fdiv create_srem create_urem create_frem : Handler
  create_and create_or create_xor : Handler
  create_icmp_slt create_icmp_ult create_fcmp_olt : Handler
  create_icmp_sgt create_icmp_ugt create_fcmp_ogt : Handler
  create_icmp_eq create_fcmp_oeq : Handler
  create_icmp_sle create_icmp_ule create_fcmp_ole : Handler
  create_icmp_sge create_icmp_uge create_fcmp_oge : Handler
  create_icmp_ne create_fcmp_one : Handler

-- The members that make a value of an operand and a type.
pub data Cast : Type 0 where
  create_sext create_zext create_fp_cast create_sext_or_trunc create_zext_or_trunc : Cast

pub record Llvm : Type 1 where
  pub Value : Type 0
  pub LlvmType : Type 0
  pub State : Type 0
  pub create : Handler → Value → Value → State → Value × State
  pub cast : Cast → Value → LlvmType → State → Value × State
  pub type_of : Value → LlvmType
  pub same_type : LlvmType → LlvmType → Bool
  pub is_floating_point_ty : LlvmType → Bool
  pub integer_bit_width : LlvmType → ℕ
  pub get_int_ty : ℕ → LlvmType
  pub get_float_ty : LlvmType
  pub get_double_ty : LlvmType

-- What LLVM says of its two types of floating-point numbers.
pub record HasFloats (L : Llvm) : Type 0 where
  pub float : L.is_floating_point_ty L.get_float_ty ≡ true
  pub double : L.is_floating_point_ty L.get_double_ty ≡ true

-- `TypeTransVis` on a primary type.
abbrev pub translate_primary : (L : Llvm) → PrimaryType → Outcome L.LlvmType
translate_primary L bool = ok (L.get_int_ty 1)
translate_primary L ubool = ok (L.get_int_ty 1)
translate_primary L uint8 = ok (L.get_int_ty 8)
translate_primary L uint16 = ok (L.get_int_ty 16)
translate_primary L uint32 = ok (L.get_int_ty 32)
translate_primary L uint64 = ok (L.get_int_ty 64)
translate_primary L int8 = ok (L.get_int_ty 8)
translate_primary L int16 = ok (L.get_int_ty 16)
translate_primary L int32 = ok (L.get_int_ty 32)
translate_primary L int64 = ok (L.get_int_ty 64)
translate_primary L float32 = ok L.get_float_ty
translate_primary L float64 = ok L.get_double_ty
translate_primary L string = raised internal_bug
translate_primary L pt_end = raised internal_bug

-- A run of the generator: it gives a value and the builder's next state, or it throws.
abbrev pub Gen : Type 0 → Type 0 → Type 0
Gen S A = S → Outcome (A × S)

module _ {S : Type 0} where
  infixl 5 ◌>>=◌
  unfoldable pub ◌>>=◌ : {A B : Type 0} → Gen S A → (A → Gen S B) → Gen S B
  (m >>= f) s = elim (m s) [ ok (a, t) ↦ f a t | raised e ↦ raised e ]

  unfoldable pub pure : {A : Type 0} → A → Gen S A
  pure a s = ok (a, s)

  unfoldable pub lift : {A : Type 0} → Outcome A → Gen S A
  lift o s = elim o [ ok a ↦ ok (a, s) | raised e ↦ raised e ]

  unfoldable pub throw : {A : Type 0} → Fault → Gen S A
  throw e s = raised e

  unfoldable pub call : {A : Type 0} → (S → A × S) → Gen S A
  call f s = ok (f s)
