-- ===== src/GenLlvm/UnaryOps.antt =====
-- src/catk/behavior/gen_llvm/value.cpp: `ValueTransForFuncExprVis` on unary operators, and
-- `ValueTransVis` on constants.
use casterisk.Prelude.{ℕ, ◌≡◌, refl, Bool, if◌then◌else◌, List, [], ◌∷◌, Option, none, some}
use casterisk.Prelude.Int.{ℤ}
use casterisk.Outcome.{Outcome, ok, raised, internal_bug, assert_failed, undefined}
use casterisk.Semantics.PrimaryUnion.{
  PrimaryUnion, uint8, uint16, uint32, uint64, int8, int16, int32, int64, float, double, string,
}
use casterisk.Semantics.Op.{UnaryOp, uop_add, uop_sub, uop_inv, uop_deref, uop_not, uop_addrof}
use casterisk.Typing.Operands.{constant_type}
use casterisk.GenLlvm.Builder.{Llvm, translate_primary, Gen, pure, throw}

-- The members of the builder that the unary operators and the constants use. A constant takes the
-- number of its bits; `get_pointer_operand` is of a load, and another value fails an assertion.
pub record UnaryBuilder (L : Llvm) : Type 0 where
  pub is_integer_ty : L.LlvmType → Bool
  pub create_not : L.Value → L.State → L.Value × L.State
  pub create_icmp_eq : L.Value → L.Value → L.State → L.Value × L.State
  pub create_load : L.LlvmType → L.Value → L.State → L.Value × L.State
  pub get_int_n : (bits value : ℕ) → L.Value
  pub get_pointer_operand : L.Value → Option L.Value
  pub get_unsigned : (bits : ℕ) → ℕ → L.Value
  pub get_signed : (bits : ℕ) → ℤ → L.Value
  pub get_float : ℕ → L.Value
  pub get_double : ℕ → L.Value

module _ (L : Llvm) (B : UnaryBuilder L) where
  abbrev pointer_operand : Option L.Value → Gen L.State (Option L.Value)
  pointer_operand none = throw assert_failed
  pointer_operand (some p) = pure (some p)

  -- A value that a call of the builder makes.
  abbrev made_by : (L.State → L.Value × L.State) → Gen L.State (Option L.Value)
  made_by f s = let r = f s in ok (some r.0, r.1)

  -- The switch on the operator; `getIntN` is called with 0 for the bits and the width for the value,
  -- as the source has it.
  abbrev switch_unary_op : UnaryOp → Option L.Value → Gen L.State (Option L.Value)
  switch_unary_op uop_add opnd = pure opnd
  switch_unary_op uop_sub opnd = throw internal_bug
  switch_unary_op _ none = throw undefined
  switch_unary_op uop_inv (some opnd) =
      if B.is_integer_ty (L.type_of opnd) then made_by (B.create_not opnd) else throw internal_bug
  switch_unary_op uop_not (some opnd) =
      if B.is_integer_ty (L.type_of opnd)
      then made_by (B.create_icmp_eq opnd (B.get_int_n 0 (L.integer_bit_width (L.type_of opnd))))
      else throw internal_bug
  switch_unary_op uop_deref (some opnd) = made_by (B.create_load (L.type_of opnd) opnd)
  switch_unary_op uop_addrof (some opnd) = pointer_operand (B.get_pointer_operand opnd)

  -- A unary operator, once its operands have been translated; a value may be null.
  unfoldable pub translate_unary_op : UnaryOp → List (Option L.Value) → Gen L.State (Option L.Value)
  unfolding pure throw
  translate_unary_op uop (opnd ∷ []) = switch_unary_op uop opnd
  translate_unary_op uop _ = throw internal_bug

  -- A constant
  unfoldable pub translate_constant : PrimaryUnion → Outcome L.Value
  translate_constant (uint8 v) = ok (B.get_unsigned 8 v)
  translate_constant (uint16 v) = ok (B.get_unsigned 16 v)
  translate_constant (uint32 v) = ok (B.get_unsigned 32 v)
  translate_constant (uint64 v) = ok (B.get_unsigned 64 v)
  translate_constant (int8 v) = ok (B.get_signed 8 v)
  translate_constant (int16 v) = ok (B.get_signed 16 v)
  translate_constant (int32 v) = ok (B.get_signed 32 v)
  translate_constant (int64 v) = ok (B.get_signed 64 v)
  translate_constant (float v) = ok (B.get_float v)
  translate_constant (double v) = ok (B.get_double v)
  translate_constant (string v) = raised internal_bug

-- What LLVM says of the types of its constants.
pub record HasConstants (L : Llvm) (B : UnaryBuilder L) : Type 0 where
  pub unsigned : (bits value : ℕ) → L.type_of (B.get_unsigned bits value) ≡ L.get_int_ty bits
  pub signed : (bits : ℕ) (value : ℤ) → L.type_of (B.get_signed bits value) ≡ L.get_int_ty bits
  pub float : (value : ℕ) → L.type_of (B.get_float value) ≡ L.get_float_ty
  pub double : (value : ℕ) → L.type_of (B.get_double value) ≡ L.get_double_ty

-- A constant becomes a value exactly when its type becomes a type of LLVM, and the value then has
-- that type.
abbrev pub Agrees : (L : Llvm) → Outcome L.Value → Outcome L.LlvmType → Type 0
Agrees L (ok v) (ok t) = L.type_of v ≡ t
Agrees L (raised e) (raised f) = e ≡ f
Agrees L _ _ = ⊥

-- Code generation makes a value of a constant exactly when it makes a type of LLVM of the type that
-- inference gives the constant; the value then has this type.
pub translate_constant-Agrees :
    (L : Llvm) (B : UnaryBuilder L)
    → HasConstants L B
    → (u : PrimaryUnion)
    → Agrees L (translate_constant L B u) (translate_primary L (constant_type u))
unfolding translate_constant
translate_constant-Agrees L B h (uint8 v) = h.unsigned 8 v
translate_constant-Agrees L B h (uint16 v) = h.unsigned 16 v
translate_constant-Agrees L B h (uint32 v) = h.unsigned 32 v
translate_constant-Agrees L B h (uint64 v) = h.unsigned 64 v
translate_constant-Agrees L B h (int8 v) = h.signed 8 v
translate_constant-Agrees L B h (int16 v) = h.signed 16 v
translate_constant-Agrees L B h (int32 v) = h.signed 32 v
translate_constant-Agrees L B h (int64 v) = h.signed 64 v
translate_constant-Agrees L B h (float v) = h.float v
translate_constant-Agrees L B h (double v) = h.double v
translate_constant-Agrees L B h (string v) = refl
