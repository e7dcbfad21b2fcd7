-- ===== src/GenLlvm/Accepted.antt =====
-- The binary operators that the code generator takes.
use casterisk.Prelude.{
  ◌≡◌, ◌≢◌, refl, Bool, true, false, ◌&&◌, ◌||◌, not, none, some, Text, ◌⊎◌, inl, inr, Bool-cases,
}
use native.Mathlib.Omega.{arith}
use casterisk.Outcome.{ok}
use casterisk.Semantics.PrimaryType as PrimaryType
use casterisk.Semantics.PrimaryType.{PrimaryType, bool, is_int, is_float}
use casterisk.Semantics.Op.{
  BinOp, bop_add, bop_sub, bop_mul, bop_div, bop_mod, bop_and, bop_or, bop_xor,
}
use casterisk.Typing.OpCast.{bop_cast}
use casterisk.Typing.Described.{bin_op_type, bin_op_type_lem}
use casterisk.Typing.Types.{Content, CatkType, primary}
use casterisk.GenLlvm.BinOps.{
  Flag, si, ui, fp, resolve_flag, BopHandle, bop_handles, first_handle, bin_op_handle,
  tl_match_ret_type, tl_by_bop_pri_cast,
}

-- The type that `getType` makes of a primary type.
abbrev pub typed : Text → PrimaryType → CatkType
typed id p = record { is_mutable = false; is_undecided = false; id = id; content = primary p }

never_ui :
    (id : Text) (m u : Bool) (c : Content)
    → resolve_flag (record { is_mutable = m; is_undecided = u; id = id; content = c }) ≢ ok ui
unfolding resolve_flag is_int PrimaryType.is_float PrimaryType.is_signed_int
    PrimaryType.is_unsigned_int
never_ui id m u (primary bool) h = cc
never_ui id m u (primary _) h = cc
never_ui id m u _ h = cc

-- No type has the flag `UI`, so no use of `BOP_HANDLE` that asks for it is ever taken.
pub resolve_flag-never_ui : (t : CatkType) → resolve_flag t ≢ ok ui
resolve_flag-never_ui t = never_ui t.id t.is_mutable t.is_undecided t.content

resolve_flag-int :
    (id : Text) (p : PrimaryType) → is_int p ≡ true → resolve_flag (typed id p) ≡ ok si
unfolding resolve_flag is_int PrimaryType.is_float PrimaryType.is_signed_int
    PrimaryType.is_unsigned_int
resolve_flag-int id bool h = refl
resolve_flag-int id _ h = cc

resolve_flag-float :
    (id : Text) (p : PrimaryType) → is_float p ≡ true → resolve_flag (typed id p) ≡ ok fp
unfolding resolve_flag is_float
resolve_flag-float id bool h = cc
resolve_flag-float id _ h = cc

-- The operators on the bits of integers.
abbrev pub is_bitwise : BinOp → Bool
is_bitwise bop_and = true
is_bitwise bop_or = true
is_bitwise bop_xor = true
is_bitwise _ = false

-- Both operands are integers, or both are floating-point numbers and the operator is not on bits.
abbrev pub accepts : BinOp → PrimaryType → PrimaryType → Bool
accepts bop p0 p1 = is_int p0 && is_int p1 || (is_float p0 && is_float p1 && not (is_bitwise bop))

-- The types of the numbers.
abbrev pub is_number : PrimaryType → Bool
is_number p = is_int p || is_float p

first_handle-int : (bop : BinOp) → (h : BopHandle) × (first_handle bop si si bop_handles ≡ some h)
first_handle-int bop_add = (_, refl)
first_handle-int _ = (_, refl)

bool_conflict : true ≡ false → ⊥
bool_conflict e = cc

first_handle-float :
    (p0 p1 : PrimaryType) (bop : BinOp)
    → is_bitwise bop ≡ false
    → (h : BopHandle) × (first_handle bop fp fp bop_handles ≡ some h)
      × (((h.type_legalizer ≡ tl_match_ret_type) × (bin_op_type bop p0 p1 ≡ (bop_cast p0 p1).op0))
          ⊎ (h.type_legalizer ≡ tl_by_bop_pri_cast))
first_handle-float p0 p1 bop_add e = (_, refl, inl (refl, bin_op_type_lem bop_add p0 p1))
first_handle-float p0 p1 bop_sub e = (_, refl, inl (refl, bin_op_type_lem bop_sub p0 p1))
first_handle-float p0 p1 bop_mul e = (_, refl, inl (refl, bin_op_type_lem bop_mul p0 p1))
first_handle-float p0 p1 bop_div e = (_, refl, inl (refl, bin_op_type_lem bop_div p0 p1))
first_handle-float p0 p1 bop_mod e = (_, refl, inl (refl, bin_op_type_lem bop_mod p0 p1))
first_handle-float p0 p1 bop_and e = absurd (bool_conflict e)
first_handle-float p0 p1 bop_or e = absurd (bool_conflict e)
first_handle-float p0 p1 bop_xor e = absurd (bool_conflict e)
first_handle-float p0 p1 _ e = (_, refl, inr refl)

first_handle-mixed :
    (bop : BinOp)
    → (first_handle bop si fp bop_handles ≡ none) × (first_handle bop fp si bop_handles ≡ none)
first_handle-mixed bop_add = (refl, refl)
first_handle-mixed _ = (refl, refl)

first_handle-bitwise :
    (bop : BinOp) → is_bitwise bop ≡ true → first_handle bop fp fp bop_handles ≡ none
first_handle-bitwise bop_add e = cc
first_handle-bitwise _ e = cc

-- The use of `BOP_HANDLE` that takes an accepted operator.
pub bin_op_handle-int :
    (i j : Text) (bop : BinOp) (p0 p1 : PrimaryType)
    → is_int p0 ≡ true
    → is_int p1 ≡ true
    → (h : BopHandle) × (bin_op_handle bop (typed i p0) (typed j p1) ≡ ok (some h))
unfolding bin_op_handle
bin_op_handle-int i j bop p0 p1 a b =
    let h = first_handle-int bop in
    (h.0, rw (bin_op_handle, resolve_flag-int i p0 a, resolve_flag-int j p1 b, h.1) refl)

pub bin_op_handle-float :
    (i j : Text) (bop : BinOp) (p0 p1 : PrimaryType)
    → is_float p0 ≡ true
    → is_float p1 ≡ true
    → is_bitwise bop ≡ false
    → (h : BopHandle) × (bin_op_handle bop (typed i p0) (typed j p1) ≡ ok (some h))
      × (((h.type_legalizer ≡ tl_match_ret_type) × (bin_op_type bop p0 p1 ≡ (bop_cast p0 p1).op0))
          ⊎ (h.type_legalizer ≡ tl_by_bop_pri_cast))
unfolding bin_op_handle
bin_op_handle-float i j bop p0 p1 a b e =
    let h = first_handle-float p0 p1 bop e in
    (h.0, rw (bin_op_handle, resolve_flag-float i p0 a, resolve_flag-float j p1 b, h.1) refl, h.2)

none_taken :
    (i j : Text) (bop : BinOp) (p0 p1 : PrimaryType) (f0 f1 : Flag)
    → resolve_flag (typed i p0) ≡ ok f0
    → resolve_flag (typed j p1) ≡ ok f1
    → first_handle bop f0 f1 bop_handles ≡ none
    → bin_op_handle bop (typed i p0) (typed j p1) ≡ ok none
unfolding bin_op_handle
none_taken i j bop p0 p1 f0 f1 a b e = rw (bin_op_handle, a, b, e) refl

-- No use of `BOP_HANDLE` takes another operator on numbers.
pub bin_op_handle-none :
    (i j : Text) (bop : BinOp) (p0 p1 : PrimaryType)
    → is_number p0 ≡ true
    → is_number p1 ≡ true
    → accepts bop p0 p1 ≡ false
    → bin_op_handle bop (typed i p0) (typed j p1) ≡ ok none
bin_op_handle-none i j bop p0 p1 n0 n1 e = elim (Bool-cases (is_int p0)) [
  | inl a ↦ elim (Bool-cases (is_int p1)) [
    | inl b ↦ absurd (ground arith)
    | inr b ↦
        none_taken i j bop p0 p1 si fp (resolve_flag-int i p0 a)
          (resolve_flag-float j p1 (ground arith)) (first_handle-mixed bop).0
  ]
  | inr a ↦ elim (Bool-cases (is_int p1)) [
    | inl b ↦
        none_taken i j bop p0 p1 fp si (resolve_flag-float i p0 (ground arith))
          (resolve_flag-int j p1 b) (first_handle-mixed bop).1
    | inr b ↦
        none_taken i j bop p0 p1 fp fp (resolve_flag-float i p0 (ground arith))
          (resolve_flag-float j p1 (ground arith)) (first_handle-bitwise bop (ground arith))
  ]
]

-- Between integers the use of `BOP_HANDLE` depends on the operator alone: the operands' signedness
-- makes no difference, so `uint64` operands are divided and compared as `int64` ones are.
pub bin_op_handle-signedness :
    (i j : Text) (bop : BinOp) (p0 p1 q0 q1 : PrimaryType)
    → is_int p0 ≡ true
    → is_int p1 ≡ true
    → is_int q0 ≡ true
    → is_int q1 ≡ true
    → bin_op_handle bop (typed i p0) (typed j p1) ≡ bin_op_handle bop (typed i q0) (typed j q1)
unfolding bin_op_handle
bin_op_handle-signedness i j bop p0 p1 q0 q1 a b c d =
    rw
      (
        bin_op_handle,
        resolve_flag-int i p0 a,
        resolve_flag-int j p1 b,
        resolve_flag-int i q0 c,
        resolve_flag-int j q1 d,
      )
      refl
