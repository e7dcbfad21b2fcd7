-- ===== src/GenLlvm/Translates.antt =====
-- What becomes of a binary operator on numbers.
use casterisk.Prelude.{
  ◌≡◌, refl, subst, sym, true, false, [], ◌∷◌, inl, inr, Bool-cases, Text, arith,
}
use casterisk.Outcome.{ok, raised, internal_bug}
use casterisk.Semantics.PrimaryType.{PrimaryType, is_int, is_float}
use casterisk.Semantics.Op.{BinOp}
use casterisk.Typing.OpCast.{bop_cast}
use casterisk.Typing.Operators.{is_comparison}
use casterisk.Typing.Described.{bin_op_type, bin_op_type_lem}
use casterisk.Typing.Types.{CatkType}
use casterisk.GenLlvm.Builder.{Llvm, HasFloats, translate_primary}
use casterisk.GenLlvm.Legalize.{legalize, translate_bin_op}
use casterisk.GenLlvm.Total.{Total}
use casterisk.GenLlvm.Accepted.{
  typed, is_bitwise, accepts, is_number, bin_op_handle-int, bin_op_handle-float, bin_op_handle-none,
}
use casterisk.GenLlvm.Returns.{
  legalize-int, pri_cast, match_ret_type-floats, translate_bin_op-handle, translate_float,
  cast_v-float, bop_cast-one, int-float,
}

bin_op_type-int :
    (bop : BinOp) (p0 p1 : PrimaryType)
    → is_int p0 ≡ true
    → is_int p1 ≡ true
    → is_int (bin_op_type bop p0 p1) ≡ true
unfolding is_int
bin_op_type-int bop p0 p1 a b = elim (Bool-cases (is_comparison bop)) [
  | inl e ↦ rw (bin_op_type_lem, e) refl
  | inr e ↦ rw (bin_op_type_lem, e) (bop_cast-one (λ p. is_int p ≡ true) p0 p1 a b)
]

res-floats :
    (L : Llvm) {p q : PrimaryType} {rt ty : L.LlvmType}
    → translate_primary L p ≡ ok rt
    → p ≡ q
    → translate_primary L q ≡ ok ty
    → L.is_floating_point_ty ty ≡ true
    → L.is_floating_point_ty rt ≡ true
res-floats L a b c d = cc

module _ (L : Llvm) (floats : HasFloats L) (i j k : Text) (bop : BinOp) (p0 p1 : PrimaryType)
    (rt : L.LlvmType) (v0 v1 : L.Value) where
  ints-Total :
      is_int p0 ≡ true
      → is_int p1 ≡ true
      → Total (
          translate_bin_op L
            (typed k (bin_op_type bop p0 p1))
            rt
            bop
            ((typed i p0, v0) ∷ ((typed j p1, v1) ∷ [])))
  ints-Total a b =
      let h = bin_op_handle-int i j bop p0 p1 a b in
      translate_bin_op-handle L i j k p0 p1 (bin_op_type bop p0 p1) rt v0 v1 bop h.0 h.1 (
        legalize-int L i j k p0 p1 (bin_op_type bop p0 p1) rt v0 v1 h.0.type_legalizer a b
          (bin_op_type-int bop p0 p1 a b))

  floats-Total :
      is_float p0 ≡ true
      → is_float p1 ≡ true
      → is_bitwise bop ≡ false
      → translate_primary L (bin_op_type bop p0 p1) ≡ ok rt
      → Total (
          translate_bin_op L
            (typed k (bin_op_type bop p0 p1))
            rt
            bop
            ((typed i p0, v0) ∷ ((typed j p1, v1) ∷ [])))
  floats-Total a b c e =
      let h = bin_op_handle-float i j bop p0 p1 a b c in
      let t =
        translate_float L floats (bop_cast p0 p1).op0
          (bop_cast-one (λ p. is_float p ≡ true) p0 p1 a b) in
      translate_bin_op-handle L i j k p0 p1 (bin_op_type bop p0 p1) rt v0 v1 bop h.0 h.1 (elim h.2 [
        | inl (x, y) ↦
            subst
              (λ tl. Total (
                legalize L tl (typed k (bin_op_type bop p0 p1)) rt (typed i p0) (typed j p1) v0 v1))
              (sym x)
              (match_ret_type-floats L i j k p0 p1 (bin_op_type bop p0 p1) rt v0 v1
                (res-floats L e y t.1 t.2))
        | inr x ↦
            subst
              (λ tl. Total (
                legalize L tl (typed k (bin_op_type bop p0 p1)) rt (typed i p0) (typed j p1) v0 v1))
              (sym x)
              (pri_cast L i j k p0 p1 (bin_op_type bop p0 p1) rt v0 v1 t.0
                (λ q f. cast_v-float L i p0 q t.0 v0 a f) (λ q f. cast_v-float L j p1 q t.0 v1 b f)
                t.1 (typed k (bin_op_type bop p0 p1)))
      ])

-- Where the operands are both integers, or both floating-point numbers and the operator is not on
-- bits, the generator gives a value for the operator, from every state of the builder, when the
-- result has the type that inference gives it.
pub translate_bin_op-returns :
    (L : Llvm)
    → HasFloats L
    → (i j k : Text) (bop : BinOp) (p0 p1 : PrimaryType) (rt : L.LlvmType) (v0 v1 : L.Value)
      (s : L.State)
    → accepts bop p0 p1 ≡ true
    → translate_primary L (bin_op_type bop p0 p1) ≡ ok rt
    → (r : L.Value × L.State) × (translate_bin_op L
          (typed k (bin_op_type bop p0 p1))
          rt
          bop
          ((typed i p0, v0) ∷ ((typed j p1, v1) ∷ []))
          s
        ≡ ok r)
translate_bin_op-returns L floats i j k bop p0 p1 rt v0 v1 s h e = elim (Bool-cases (is_int p0)) [
  | inl a ↦ (ints-Total L floats i j k bop p0 p1 rt v0 v1 a (ground (arith, int-float p0))).runs s
  | inr a ↦
      (floats-Total L floats i j k bop p0 p1 rt v0 v1 (ground arith) (ground arith) (ground arith)
          e).runs
        s
]

-- Every other operator on numbers ends in the failed assertion, whatever the type of the result.
pub translate_bin_op-refused :
    (L : Llvm) (i j : Text) (bop : BinOp) (p0 p1 : PrimaryType) (t : CatkType) (rt : L.LlvmType)
    (v0 v1 : L.Value) (s : L.State)
    → is_number p0 ≡ true
    → is_number p1 ≡ true
    → accepts bop p0 p1 ≡ false
    → translate_bin_op L t rt bop ((typed i p0, v0) ∷ ((typed j p1, v1) ∷ [])) s
      ≡ raised internal_bug
unfolding translate_bin_op
translate_bin_op-refused L i j bop p0 p1 t rt v0 v1 s a b c =
    rw (translate_bin_op, bin_op_handle-none i j bop p0 p1 a b c) refl
