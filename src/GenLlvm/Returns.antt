-- ===== src/GenLlvm/Returns.antt =====
-- The casts of operands that are numbers give values.
use casterisk.Prelude.{
  ◌≡◌, refl, ap, ◌∙◌, Bool, true, false, ltb, if◌then◌else◌, [], some, ◌∷◌, Text, arith,
}
use casterisk.Outcome.{ok}
use casterisk.Semantics.PrimaryType as PrimaryType
use casterisk.Semantics.PrimaryType.{
  PrimaryType, ordinal, string, pt_end, bool, is_int, is_float, float32, float64,
}
use casterisk.Semantics.PrimaryType.Laws.{is_unsigned_int-never}
use casterisk.Semantics.Op.{BinOp}
use casterisk.Typing.OpCast.{bop_cast}
use casterisk.Typing.Types.{CatkType}
use casterisk.GenLlvm.Builder.{
  create_sext, create_sext_or_trunc, create_fp_cast, Llvm, HasFloats, translate_primary, ◌>>=◌,
  lift, call,
}
use casterisk.GenLlvm.BinOps.{
  TypeLegalizer, tl_match_ret_type, tl_match_ret_bits, tl_by_bop_pri_cast, BopHandle, bin_op_handle,
}
use casterisk.GenLlvm.Legalize.{
  match_ret_type, match_ret_bits, cast_v, legalize, run_handle, translate_bin_op,
}
use casterisk.GenLlvm.Total.{Total, Total-pure, Total-call, Total-if, Total-bind, Total-lift}
use casterisk.GenLlvm.Accepted.{typed}

signed-int : (p : PrimaryType) → is_int p ≡ true → PrimaryType.is_signed_int p ≡ true
signed-int p h = (is_unsigned_int-never p).1 ∙ h

float-int : (p : PrimaryType) → is_int p ≡ true → is_float p ≡ false
unfolding is_int is_float
float-int p h = ground arith

pub int-float : (p : PrimaryType) → is_float p ≡ true → is_int p ≡ false
unfolding is_int is_float
int-float p h = ground arith

signed-float : (p : PrimaryType) → is_float p ≡ true → PrimaryType.is_signed_int p ≡ false
signed-float p h = (is_unsigned_int-never p).1 ∙ int-float p h

conflict : false ≡ true → ⊥
conflict e = cc

pick :
    (P : PrimaryType → Type 0) (b : Bool) (p0 p1 : PrimaryType)
    → P p0
    → P p1
    → P (if b then p0 else p1)
pick P true p0 p1 x y = x
pick P false p0 p1 x y = y

op1-op0 : (p0 p1 : PrimaryType) → (bop_cast p0 p1).op1 ≡ (bop_cast p0 p1).op0
unfolding bop_cast
op1-op0 p0 p1 = refl

-- What both operands have, their common type has.
pub bop_cast-one :
    (P : PrimaryType → Type 0) (p0 p1 : PrimaryType) → P p0 → P p1 → P (bop_cast p0 p1).op0
unfolding bop_cast
bop_cast-one P p0 p1 x y = pick P (ltb (ordinal p1) (ordinal p0)) p0 p1 x y

module _ (L : Llvm) where
  match_ret_type-int :
      (id : Text) (p : PrimaryType) (res_type : L.LlvmType) (v : L.Value)
      → is_int p ≡ true
      → Total (match_ret_type L (typed id p) res_type v)
  unfolding match_ret_type
  match_ret_type-int id p res_type v h =
      Total-if (L.same_type (L.type_of v) res_type) (Total-pure v) (
        Total-if (L.is_floating_point_ty res_type) (Total-call (L.cast create_fp_cast v res_type))
          (record {
            runs = λ s. (
              L.cast create_sext_or_trunc v res_type s,
              rw (◌>>=◌, lift, call, signed-int p h) refl,
            );
          }))

  match_ret_type-float :
      (s_res_type : CatkType) (res_type : L.LlvmType) (v : L.Value)
      → L.is_floating_point_ty res_type ≡ true
      → Total (match_ret_type L s_res_type res_type v)
  unfolding match_ret_type
  match_ret_type-float s_res_type res_type v h =
      rw (h, match_ret_type) (Total-if _ (Total-pure v) (Total-call _))

  match_ret_bits-int :
      (id : Text) (p : PrimaryType) (res_type : L.LlvmType) (v : L.Value)
      → is_int p ≡ true
      → Total (match_ret_bits L res_type (typed id p) v)
  unfolding match_ret_bits
  match_ret_bits-int id p res_type v h =
      Total-if (ltb (L.integer_bit_width (L.type_of v)) (L.integer_bit_width res_type))
        (record {
          runs =
              λ s. (L.cast create_sext v res_type s, rw (◌>>=◌, lift, call, signed-int p h) refl);
        })
        (Total-pure v)

  cast_v-int :
      (id : Text) (p pt : PrimaryType) (ty : L.LlvmType) (v : L.Value)
      → is_int p ≡ true
      → translate_primary L pt ≡ ok ty
      → Total (cast_v L v (typed id p) pt)
  unfolding cast_v
  cast_v-int id p pt ty v h e = record {
    runs = λ s. (
      L.cast create_sext v ty s,
      rw (e, cast_v, signed-int p h, (is_unsigned_int-never p).0, float-int p h) refl,
    );
  }

  pub cast_v-float :
      (id : Text) (p pt : PrimaryType) (ty : L.LlvmType) (v : L.Value)
      → is_float p ≡ true
      → translate_primary L pt ≡ ok ty
      → Total (cast_v L v (typed id p) pt)
  unfolding cast_v
  cast_v-float id p pt ty v h e = record {
    runs = λ s. (
      L.cast create_fp_cast v ty s,
      rw (e, cast_v, signed-float p h, (is_unsigned_int-never p).0, h) refl,
    );
  }

  translate_int :
      (p : PrimaryType) → is_int p ≡ true → (ty : L.LlvmType) × (translate_primary L p ≡ ok ty)
  unfolding is_int
  translate_int string h = absurd (conflict h)
  translate_int pt_end h = absurd (conflict h)
  translate_int _ h = (_, refl)

  pub translate_float :
      (floats : HasFloats L) (p : PrimaryType)
      → is_float p ≡ true
      → (ty : L.LlvmType) × (translate_primary L p ≡ ok ty) × (L.is_floating_point_ty ty ≡ true)
  unfolding is_float
  translate_float floats float32 h = (_, refl, floats.float)
  translate_float floats float64 h = (_, refl, floats.double)
  translate_float floats _ h = absurd (conflict h)

  -- The operands and the result are integers.
  module _ (i j k : Text) (p0 p1 pr : PrimaryType) (rt : L.LlvmType) (v0 v1 : L.Value) where
    pub pri_cast :
        (ty : L.LlvmType)
        → ((pt : PrimaryType)
            → translate_primary L pt ≡ ok ty
            → Total (cast_v L v0 (typed i p0) pt))
        → ((pt : PrimaryType)
            → translate_primary L pt ≡ ok ty
            → Total (cast_v L v1 (typed j p1) pt))
        → translate_primary L (bop_cast p0 p1).op0 ≡ ok ty
        → (t : CatkType)
        → Total (legalize L tl_by_bop_pri_cast t rt (typed i p0) (typed j p1) v0 v1)
    unfolding legalize ◌>>=◌ lift
    pri_cast ty f g e t =
        let both = Total-bind (f (bop_cast p0 p1).op0 e) λ w0.
          Total-bind (g (bop_cast p0 p1).op1 (ap (λ q. translate_primary L q) (op1-op0 p0 p1) ∙ e))
            λ w1. Total-pure {S = L.State} (w0, w1) in
        record { runs = both.runs }

    pub legalize-int :
        (tl : TypeLegalizer)
        → is_int p0 ≡ true
        → is_int p1 ≡ true
        → is_int pr ≡ true
        → Total (legalize L tl (typed k pr) rt (typed i p0) (typed j p1) v0 v1)
    unfolding legalize
    legalize-int tl_match_ret_type a b c =
        Total-bind (match_ret_type-int k pr rt v0 c)
          λ w0. Total-bind (match_ret_type-int k pr rt v1 c) λ w1. Total-pure (w0, w1)
    legalize-int tl_match_ret_bits a b c =
        Total-bind (match_ret_bits-int i p0 rt v0 a)
          λ w0. Total-bind (match_ret_bits-int j p1 rt v1 b) λ w1. Total-pure (w0, w1)
    legalize-int tl_by_bop_pri_cast a b c =
        let t =
          translate_int (bop_cast p0 p1).op0 (bop_cast-one (λ p. is_int p ≡ true) p0 p1 a b) in
        pri_cast t.0 (λ q e. cast_v-int i p0 q t.0 v0 a e) (λ q e. cast_v-int j p1 q t.0 v1 b e) t.1
          (typed k pr)

    pub match_ret_type-floats :
        L.is_floating_point_ty rt ≡ true
        → Total (legalize L tl_match_ret_type (typed k pr) rt (typed i p0) (typed j p1) v0 v1)
    unfolding legalize
    match_ret_type-floats h =
        Total-bind (match_ret_type-float (typed k pr) rt v0 h)
          λ w0. Total-bind (match_ret_type-float (typed k pr) rt v1 h) λ w1. Total-pure (w0, w1)

    run_handle-Total :
        (h : BopHandle)
        → Total (legalize L h.type_legalizer (typed k pr) rt (typed i p0) (typed j p1) v0 v1)
        → Total (run_handle L (some h) (typed k pr) rt (typed i p0) (typed j p1) v0 v1)
    unfolding run_handle
    run_handle-Total h g = Total-bind g λ ws. Total-call (L.create h.handler ws.0 ws.1)

    pub translate_bin_op-handle :
        (bop : BinOp) (h : BopHandle)
        → bin_op_handle bop (typed i p0) (typed j p1) ≡ ok (some h)
        → Total (legalize L h.type_legalizer (typed k pr) rt (typed i p0) (typed j p1) v0 v1)
        → Total
            (translate_bin_op L (typed k pr) rt bop ((typed i p0, v0) ∷ ((typed j p1, v1) ∷ [])))
    unfolding translate_bin_op
    translate_bin_op-handle bop h e g =
        Total-lift (λ o. run_handle L o (typed k pr) rt (typed i p0) (typed j p1) v0 v1) e
          (run_handle-Total h g)
