-- ===== src/GenLlvm/Legalize.antt =====
-- src/catk/behavior/gen_llvm/value.cpp: the casts of the operands of a binary operator, and the
-- instruction that it becomes.

use casterisk.Prelude.{Bool, true, false, ltb, if◌then◌else◌, List, [], ◌∷◌, Option, none, some}
use casterisk.Outcome.{internal_bug}
use casterisk.Semantics.PrimaryType.{PrimaryType}
use casterisk.Semantics.Op.{BinOp}
use casterisk.Typing.OpCast.{bop_cast}
use casterisk.Typing.Types.{CatkType, is_signed_int, is_unsigned_int, is_float, as_primary}
use casterisk.GenLlvm.Builder.{
  create_sext, create_zext, create_fp_cast, create_sext_or_trunc, create_zext_or_trunc, Llvm,
  translate_primary, Gen, ◌>>=◌, pure, lift, throw, call,
}
use casterisk.GenLlvm.BinOps.{
  TypeLegalizer, tl_match_ret_type, tl_match_ret_bits, tl_by_bop_pri_cast, BopHandle, bin_op_handle,
}

module _ (L : Llvm) where
  -- One round of `tl_match_ret_type`; `s_res_type` and `res_type` are the type of the result.
  unfoldable pub match_ret_type : CatkType → L.LlvmType → L.Value → Gen L.State L.Value
  unfolding ◌>>=◌ pure lift throw call
  match_ret_type s_res_type res_type v =
      if L.same_type (L.type_of v) res_type
      then pure v
      else if L.is_floating_point_ty res_type
      then call (L.cast create_fp_cast v res_type)
      else (do
        s ← lift (is_signed_int s_res_type)
        if s then call (L.cast create_sext_or_trunc v res_type) else (do
          u ← lift (is_unsigned_int s_res_type)
          if u then call (L.cast create_zext_or_trunc v res_type) else throw internal_bug))

  -- One round of `tl_match_ret_bits`; `stype` is the type of the operand.
  unfoldable pub match_ret_bits : L.LlvmType → CatkType → L.Value → Gen L.State L.Value
  unfolding ◌>>=◌ pure lift throw call
  match_ret_bits res_type stype v =
      if ltb (L.integer_bit_width (L.type_of v)) (L.integer_bit_width res_type)
      then (do
        s ← lift (is_signed_int stype)
        if s then call (L.cast create_sext v res_type) else (do
          u ← lift (is_unsigned_int stype)
          if u then call (L.cast create_zext v res_type) else throw internal_bug))
      else pure v

  -- `if (test) v = cast;`: the value that is made, or the one that was there.
  unfoldable pub cast_if :
      Bool → Option L.Value → Gen L.State L.Value → Gen L.State (Option L.Value)
  unfolding ◌>>=◌ pure
  cast_if true v m = do w ← m; pure (some w)
  cast_if false v m = pure v

  unfoldable pub not_null : Option L.Value → Gen L.State L.Value
  unfolding pure throw
  not_null none = throw internal_bug
  not_null (some v) = pure v

  -- `cast_v`; the type that is made of `pt` is translated as a primary type.
  unfoldable pub cast_v : L.Value → CatkType → PrimaryType → Gen L.State L.Value
  unfolding ◌>>=◌ lift call cast_if not_null
  cast_v opnd sty pt = do
    ty ← lift (translate_primary L pt)
    s ← lift (is_signed_int sty)
    v ← cast_if s none (call (L.cast create_sext opnd ty))
    u ← lift (is_unsigned_int sty)
    v ← cast_if u v (call (L.cast create_zext opnd ty))
    f ← lift (is_float sty)
    v ← cast_if f v (call (L.cast create_fp_cast opnd ty))
    not_null v

  -- The legalizers, on the two operands and their types.
  unfoldable pub legalize :
      TypeLegalizer
      → CatkType
      → L.LlvmType
      → CatkType
      → CatkType
      → L.Value
      → L.Value
      → Gen L.State (L.Value × L.Value)
  unfolding ◌>>=◌ pure lift match_ret_type match_ret_bits cast_v
  legalize tl_match_ret_type s_res_type res_type t0 t1 v0 v1 = do
    w0 ← match_ret_type s_res_type res_type v0
    w1 ← match_ret_type s_res_type res_type v1
    pure (w0, w1)
  legalize tl_match_ret_bits s_res_type res_type t0 t1 v0 v1 = do
    w0 ← match_ret_bits res_type t0 v0
    w1 ← match_ret_bits res_type t1 v1
    pure (w0, w1)
  legalize tl_by_bop_pri_cast s_res_type res_type t0 t1 v0 v1 = do
    p0 ← lift (as_primary t0)
    p1 ← lift (as_primary t1)
    w0 ← cast_v v0 t0 (bop_cast p0 p1).op0
    w1 ← cast_v v1 t1 (bop_cast p0 p1).op1
    pure (w0, w1)

  unfoldable pub run_handle :
      Option BopHandle
      → CatkType
      → L.LlvmType
      → CatkType
      → CatkType
      → L.Value
      → L.Value
      → Gen L.State L.Value
  unfolding ◌>>=◌ throw call legalize
  run_handle none s_res_type res_type t0 t1 v0 v1 = throw internal_bug
  run_handle (some h) s_res_type res_type t0 t1 v0 v1 = do
    (w0, w1) ← legalize h.type_legalizer s_res_type res_type t0 t1 v0 v1
    call (L.create h.handler w0 w1)

  -- A binary operator, once its operands have been translated; each operand stands with its type.
  unfoldable pub translate_bin_op :
      CatkType → L.LlvmType → BinOp → List (CatkType × L.Value) → Gen L.State L.Value
  unfolding ◌>>=◌ lift throw run_handle bin_op_handle
  translate_bin_op s_res_type res_type bop ((t0, v0) ∷ ((t1, v1) ∷ [])) = do
    h ← lift (bin_op_handle bop t0 t1)
    run_handle h s_res_type res_type t0 t1 v0 v1
  translate_bin_op s_res_type res_type bop _ = throw internal_bug
