-- ===== src/GenLlvm/CTypes.antt =====
-- src/catk/behavior/gen_llvm/utils.hpp: the types of LLVM for types of C++.
use casterisk.Prelude.{◌≡◌, ◌∙◌, ap, refl, List, [], ◌∷◌, Option, none, some}
use casterisk.Outcome.{Outcome, ok, raised, internal_bug, ◌>>=◌}
use casterisk.Semantics.PrimaryType.{
  PrimaryType, int8, uint8, int16, uint16, int32, uint32, int64, uint64,
}
use casterisk.GenLlvm.Builder.{Llvm, translate_primary}
use casterisk.GenLlvm.Session.{DriverBuilder}

-- The types that `CToLLVMType` tells apart.
mutual
  pub data CType : Type 0 where
    c_int8 c_int16 c_int32 c_int64 c_uint8 c_uint16 c_uint32 c_uint64 : CType
    c_pointer : CType → CType
    c_void : CType
    c_function : (ret : CType) → (args : CTypes) → CType
    c_other : CType

  pub data CTypes : Type 0 where
    c_none : CTypes
    c_more : CType → CTypes → CTypes

module _ (L : Llvm) (K : DriverBuilder L) where
  unfoldable mutual
    -- `CToLLVMType`
    pub get_llvm_type : CType → Outcome L.LlvmType
    get_llvm_type c_int8 = ok (L.get_int_ty 8)
    get_llvm_type c_int16 = ok (L.get_int_ty 16)
    get_llvm_type c_int32 = ok (L.get_int_ty 32)
    get_llvm_type c_int64 = ok (L.get_int_ty 64)
    get_llvm_type c_uint8 = ok (L.get_int_ty 8)
    get_llvm_type c_uint16 = ok (L.get_int_ty 16)
    get_llvm_type c_uint32 = ok (L.get_int_ty 32)
    get_llvm_type c_uint64 = ok (L.get_int_ty 64)
    get_llvm_type (c_pointer t) = do x ← get_llvm_type t; ok (K.get_pointer_to x)
    get_llvm_type c_void = ok K.get_void_ty
    get_llvm_type (c_function ret args) = do
      r ← get_llvm_type ret
      ts ← get_llvm_types args
      ok (K.function_as_type (K.get_function_type r ts))
    get_llvm_type c_other = raised internal_bug

    pub get_llvm_types : CTypes → Outcome (List L.LlvmType)
    get_llvm_types c_none = ok []
    get_llvm_types (c_more t ts) = do x ← get_llvm_type t; xs ← get_llvm_types ts; ok (x ∷ xs)

  -- `get_llvm_type` of the type of a function, cast to one.
  unfoldable pub get_function_type : CType → CTypes → Outcome K.FuncType
  unfolding get_llvm_type
  get_function_type ret args = do
    r ← get_llvm_type ret
    ts ← get_llvm_types args
    ok (K.get_function_type r ts)

-- The C++ type that holds a constant of a type of integers.
abbrev pub storage_type : PrimaryType → Option CType
storage_type int8 = some c_int8
storage_type int16 = some c_int16
storage_type int32 = some c_int32
storage_type int64 = some c_int64
storage_type uint8 = some c_uint8
storage_type uint16 = some c_uint16
storage_type uint32 = some c_uint32
storage_type uint64 = some c_uint64
storage_type _ = none

abbrev Matches : (L : Llvm) (K : DriverBuilder L) → Option CType → Outcome L.LlvmType → Type 0
Matches L K none r = Unit {0}
Matches L K (some t) r = get_llvm_type L K t ≡ r

swap : {x t : CType} → some x ≡ some t → t ≡ x
swap h = cc

matching :
    (L : Llvm) (K : DriverBuilder L) (o : Option CType) (r : Outcome L.LlvmType)
    → Matches L K o r
    → (t : CType) → o ≡ some t
    → get_llvm_type L K t ≡ r
matching L K none r m t h = absurd cc
matching L K (some x) r m t h = ap (get_llvm_type L K) (swap h) ∙ m

tables-Matches :
    (L : Llvm) (K : DriverBuilder L) (p : PrimaryType)
    → Matches L K (storage_type p) (translate_primary L p)
unfolding get_llvm_type
tables-Matches L K int8 = refl
tables-Matches L K uint8 = refl
tables-Matches L K int16 = refl
tables-Matches L K uint16 = refl
tables-Matches L K int32 = refl
tables-Matches L K uint32 = refl
tables-Matches L K int64 = refl
tables-Matches L K uint64 = refl
tables-Matches L K _ = tt

-- For a type of integers, the driver's two tables give one type of LLVM: the table for the C++ type that
-- holds its constants, and the table for the type itself.
pub get_llvm_type-primary :
    (L : Llvm) (K : DriverBuilder L) (p : PrimaryType) (t : CType)
    → storage_type p ≡ some t
    → get_llvm_type L K t ≡ translate_primary L p
get_llvm_type-primary L K p t h =
    matching L K (storage_type p) (translate_primary L p) (tables-Matches L K p) t h
