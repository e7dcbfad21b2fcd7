-- ===== src/Tests/Typed.antt =====
-- The table of types, and the choice of instructions.
use casterisk.Prelude.{ltb, ◌≡◌, ◌↔◌, refl, ◌==◌, suc, ◌||◌, ℕ, [], ◌∷◌, none, codes}
use casterisk.Table.{find}
use casterisk.Outcome.{ok, raised, internal_bug}
use casterisk.Semantics.PrimaryType.{is_int, is_float, int8, uint8, int32, uint64, int64, float32}
use casterisk.Semantics.Op.{bop_add, bop_div}
use casterisk.Typing.OpCast.{bop_cast}
use casterisk.Typing.Described.{bin_op_type}
use casterisk.Typing.Types.{primary}
use casterisk.Typing.Types.Intern.{
  TypeTable, IsInterned, get_type, get_type-IsInterned, get_type_same_iff,
}
use casterisk.Typing.Types.Instances.{
  IsPlainId, is_plain_id-IsPlainId, serialize_instance-injective,
}
use casterisk.GenLlvm.Builder.{translate_primary, Llvm, HasFloats}
use casterisk.GenLlvm.BinOps.{bin_op_handle}
use casterisk.GenLlvm.UnaryOps.{
  UnaryBuilder, HasConstants, Agrees, translate_constant, translate_constant-Agrees,
}
use casterisk.Semantics.PrimaryUnion as U
use casterisk.Typing.Typer.{Typer}
use casterisk.Typing.Operands.{constant_type}
use casterisk.GenLlvm.Legalize.{translate_bin_op}
use casterisk.GenLlvm.Accepted.{typed, bin_op_handle-signedness}
use casterisk.GenLlvm.Translates.{translate_bin_op-returns, translate_bin_op-refused}

abbrev pub no_types : TypeTable
no_types = record { types = λ p. none; next = 0; internal = [] }

pub no_types-IsInterned : IsInterned no_types
unfolding find
no_types-IsInterned = record { below = λ id p h. absurd (cc); named = λ id p h. absurd (cc) }

get_type-IsInterned_example : IsInterned (get_type (codes "2_pmt") (primary int8) no_types).1
get_type-IsInterned_example =
    get_type-IsInterned (codes "2_pmt") (primary int8) no_types no_types-IsInterned

get_type_same_iff_example :
    let first = get_type (codes "2_pmt") (primary int8) no_types in
    (first.0 ≡ (get_type (codes "3_pmt") (primary uint8) first.1).0)
    ↔ (codes "2_pmt" ≡ codes "3_pmt")
get_type_same_iff_example =
    get_type_same_iff (codes "2_pmt") (codes "3_pmt") (primary int8) (primary uint8) no_types
      no_types-IsInterned

abbrev no_typer : Typer
no_typer = record {
  exprs = record { cell = λ p. none; next = 0; current = none };
  table = no_types;
  expr_type = λ p. none;
  def_to_inst = [];
  null_type = none;
}

-- A builder that counts its calls, with a number of bits for the type of a value, and 100 and 101 for
-- the types of floating-point numbers.
abbrev pub counter : Llvm
counter = record {
  Value = ℕ;
  LlvmType = ℕ;
  State = ℕ;
  create = λ h v w n. (v, suc n);
  cast = λ c v t n. (t, suc n);
  type_of = λ v. v;
  same_type = λ t u. t == u;
  is_floating_point_ty = λ t. t == 100 || t == 101;
  integer_bit_width = λ t. t;
  get_int_ty = λ n. n;
  get_float_ty = 100;
  get_double_ty = 101;
}

counter-HasFloats : HasFloats counter
counter-HasFloats = record { float = refl; double = refl }

bin_op_handle-signedness_example :
    bin_op_handle bop_div (typed (codes "a") uint64) (typed (codes "b") uint64)
    ≡ bin_op_handle bop_div (typed (codes "a") int64) (typed (codes "b") int64)
unfolding is_int
bin_op_handle-signedness_example =
    bin_op_handle-signedness (codes "a") (codes "b") bop_div uint64 uint64 int64 int64 refl refl
      refl refl

translate_bin_op-returns_example :
    (r : ℕ × ℕ) × (translate_bin_op counter
        (typed (codes "c") (bin_op_type bop_add int8 int32))
        32
        bop_add
        ((typed (codes "a") int8, 8) ∷ ((typed (codes "b") int32, 32) ∷ []))
        0
      ≡ ok r)
unfolding is_int bop_cast bin_op_type
translate_bin_op-returns_example =
    translate_bin_op-returns counter counter-HasFloats (codes "a") (codes "b") (codes "c") bop_add
      int8 int32 32 8 32 0 refl refl

translate_bin_op-refused_example :
    translate_bin_op counter
      (typed (codes "c") float32)
      100
      bop_add
      ((typed (codes "a") int8, 8) ∷ ((typed (codes "b") float32, 100) ∷ []))
      0
    ≡ raised internal_bug
unfolding is_int is_float
translate_bin_op-refused_example =
    translate_bin_op-refused counter (codes "a") (codes "b") bop_add int8 float32
      (typed (codes "c") float32) 100 8 100 0 refl refl refl

-- A constant is its number of bits.
abbrev pub counter_unary : UnaryBuilder counter
counter_unary = record {
  is_integer_ty = λ t. ltb t 100;
  create_not = λ v n. (v, suc n);
  create_icmp_eq = λ v w n. (1, suc n);
  create_load = λ t v n. (t, suc n);
  get_int_n = λ bits value. bits;
  get_pointer_operand = λ v. none;
  get_unsigned = λ bits value. bits;
  get_signed = λ bits value. bits;
  get_float = λ value. 100;
  get_double = λ value. 101;
}

counter-HasConstants : HasConstants counter counter_unary
counter-HasConstants = record {
  unsigned = λ bits value. refl;
  signed = λ bits value. refl;
  float = λ value. refl;
  double = λ value. refl;
}

translate_constant-Agrees_example :
    Agrees counter
      (translate_constant counter counter_unary (U.uint16 7))
      (translate_primary counter (constant_type (U.uint16 7)))
translate_constant-Agrees_example =
    translate_constant-Agrees counter counter_unary counter-HasConstants (U.uint16 7)

int8_id-IsPlainId : IsPlainId (codes "2_pmt")
int8_id-IsPlainId = is_plain_id-IsPlainId (codes "2_pmt") refl

serialize_instance-injective_example :
    (codes "2_pmt" ∷ (codes "2_pmt" ∷ [])) ≡ (codes "2_pmt" ∷ (codes "2_pmt" ∷ []))
serialize_instance-injective_example =
    serialize_instance-injective (codes "ctx4") (codes "2_pmt" ∷ (codes "2_pmt" ∷ []))
      (codes "2_pmt" ∷ (codes "2_pmt" ∷ [])) (int8_id-IsPlainId, (int8_id-IsPlainId, tt))
      (int8_id-IsPlainId, (int8_id-IsPlainId, tt)) refl
