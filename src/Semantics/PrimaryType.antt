-- ===== src/Semantics/PrimaryType.antt =====
-- src/catk/semantics/utils.hpp: the primary types and the tests on them.
pub mod Laws
use Prim.Native.Nat.{bit_and}
use casterisk.Prelude.{ℕ, ◌/◌, ◌^◌, Bool, true, false, ◌&&◌, ◌||◌, not, ltb, ◌==◌, if◌then◌else◌}

pub data PrimaryType : Type 0 where
  bool ubool int8 uint8 int16 uint16 int32 uint32 int64 uint64 : PrimaryType
  float32 float64 string pt_end : PrimaryType

-- The value of the enumerator.
abbrev pub ordinal : PrimaryType → ℕ
ordinal bool = 0
ordinal ubool = 1
ordinal int8 = 2
ordinal uint8 = 3
ordinal int16 = 4
ordinal uint16 = 5
ordinal int32 = 6
ordinal uint32 = 7
ordinal int64 = 8
ordinal uint64 = 9
ordinal float32 = 10
ordinal float64 = 11
ordinal string = 12
ordinal pt_end = 13

unfoldable pub is_int : PrimaryType → Bool
is_int t = ltb (ordinal t) (ordinal float32)

-- A C++ `bool` as an operand of `&`, and an integer as a condition.
abbrev bool_value : Bool → ℕ
bool_value b = if b then 1 else 0

abbrev nonzero : ℕ → Bool
nonzero n = not (n == 0)

-- `is_int(t) && (t & 1 == 0)`: in C++ `==` binds tighter than `&`.
unfoldable pub is_unsigned_int : PrimaryType → Bool
unfolding is_int
is_unsigned_int t = is_int t && nonzero (bit_and (ordinal t) (bool_value (1 == 0)))

unfoldable pub is_signed_int : PrimaryType → Bool
unfolding is_int is_unsigned_int
is_signed_int t = is_int t && not (is_unsigned_int t)

unfoldable pub is_float : PrimaryType → Bool
is_float t = ordinal t == ordinal float32 || ordinal t == ordinal float64

unfoldable pub is_same_int_signed : PrimaryType → PrimaryType → Bool
unfolding is_int
is_same_int_signed t0 t1 =
    if not (is_int t0 && is_int t1) then false else bit_and (ordinal t0) 1 == bit_and (ordinal t1) 1

unfoldable pub is_same_int_bits : PrimaryType → PrimaryType → Bool
unfolding is_int
is_same_int_bits t0 t1 =
    if not (is_int t0 && is_int t1) then false else ordinal t0 / 2 ^ 1 == ordinal t1 / 2 ^ 1
