-- ===== src/Semantics/PrimaryType/Laws.antt =====
-- The tests on primary types against one another.
use Prim.Native.Nat.{bit_and}
use casterisk.Prelude.{◌%◌, ◌≡◌, refl, true, false, subst, arith, ◌↔◌}
use casterisk.Semantics.PrimaryType.{
  PrimaryType, ordinal, bool, is_int, is_unsigned_int, is_signed_int, is_same_int_signed,
  is_same_int_bits,
}

-- No type counts as an unsigned integer, so every integer type counts as a signed one, `uint8` to
-- `uint64` included.
pub is_unsigned_int-never :
    (t : PrimaryType) → (is_unsigned_int t ≡ false) × (is_signed_int t ≡ is_int t)
unfolding is_int is_unsigned_int is_signed_int
is_unsigned_int-never bool = (refl, refl)
is_unsigned_int-never _ = (refl, refl)

pub ordinal-injective : (s t : PrimaryType) → ordinal s ≡ ordinal t → s ≡ t
ordinal-injective s t h = ground arith

low_bit : (s : PrimaryType) → bit_and (ordinal s) 1 ≡ ordinal s % 2
low_bit bool = refl
low_bit _ = refl

eq_of_same_int :
    (s t : PrimaryType) → is_same_int_bits s t ≡ true → is_same_int_signed s t ≡ true → s ≡ t
unfolding is_same_int_signed is_same_int_bits
eq_of_same_int s t h k = ordinal-injective s t (ground (arith, low_bit s, low_bit t))

is_int_of_same : (s t : PrimaryType) → is_same_int_bits s t ≡ true → is_int s ≡ true
unfolding is_same_int_bits
is_int_of_same s t h = ground arith

same_int_self :
    (s : PrimaryType)
    → is_int s ≡ true
    → (is_same_int_bits s s ≡ true) × (is_same_int_signed s s ≡ true)
unfolding is_same_int_signed is_same_int_bits
same_int_self s h = ground arith

-- Two types have the same bits and the same signedness exactly when they are one integer type.
pub same_int_iff :
    (s t : PrimaryType)
    → ((is_same_int_bits s t ≡ true) × (is_same_int_signed s t ≡ true))
      ↔ ((s ≡ t) × (is_int s ≡ true))
same_int_iff s t = (
  λ (bits, signed). (eq_of_same_int s t bits signed, is_int_of_same s t bits),
  λ (e, int).
      subst (λ (u : PrimaryType). (is_same_int_bits s u ≡ true) × (is_same_int_signed s u ≡ true)) e
        (same_int_self s int),
)
