-- ===== src/Semantics/PrimaryUnion/Tags.antt =====
-- src/catk/syntax/expr.hpp: the texts that the grammar takes for the tag of an integer literal, and
-- what `IntLiteral::interpret` makes of them.
use casterisk.Prelude.{ℕ, ◌≡◌, refl, Bool, true, false, Text, codes, ◌++◌, if◌then◌else◌}
use casterisk.Prelude.Int.{ℤ}
use casterisk.Outcome.{ok, raised, assert_failed, ◌>>=◌}
use casterisk.Semantics.PrimaryUnion.{PrimaryUnion, int8, int16, int32, int64, Numerals, int_value}

pub data TagBits : Type 0 where
  bits8 bits16 bits32 bits64 : TagBits

abbrev pub bits_text : TagBits → Text
bits_text bits8 = codes "8"
bits_text bits16 = codes "16"
bits_text bits32 = codes "32"
bits_text bits64 = codes "64"

-- The rule `IntTag`: an optional `u`, an `i`, and the number of bits.
abbrev pub int_tag_text : Bool → TagBits → Text
int_tag_text unsigned b = (if unsigned then codes "u" else codes "") ++ (codes "i" ++ bits_text b)

abbrev pub bits : TagBits → ℕ
bits bits8 = 8
bits bits16 = 16
bits bits32 = 32
bits bits64 = 64

abbrev pub signed_value : TagBits → ℤ → PrimaryUnion
signed_value bits8 v = int8 v
signed_value bits16 v = int16 v
signed_value bits32 v = int32 v
signed_value bits64 v = int64 v

-- Of the tags that the grammar takes, those without `u` convert the literal to a signed integer of
-- their number of bits, and those with `u` all end in the failed assertion.
pub int_value-int_tag_text :
    (num : Numerals) (unsigned : Bool) (b : TagBits) (content : Text)
    → int_value num (int_tag_text unsigned b) content ≡ (
        if unsigned
        then raised assert_failed
        else num.cast_signed (bits b) content >>= λ v. ok (signed_value b v))
unfolding int_value
int_value-int_tag_text num true bits8 content = refl
int_value-int_tag_text num true _ content = refl
int_value-int_tag_text num false bits8 content = refl
int_value-int_tag_text num false _ content = refl
