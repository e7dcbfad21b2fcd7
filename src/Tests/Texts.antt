-- ===== src/Tests/Texts.antt =====
-- Escaped texts, the indenting stream, types and operators.
use casterisk.Prelude.{◌≡◌, refl, ◌⊎◌, ◌↔◌, ◌≤◌, true, false, [], ◌∷◌, ◌++◌, some, Text, codes}
use casterisk.Prelude.Int.{pos, ◌+ℤ◌}
use casterisk.Outcome.{ok, raised, out_of_range, assert_failed}
use casterisk.Io.FmtDevice.{FmtDevice, fmt_device, add_indent, write_indent, write}
use casterisk.Io.FmtDevice.Reference.{put_bytes}
use casterisk.Io.FmtDevice.Lines.{write_chunks, joined, write-put_bytes, write_chunks-joined}
use casterisk.Utils.Escape.{escape}
use casterisk.Utils.Escape.Decode.{plain, decode}
use casterisk.Utils.Escape.RoundTrip.{escape-decode, escape-injective}
use casterisk.Semantics.PrimaryType.{
  ordinal, int32, uint32, int64, is_int, is_unsigned_int, is_signed_int, is_same_int_bits,
  is_same_int_signed,
}
use casterisk.Semantics.PrimaryType.Laws.{is_unsigned_int-never, same_int_iff}
use casterisk.Semantics.Op.{
  bop_le, uop_addrof, ast_str_to_binop, ast_str_to_unaryop, binop_to_string, unaryop_to_string,
}
use casterisk.Semantics.Op.Spelling.{ast_str_to_binop_iff, ast_str_to_unaryop_iff}
use casterisk.Semantics.PrimaryUnion.{int_value}
use casterisk.Semantics.PrimaryUnion.Tags.{bits16, int_tag_text, int_value-int_tag_text}
use casterisk.Tests.Trees.{zeros}
use casterisk.Typing.OpCast.{bop_cast, bop_cast_least, bop_cast_semilattice}

-- A device that indents by two.
abbrev two_spaces : FmtDevice
unfolding fmt_device add_indent
two_spaces = add_indent (pos 2) (fmt_device [])

-- The chunks of the test io_test.fmt_stream.
fmt_stream_output : (write two_spaces (codes "xxxyyymmm\nkkk")).0.out ≡ codes "  xxxyyymmm\n  kkk"
unfolding write two_spaces write_indent ◌+ℤ◌
fmt_stream_output = refl

write-put_bytes_example : write two_spaces (codes "a\nb") ≡ (put_bytes two_spaces (codes "a\nb"), 3)
write-put_bytes_example = write-put_bytes two_spaces b'a' (codes "\nb")

write_chunks-joined_example :
    write_chunks two_spaces ((b'a', codes "\n") ∷ ((b'b', []) ∷ []))
    ≡ put_bytes two_spaces (joined ((b'a', codes "\n") ∷ ((b'b', []) ∷ [])))
write_chunks-joined_example =
    write_chunks-joined two_spaces ((b'a', codes "\n") ∷ ((b'b', []) ∷ []))

escape_output : escape [] (codes "a\"\n\\") ≡ codes "a\\\"\\n\\\\"
unfolding escape
escape_output = refl

escape-decode_example :
    (e : Text) × (escape [] (codes "\"") ≡ [] ++ e) × (decode plain e ≡ some (codes "\""))
escape-decode_example = escape-decode [] (codes "\"")

escape-injective_example : codes "x" ≡ codes "x"
escape-injective_example = escape-injective [] (codes "x") (codes "x") refl

is_unsigned_int-never_example :
    (is_unsigned_int uint32 ≡ false) × (is_signed_int uint32 ≡ is_int uint32)
is_unsigned_int-never_example = is_unsigned_int-never uint32

same_int_iff_example :
    ((is_same_int_bits int32 int32 ≡ true) × (is_same_int_signed int32 int32 ≡ true))
    ↔ ((int32 ≡ int32) × (is_int int32 ≡ true))
same_int_iff_example = same_int_iff int32 int32

ast_str_to_binop_iff_example :
    (ast_str_to_binop (codes "<=") ≡ ok bop_le) ↔ (codes "<=" ≡ binop_to_string bop_le)
ast_str_to_binop_iff_example = ast_str_to_binop_iff (codes "<=") bop_le

ast_str_to_unaryop_iff_example :
    (ast_str_to_unaryop (codes "&") ≡ ok uop_addrof) ↔ (codes "&" ≡ unaryop_to_string uop_addrof)
ast_str_to_unaryop_iff_example = ast_str_to_unaryop_iff (codes "&") uop_addrof

unknown_operator : ast_str_to_binop (codes "**") ≡ raised out_of_range
unfolding ast_str_to_binop
unknown_operator = refl

bop_cast_least_example :
    let r = bop_cast int32 uint32 in
    (r.op0 ≡ r.op1)
    × ((r.op0 ≡ int32) ⊎ (r.op0 ≡ uint32))
    × (ordinal int32 ≤ ordinal r.op0)
    × (ordinal uint32 ≤ ordinal r.op0)
bop_cast_least_example = bop_cast_least int32 uint32

bop_cast_semilattice_example :
    (bop_cast int32 uint32 ≡ bop_cast uint32 int32)
    × (bop_cast (bop_cast int32 uint32).op0 int64 ≡ bop_cast int32 (bop_cast uint32 int64).op0)
bop_cast_semilattice_example = bop_cast_semilattice int32 uint32 int64

int_value-int_tag_text_example :
    int_value zeros (int_tag_text true bits16) (codes "7") ≡ raised assert_failed
int_value-int_tag_text_example = int_value-int_tag_text zeros true bits16 (codes "7")
