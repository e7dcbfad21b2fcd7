-- ===== src/Io/Manipulators.antt =====
-- src/catk/io/fmt_stream.hpp: the manipulators that set up the device of a `FmtStream`.
use casterisk.Prelude.{ℕ, Bool, true, false, Text}
use casterisk.Prelude.Int.{ℤ}
use casterisk.Outcome.{Outcome, ok, internal_bug, raised, rt_assert, ◌>>◌}
use casterisk.Io.FmtDevice.{
  FmtDevice, set_indent, add_indent, sub_indent, set_indent_symbol, set_line_delim,
}

-- `IndentOp`
pub data IndentOp : Type 0 where
  ido_set_n ido_add_n ido_sub_n ido_set_isym ido_set_ldelim : IndentOp

-- `Indent<T>`, for the types that it is made with.
pub data Indent : Type 0 where
  indent_int : IndentOp → ℤ → Indent
  indent_string : IndentOp → Text → Indent
  indent_char : IndentOp → ℕ → Indent

abbrev pub set_indent_manip : ℤ → Indent
set_indent_manip n = indent_int ido_set_n n

abbrev pub add_indent_manip : ℤ → Indent
add_indent_manip n = indent_int ido_add_n n

abbrev pub sub_indent_manip : ℤ → Indent
sub_indent_manip n = indent_int ido_sub_n n

abbrev pub set_indent_symbol_manip : Text → Indent
set_indent_symbol_manip s = indent_string ido_set_isym s

abbrev pub set_line_delim_manip : ℕ → Indent
set_line_delim_manip c = indent_char ido_set_ldelim c

abbrev is_set_isym : IndentOp → Bool
is_set_isym ido_set_isym = true
is_set_isym _ = false

abbrev is_set_ldelim : IndentOp → Bool
is_set_ldelim ido_set_ldelim = true
is_set_ldelim _ = false

-- `operator<<` of a manipulator, once what was buffered has been written.
unfoldable pub manipulate : Indent → FmtDevice → Outcome FmtDevice
unfolding set_indent add_indent sub_indent set_indent_symbol set_line_delim
manipulate (indent_string op s) d = do rt_assert (is_set_isym op); ok (set_indent_symbol s d)
manipulate (indent_char op c) d = do rt_assert (is_set_ldelim op); ok (set_line_delim c d)
manipulate (indent_int ido_set_n n) d = ok (set_indent n d)
manipulate (indent_int ido_add_n n) d = ok (add_indent n d)
manipulate (indent_int ido_sub_n n) d = ok (sub_indent n d)
manipulate (indent_int _ n) d = raised internal_bug
