-- ===== src/Io/FmtDevice.antt =====
-- src/catk/io/fmt_stream.{hpp,cpp}: `FmtDevice`, a sink that puts an indentation in front of each
-- line, and the manipulators that set it up. The `std::ostream` behind the device is the text
-- written to it so far.
pub mod Reference
pub mod Lines
use casterisk.Prelude.{
  ℕ, zero, suc, ◌+◌, ◌-◌, Bool, true, false, List, [], ◌∷◌, ◌++◌, Text, ◌==◌, if◌then◌else◌, length,
  take, drop, ltb,
}
use casterisk.Prelude.Int.{ℤ, pos, negsuc, ◌+ℤ◌, ◌-ℤ◌, pos_part}

pub data State : Type 0 where
  direct_print need_indent : State

pub record FmtDevice : Type 0 where
  pub indent : ℤ
  pub indent_symbol : Text
  pub line_delim : ℕ
  pub state : State
  pub out : Text

-- The constructor: no indentation, a space for the symbol, and a newline for the delimiter.
unfoldable pub fmt_device : Text → FmtDevice
fmt_device out = record {
  indent = pos 0;
  indent_symbol = 32 ∷ [];
  line_delim = 10;
  state = need_indent;
  out = out;
}

unfoldable pub set_indent : ℤ → FmtDevice → FmtDevice
set_indent n d = record d { indent = n }

unfoldable pub add_indent : ℤ → FmtDevice → FmtDevice
add_indent n d = record d { indent = d.indent +ℤ n }

unfoldable pub sub_indent : ℤ → FmtDevice → FmtDevice
sub_indent n d = record d { indent = d.indent -ℤ n }

unfoldable pub set_indent_symbol : Text → FmtDevice → FmtDevice
set_indent_symbol s d = record d { indent_symbol = s }

unfoldable pub set_line_delim : ℕ → FmtDevice → FmtDevice
set_line_delim c d = record d { line_delim = c }

-- `for (int i = 0; i < indent_; ++i) out_ << indent_symbol_;`
unfoldable pub indent_loop : ℕ → Text → Text → Text
indent_loop zero symbol out = out
indent_loop (suc rounds) symbol out = indent_loop rounds symbol (out ++ symbol)

-- A negative `indent_` makes no round.
unfoldable pub write_indent : FmtDevice → Text → Text
unfolding indent_loop
write_indent d out = indent_loop (pos_part d.indent) d.indent_symbol out

-- `line_delim_poss`: the offsets, from `i` on, at which the delimiter stands.
unfoldable pub delim_positions : ℕ → ℕ → Text → List ℕ
delim_positions delim i [] = []
delim_positions delim i (c ∷ cs) =
    let later = delim_positions delim (i + 1) cs in if c == delim then i ∷ later else later

-- `out_.write(s + from, size)`
abbrev pub slice : Text → ℕ → ℕ → Text
slice s from size = take size (drop from s)

-- The variables of the loop over the delimiters.
pub record LineLoop : Type 0 where
  pub last_beg : ℕ
  pub pending : Bool
  pub written : Text

-- One round, for the delimiter at offset `ptr`; `pending` is `need_indent`.
unfoldable pub line_round : FmtDevice → Text → LineLoop → ℕ → LineLoop
line_round d s l ptr =
    let out = if l.pending then write_indent d l.written else l.written in
    let line_size = ptr - l.last_beg + 1 in
    record {
      last_beg = l.last_beg + line_size;
      pending = true;
      written = out ++ slice s l.last_beg line_size;
    }

unfoldable pub line_loop : FmtDevice → Text → LineLoop → List ℕ → LineLoop
line_loop d s l [] = l
line_loop d s l (ptr ∷ ptrs) = line_loop d s (line_round d s l ptr) ptrs

-- What follows the loop: the rest behind the last delimiter, and the state for the next write.
unfoldable pub write_rest : FmtDevice → Text → LineLoop → FmtDevice
write_rest d s l =
    if l.last_beg == length s
    then record d { state = if l.pending then need_indent else direct_print; out = l.written }
    else record d {
      state = direct_print;
      out =
          (if l.pending then write_indent d l.written else l.written)
          ++ slice s l.last_beg (length s - l.last_beg);
    }

abbrev pub is_need_indent : State → Bool
is_need_indent need_indent = true
is_need_indent direct_print = false

-- `FmtDevice::write`; it returns the number of bytes that it was given.
unfoldable pub write : FmtDevice → Text → FmtDevice × ℕ
unfolding write_rest line_loop line_round delim_positions
write d s =
    let out = if is_need_indent d.state then write_indent d d.out else d.out in
    let start : LineLoop = record { last_beg = 0; pending = false; written = out } in
    (write_rest d s (line_loop d s start (delim_positions d.line_delim 0 s)), length s)
