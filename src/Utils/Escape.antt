-- ===== src/Utils/Escape.antt =====
-- src/catk/utils.hpp: `escape`, which writes a text as the body of a quoted label of the dot output.
pub mod Decode
pub mod RoundTrip
pub mod Quoted
use Prim.Native.Nat.{bit_and}
use casterisk.Prelude.{
  ℕ, ◌+◌, ◌/◌, ◌^◌, Option, none, some, [], ◌∷◌, ◌++◌, Text, codes, ◌==◌, if◌then◌else◌, ltb,
  get_or,
}

-- `h[ i ]`, for `h = "0123456789abcdef"`. The index is a nibble, so it is in range.
abbrev pub hex_digit : ℕ → ℕ
hex_digit i = get_or (codes "0123456789abcdef") i 0

-- The `switch` on a control character.
unfoldable pub escape_control : ℕ → Text
escape_control c =
    if c == 8
    then codes "\\b"
    else if c == 12
    then codes "\\f"
    else if c == 10
    then codes "\\n"
    else if c == 13
    then codes "\\r"
    else if c == 9
    then codes "\\t"
    else codes "\\u00" ++ hex_digit (bit_and c 0xf0 / 2 ^ 4) ∷ hex_digit (bit_and c 0x0f) ∷ []

-- The text that stands for the byte, or none where the loop only moves on.
unfoldable pub escape_char : ℕ → Option Text
unfolding escape_control
escape_char c =
    if c == b'\\'
    then some (codes "\\\\")
    else if c == b'"'
    then some (codes "\\\"")
    else if ltb c 32
    then some (escape_control c)
    else if c == 127
    then some (codes "\\u007f")
    else none

-- The loop: `run` is what lies between `l` and `p`, which is written when a byte needs an escape and
-- at the end.
unfoldable pub escape_loop : Text → Text → Text → Text
escape_loop os run [] = os ++ run
escape_loop os run (c ∷ rest) = elim (escape_char c) [
  | some e ↦ escape_loop (os ++ (run ++ e)) [] rest
  | none ↦ escape_loop os (run ++ c ∷ []) rest
]

unfoldable pub escape : Text → Text → Text
unfolding escape_loop escape_char
escape os s = escape_loop os [] s
