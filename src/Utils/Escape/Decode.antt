-- ===== src/Utils/Escape/Decode.antt =====
-- A reader of escaped texts, written independently of `escape`: it refuses a bare quote, a bare
-- control character and an unknown escape.
use casterisk.Prelude.{
  ℕ, ◌+◌, ◌-◌, ◌*◌, Option, none, some, [], ◌∷◌, ◌++◌, Text, ◌==◌, if◌then◌else◌, ltb, ◌&&◌, leb,
}

-- Between bytes, behind a backslash, or behind `\u` with `left` digits to come and the value so far.
pub data Mode : Type 0 where
  plain : Mode
  escaped : Mode
  hex : (left : ℕ) (value : ℕ) → Mode

unfoldable pub hex_value : ℕ → Option ℕ
hex_value c =
    if leb b'0' c && leb c b'9'
    then some (c - b'0')
    else if leb b'a' c && leb c b'f'
    then some (c - b'a' + 10)
    else none

abbrev emit : ℕ → Option (Mode × Text)
emit c = some (plain, c ∷ [])

unfoldable pub read_escape : ℕ → Option (Mode × Text)
read_escape c =
    if c == b'\\'
    then emit b'\\'
    else if c == b'"'
    then emit b'"'
    else if c == b'b'
    then emit 8
    else if c == b'f'
    then emit 12
    else if c == b'n'
    then emit 10
    else if c == b'r'
    then emit 13
    else if c == b't'
    then emit 9
    else if c == b'u'
    then some (hex 3 0, [])
    else none

-- One byte: the next mode, and what has been read.
unfoldable pub read : Mode → ℕ → Option (Mode × Text)
unfolding hex_value read_escape
read plain c =
    if c == b'\\'
    then some (escaped, [])
    else if c == b'"'
    then none
    else if ltb c 32
    then none
    else if c == 127
    then none
    else emit c
read escaped c = read_escape c
read (hex left value) c = elim (hex_value c) [
  | none ↦ none
  | some v ↦ if left == 0 then emit (value * 16 + v) else some (hex (left - 1) (value * 16 + v), [])
]

-- The text in front of what was read.
abbrev pub prepend : Text → Option Text → Option Text
prepend t none = none
prepend t (some r) = some (t ++ r)

-- A text may end between bytes only.
abbrev pub finish : Mode → Option Text
finish plain = some []
finish _ = none

unfoldable pub decode : Mode → Text → Option Text
decode m [] = finish m
decode m (c ∷ cs) = elim (read m c) [ none ↦ none | some (m', t) ↦ prepend t (decode m' cs) ]
