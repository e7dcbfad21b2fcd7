-- ===== src/Utils/Escape/RoundTrip.antt =====
-- Reading back what `escape` wrote.
use casterisk.Prelude.{
  ℕ, ◌<◌, ◌≡◌, refl, ◌∙◌, ap, Bool, true, false, Option, none, some, [], ◌∷◌, ◌++◌, Text,
  append_assoc, Bool-cases, inl, inr, ltb, ◌==◌, ltb→lt, ==_iff, text_eq, text_eq→eq, table,
  table-lookup, append-nil, sym, drop, drop-append_length, length, Option-cases,
}
use mathlib.Core.Option.{some-injective}
use casterisk.Utils.Escape.{escape_control, escape_char, escape_loop, escape}
use casterisk.Utils.Escape.Decode.{Mode, plain, escaped, hex, read, decode, prepend}

prepend-prepend : (s t : Text) (o : Option Text) → prepend s (prepend t o) ≡ prepend (s ++ t) o
prepend-prepend s t none = refl
prepend-prepend s t (some r) = ap some (rw append_assoc)

-- `decode` up to a point, where the mode need not be `plain`.
abbrev prepend_read : Text → Option (Mode × Text) → Option (Mode × Text)
prepend_read t none = none
prepend_read t (some (m, r)) = some (m, t ++ r)

read_all : Mode → Text → Option (Mode × Text)
read_all m [] = some (m, [])
read_all m (c ∷ cs) = elim (read m c) [
  | none ↦ none
  | some (m', t) ↦ prepend_read t (read_all m' cs)
]

abbrev then_decode : Option (Mode × Text) → Text → Option Text
then_decode none rest = none
then_decode (some (m, t)) rest = prepend t (decode m rest)

then_decode-prepend_read :
    (t : Text) (o : Option (Mode × Text)) (rest : Text)
    → prepend t (then_decode o rest) ≡ then_decode (prepend_read t o) rest
then_decode-prepend_read t none rest = refl
then_decode-prepend_read t (some (m, r)) rest = prepend-prepend t r (decode m rest)

prepend-nil : (o : Option Text) → o ≡ prepend [] o
prepend-nil none = refl
prepend-nil (some r) = refl

decode-append : (m : Mode) (s rest : Text) → decode m (s ++ rest) ≡ then_decode (read_all m s) rest
unfolding read_all decode
decode-append m [] rest = prepend-nil (decode m rest)
decode-append m (c ∷ cs) rest = elim (Option-cases (read m c)) [
  | inl e ↦ rw (e, decode, read_all)
  | inr ((m', t), e) ↦
      rw (e, decode, read_all, decode-append m' cs rest)
        (then_decode-prepend_read t (read_all m' cs) rest)
]

-- The text that one byte becomes.
escaped_char : ℕ → Text
escaped_char c = elim (escape_char c) [ none ↦ c ∷ [] | some e ↦ e ]

-- `e` reads back as the byte `c`.
abbrev is_byte : ℕ → Option (Mode × Text) → Bool
is_byte c none = false
is_byte c (some (plain, t)) = text_eq t (c ∷ [])
is_byte c (some (escaped, t)) = false
is_byte c (some (hex left value, t)) = false

is_byte→eq : (c : ℕ) (o : Option (Mode × Text)) → is_byte c o ≡ true → o ≡ some (plain, c ∷ [])
is_byte→eq c none h = cc
is_byte→eq c (some (plain, t)) h = ap (λ (t : Text). some (plain, t)) (text_eq→eq t (c ∷ []) h)
is_byte→eq c (some (escaped, t)) h = cc
is_byte→eq c (some (hex left value, t)) h = cc

control_table : table (λ c. is_byte c (read_all plain (escape_control c))) 32 ≡ true
unfolding table read_all read escape_control text_eq
control_table = refl

read_all-control : (c : ℕ) → c < 32 → read_all plain (escape_control c) ≡ some (plain, c ∷ [])
read_all-control c h = is_byte→eq c _ (table-lookup _ 32 c h control_table)

read_all-escaped_char : (c : ℕ) → read_all plain (escaped_char c) ≡ some (plain, c ∷ [])
unfolding escaped_char escape_char read_all read
read_all-escaped_char c = elim (Bool-cases (c == b'\\')) [
  | inl h ↦ rw ((==_iff c b'\\').0 h)
  | inr n1 ↦ elim (Bool-cases (c == b'"')) [
    | inl h ↦ rw ((==_iff c b'"').0 h)
    | inr n2 ↦ elim (Bool-cases (ltb c 32)) [
      | inl h ↦ rw (n1, n2, h, escaped_char) (read_all-control c (ltb→lt c 32 h))
      | inr n3 ↦ elim (Bool-cases (c == 127)) [
        | inl h ↦ rw ((==_iff c 127).0 h)
        | inr n4 ↦ rw (n1, n2, n3, n4, escaped_char) (rw (n1, n2, n3, n4, read_all))
      ]
    ]
  ]
]

decode-escaped_char :
    (c : ℕ) (rest : Text)
    → decode plain (escaped_char c ++ rest) ≡ prepend (c ∷ []) (decode plain rest)
decode-escaped_char c rest =
    decode-append plain (escaped_char c) rest ∙ rw (read_all-escaped_char c)

-- The loop's output, byte by byte.
escaped_text : Text → Text
escaped_text [] = []
escaped_text (c ∷ cs) = escaped_char c ++ escaped_text cs

escape_loop-escaped_text : (os run s : Text) → escape_loop os run s ≡ os ++ (run ++ escaped_text s)
unfolding escape_loop escaped_text escaped_char
escape_loop-escaped_text os run [] = rw append-nil
escape_loop-escaped_text os run (c ∷ cs) = elim (Option-cases (escape_char c)) [
  | inl e ↦
      rw (e, escape_loop, escaped_char, escape_loop-escaped_text os (run ++ c ∷ []) cs)
        (simp append_assoc)
  | inr (t, e) ↦
      rw (e, escape_loop, escaped_char, escape_loop-escaped_text (os ++ (run ++ t)) [] cs)
        (simp append_assoc)
]

decode-escaped_text : (s : Text) → decode plain (escaped_text s) ≡ some s
unfolding escaped_text decode
decode-escaped_text [] = refl
decode-escaped_text (c ∷ cs) = decode-escaped_char c (escaped_text cs) ∙ rw (decode-escaped_text cs)

-- Whatever was in the stream stays in front, and what `escape` adds to it is read back as the text
-- by a reader that refuses bare quotes, bare control characters and unknown escapes.
pub escape-decode : (os s : Text) → (e : Text) × (escape os s ≡ os ++ e) × (decode plain e ≡ some s)
unfolding escape
escape-decode os s = (escaped_text s, escape_loop-escaped_text os [] s, decode-escaped_text s)

-- No two texts are escaped alike.
pub escape-injective : (os s t : Text) → escape os s ≡ escape os t → s ≡ t
escape-injective os s t h =
    let (e, p, d) = escape-decode os s in
    let (e', p', d') = escape-decode os t in
    let same : e ≡ e' =
      sym (drop-append_length os e)
      ∙ ap (λ (x : Text). drop (length os) x) (sym p ∙ h ∙ p')
      ∙ drop-append_length os e' in
    some-injective s t (sym d ∙ ap (λ (x : Text). decode plain x) same ∙ d')
