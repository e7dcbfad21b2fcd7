-- ===== src/Io/FmtDevice/Reference.antt =====
-- What `FmtDevice::write` is for: an indentation before the first byte of each line, said byte by
-- byte.
use casterisk.Prelude.{
  ℕ, ◌≡◌, refl, Bool, true, false, [], ◌∷◌, ◌++◌, Text, ◌==◌, if◌then◌else◌, All, append_assoc, ap,
  ◌∙◌,
}
use casterisk.Io.FmtDevice.{FmtDevice, direct_print, need_indent, write_indent, is_need_indent}

-- The device with another state and output: `pending` says that a new line is due.
abbrev pub device_at : FmtDevice → Bool → Text → FmtDevice
device_at d pending out = record d {
  state = if pending then need_indent else direct_print;
  out = out;
}

-- One byte; the indentation comes first where a new line begins.
unfoldable pub put_byte : FmtDevice → ℕ → FmtDevice
put_byte d c =
    device_at d (c == d.line_delim)
      ((if is_need_indent d.state then write_indent d d.out else d.out) ++ c ∷ [])

unfoldable pub put_bytes : FmtDevice → Text → FmtDevice
put_bytes d [] = d
put_bytes d (c ∷ cs) = put_bytes (put_byte d c) cs

pub put_bytes-append :
    (d : FmtDevice) (s t : Text) → put_bytes d (s ++ t) ≡ put_bytes (put_bytes d s) t
unfolding put_bytes
put_bytes-append d [] t = refl
put_bytes-append d (c ∷ s) t = put_bytes-append (put_byte d c) s t

-- No byte of the text ends a line.
abbrev pub IsLine : FmtDevice → Text → Type 0
IsLine d = All (λ c. (c == d.line_delim) ≡ false)

abbrev pub indented : FmtDevice → Bool → Text → Text
indented d pending out = if pending then write_indent d out else out

module _ (d : FmtDevice) where
  put_byte-delim :
      (pending : Bool) (out : Text) (c : ℕ) (end : Bool)
      → (c == d.line_delim) ≡ end
      → put_byte (device_at d pending out) c ≡ device_at d end (indented d pending out ++ c ∷ [])
  unfolding put_byte write_indent
  put_byte-delim true out c end e = rw e
  put_byte-delim false out c end e = rw e

  -- A whole line.
  pub put_bytes-line :
      (pending : Bool) (out line : Text) (c : ℕ) (rest : Text)
      → IsLine d line
      → (c == d.line_delim) ≡ true
      → put_bytes (device_at d pending out) (line ++ c ∷ rest)
        ≡ put_bytes (device_at d true (indented d pending out ++ (line ++ c ∷ []))) rest
  unfolding put_bytes
  put_bytes-line pending out [] c rest h e =
      ap (λ (t : FmtDevice). put_bytes t rest) (put_byte-delim pending out c true e)
  put_bytes-line pending out (x ∷ line) c rest h e =
      ap (λ (t : FmtDevice). put_bytes t (line ++ c ∷ rest))
        (put_byte-delim pending out x false h.0)
      ∙ put_bytes-line false (indented d pending out ++ x ∷ []) line c rest h.1 e
      ∙ rw append_assoc

  -- A line that is not ended yet.
  pub put_bytes-open :
      (pending : Bool) (out : Text) (x : ℕ) (line : Text)
      → IsLine d (x ∷ line)
      → put_bytes (device_at d pending out) (x ∷ line)
        ≡ device_at d false (indented d pending out ++ x ∷ line)
  unfolding put_bytes
  put_bytes-open pending out x [] h = put_byte-delim pending out x false h.0
  put_bytes-open pending out x (y ∷ line) h =
      ap (λ (t : FmtDevice). put_bytes t (y ∷ line)) (put_byte-delim pending out x false h.0)
      ∙ put_bytes-open false (indented d pending out ++ x ∷ []) y line h.1
      ∙ rw append_assoc
