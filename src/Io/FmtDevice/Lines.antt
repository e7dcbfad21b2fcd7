-- ===== src/Io/FmtDevice/Lines.antt =====
-- `FmtDevice::write` against the description byte by byte.
use casterisk.Prelude.{
  ℕ, ◌+◌, ◌≡◌, refl, Bool, true, false, List, [], ◌∷◌, ◌++◌, Text, ◌==◌, append_assoc, arith,
  Bool-cases, inl, inr, sym, ap, ◌∙◌, ◌-◌, take-length, ==_refl, length, length-append, All-append,
  append-nil, drop-append_length, take-append_length,
}
use casterisk.Io.FmtDevice.{
  FmtDevice, LineLoop, slice, write_indent, is_need_indent, delim_positions, line_round, line_loop,
  write_rest, write,
}
use casterisk.Io.FmtDevice.Reference.{
  device_at, put_byte, put_bytes, put_bytes-append, IsLine, indented, put_bytes-line,
  put_bytes-open,
}

slice-append :
    (pre line rest : Text) → slice (pre ++ (line ++ rest)) (length pre) (length line) ≡ line
slice-append pre line rest =
    rw (drop-append_length pre (line ++ rest), take-append_length line rest)

slice-line :
    (pre line : Text) (c : ℕ) (rest : Text)
    → slice (pre ++ (line ++ c ∷ rest)) (length pre) (length (line ++ c ∷ [])) ≡ line ++ c ∷ []
slice-line pre line c rest =
    ap (λ (t : Text). slice (pre ++ t) (length pre) (length (line ++ c ∷ [])))
      (sym (append_assoc line (c ∷ []) rest))
    ∙ slice-append pre (line ++ c ∷ []) rest

slice-rest :
    (pre line : Text) → slice (pre ++ line) (length pre) (length (pre ++ line) - length pre) ≡ line
slice-rest pre line =
    let size : length (pre ++ line) - length pre ≡ length line =
      omega (arith, length-append pre line) in
    rw (size, drop-append_length pre line, take-length line)

module _ (d : FmtDevice) where
  abbrev loop_at : Text → Bool → Text → LineLoop
  loop_at pre pending out = record { last_beg = length pre; pending = pending; written = out }

  -- The round for the delimiter that ends `line`.
  line_round-line :
      (pre line : Text) (c : ℕ) (rest : Text) (pending : Bool) (out : Text)
      → line_round d
          (pre ++ (line ++ c ∷ rest))
          (loop_at pre pending out)
          (length pre + length line)
        ≡ loop_at (pre ++ (line ++ c ∷ [])) true (indented d pending out ++ (line ++ c ∷ []))
  unfolding line_round
  line_round-line pre line c rest pending out =
      let size : length pre + length line - length pre + 1 ≡ length (line ++ c ∷ []) =
        omega (arith, length-append line (c ∷ [])) in
      rw (size, slice-line pre line c rest, length-append pre (line ++ c ∷ []))

  write_rest-open :
      (pre line : Text) (pending : Bool) (out : Text)
      → IsLine d line
      → write_rest d (pre ++ (line ++ [])) (loop_at pre pending out)
        ≡ put_bytes (device_at d pending out) line
  unfolding write_rest put_bytes
  write_rest-open pre [] pending out h = rw (append-nil pre, ==_refl (length pre))
  write_rest-open pre (x ∷ line) pending out h =
      let more : (length pre == length (pre ++ (x ∷ line))) ≡ false =
        ground (arith, length-append pre (x ∷ line)) in
      rw (
        append-nil (x ∷ line),
        more,
        slice-rest pre (x ∷ line),
        put_bytes-open d pending out x line h,
      )

  -- From any point of the text: `pre` is written, `line` is the part of the current line that the
  -- search for delimiters has passed, and `i` is where the search stands.
  line_loop-put_bytes :
      (s : Text) (i : ℕ) (pre line cs : Text) (pending : Bool) (out : Text)
      → s ≡ pre ++ (line ++ cs)
      → i ≡ length pre + length line
      → IsLine d line
      → write_rest d s (line_loop d s (loop_at pre pending out) (delim_positions d.line_delim i cs))
        ≡ put_bytes (device_at d pending out) (line ++ cs)
  unfolding line_loop delim_positions
  line_loop-put_bytes s i pre line [] pending out e n h =
      rw (e, append-nil line) (rw (append-nil line) at (write_rest-open pre line pending out h))
  line_loop-put_bytes s i pre line (c ∷ cs) pending out e n h =
      elim (Bool-cases (c == d.line_delim)) [
        | inl hit ↦
            let whole = line ++ c ∷ [] in
            let text : s ≡ (pre ++ whole) ++ cs = e ∙ simp append_assoc in
            rw (hit, put_bytes-line d pending out line c cs h hit)
              (rw (n, e, line_round-line pre line c cs pending out)
                (rw (← e, ← n)
                  (line_loop-put_bytes s (i + 1) (pre ++ whole) [] cs true
                    (indented d pending out ++ whole) text
                    (omega (arith, length-append pre whole, length-append line (c ∷ []))) tt)))
        | inr miss ↦ rw miss (
            rw (← append_assoc line (c ∷ []) cs) (
              line_loop-put_bytes s (i + 1) pre (line ++ c ∷ []) cs pending out
                (e ∙ simp append_assoc) (omega (arith, length-append line (c ∷ [])))
                (All-append _ line (c ∷ []) h (miss, tt))))
      ]

-- The first byte settles what is pending.
put_bytes-settle :
    (d : FmtDevice) (x : ℕ) (s : Text)
    → put_bytes (device_at d false (indented d (is_need_indent d.state) d.out)) (x ∷ s)
      ≡ put_bytes d (x ∷ s)
unfolding put_bytes put_byte write_indent
put_bytes-settle d x s = refl

-- Writing a text that is not empty gives the device that the description byte by byte gives, with
-- an indentation in front of each line and nowhere else, and returns the length of the text.
pub write-put_bytes :
    (d : FmtDevice) (x : ℕ) (s : Text) → write d (x ∷ s) ≡ (put_bytes d (x ∷ s), length (x ∷ s))
unfolding write
write-put_bytes d x s =
    ap (λ (t : FmtDevice). (t, length (x ∷ s)))
      (line_loop-put_bytes d (x ∷ s) 0 [] [] (x ∷ s) false
          (indented d (is_need_indent d.state) d.out) refl refl tt
        ∙ put_bytes-settle d x s)

-- The writes that a buffered stream makes of one text, a chunk at a time.
unfoldable pub write_chunks : FmtDevice → List (ℕ × Text) → FmtDevice
write_chunks d [] = d
write_chunks d ((x, s) ∷ chunks) = write_chunks (write d (x ∷ s)).0 chunks

-- The text that the chunks make up; each is a first byte and the bytes behind it.
unfoldable pub joined : List (ℕ × Text) → Text
joined [] = []
joined ((x, s) ∷ chunks) = (x ∷ s) ++ joined chunks

-- However a text is cut into chunks that are not empty, writing the chunks one after the other
-- leaves the device as the description byte by byte of the whole text does.
pub write_chunks-joined :
    (d : FmtDevice) (chunks : List (ℕ × Text)) → write_chunks d chunks ≡ put_bytes d (joined chunks)
unfolding write_chunks joined put_bytes
write_chunks-joined d [] = refl
write_chunks-joined d ((x, s) ∷ chunks) =
    ap (λ (r : FmtDevice × ℕ). write_chunks r.0 chunks) (write-put_bytes d x s)
    ∙ write_chunks-joined (put_bytes d (x ∷ s)) chunks
    ∙ sym (put_bytes-append d (x ∷ s) (joined chunks))
