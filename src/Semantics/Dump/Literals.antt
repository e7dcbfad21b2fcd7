-- ===== src/Semantics/Dump/Literals.antt =====
-- `Constant::dump` of what was read from an integer literal.
use casterisk.Prelude.{◌≡◌, refl, sym, ap, ◌∙◌, ℕ, false, [], ◌∷◌, ◌++◌, append-nil, Text, codes}
use casterisk.Prelude.Int.{ℤ}
use casterisk.Outcome.{ok, ◌>>=◌}
use casterisk.Io.FmtDevice.{FmtDevice}
use casterisk.Io.FmtDevice.Reference.{put_bytes}
use casterisk.Io.FmtDevice.Lines.{write-put_bytes, write_chunks, joined, write_chunks-joined}
use casterisk.Semantics.PrimaryUnion.{PrimaryUnion, Numerals, int_value}
use casterisk.Semantics.PrimaryUnion.Tags.{
  TagBits, bits8, bits16, bits32, bits64, bits, int_tag_text, signed_value, int_value-int_tag_text,
}
use casterisk.Semantics.Printer as Printer
use casterisk.Semantics.Printer.{printed, ◌>>◌, put}
use casterisk.Semantics.Dump.{Fractions, int_text, byte_of, dump_constant}

-- Two texts that are written one behind the other are one text.
put-append : (s t : Text) (d : FmtDevice) → (put s >> put t) d ≡ put (s ++ t) d
unfolding put ◌>>◌ Printer.◌>>=◌ write_chunks joined
put-append [] t d = refl
put-append (c ∷ s) [] d = rw append-nil refl
put-append (c ∷ s) (e ∷ t) d =
    ap (λ x. printed tt x)
      (write_chunks-joined d ((c, s) ∷ ((e, t) ∷ []))
        ∙ ap (λ y. put_bytes d (c ∷ (s ++ e ∷ y))) (append-nil t)
        ∙ sym (ap (λ (r : FmtDevice × ℕ). r.0) (write-put_bytes d c (s ++ e ∷ t))))

-- How the number of a literal is written: as a character when it has 8 bits, and in decimals otherwise.
abbrev pub shown : TagBits → ℤ → Text
shown bits8 z = byte_of z ∷ []
shown _ z = int_text z

dump_constant-signed_value :
    (F : Fractions) (b : TagBits) (z : ℤ) (d : FmtDevice)
    → dump_constant F (signed_value b z) d ≡ put (shown b z ++ int_tag_text false b) d
unfolding dump_constant
dump_constant-signed_value F bits8 z d = put-append (byte_of z ∷ []) (codes "i8") d
dump_constant-signed_value F bits16 z d = put-append (int_text z) (codes "i16") d
dump_constant-signed_value F bits32 z d = put-append (int_text z) (codes "i32") d
dump_constant-signed_value F bits64 z d = put-append (int_text z) (codes "i64") d

-- A signed literal whose digits convert to z, within the bits of its tag, is read as a constant that dump
-- writes as z in decimals and the same tag, except that with 8 bits it writes the character of code z.
pub dump_constant-int_value :
    (num : Numerals) (F : Fractions) (b : TagBits) (content : Text) (z : ℤ) (d : FmtDevice)
    → num.cast_signed (bits b) content ≡ ok z
    → (u : PrimaryUnion) × (int_value num (int_tag_text false b) content ≡ ok u)
      × (dump_constant F u d ≡ put (shown b z ++ int_tag_text false b) d)
dump_constant-int_value num F b content z d h = (
  signed_value b z,
  int_value-int_tag_text num false b content ∙ ap (λ o. o >>= λ v. ok (signed_value b v)) h,
  dump_constant-signed_value F b z d,
)
