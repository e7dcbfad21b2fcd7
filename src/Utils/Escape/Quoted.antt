-- ===== src/Utils/Escape/Quoted.antt =====
-- A reader of the quoted texts of the dot language, and what `escape` of src/catk/utils.hpp is to it.
use casterisk.Prelude.{
  ℕ, ◌≡◌, refl, ◌∙◌, ap, some, [], ◌∷◌, ◌++◌, Text, ◌==◌, if◌then◌else◌, Option-cases, inl, inr,
  arith,
}
use casterisk.Utils.Escape.{escape}
use casterisk.Utils.Escape.Decode.{Mode, plain, escaped, hex, hex_value, read_escape, read, decode}
use casterisk.Utils.Escape.RoundTrip.{escape-decode}

-- Where a reader stands: outside of a quoted text, inside of one, or inside and behind a backslash.
pub data Place : Type 0 where
  outside inside behind_backslash : Place

unfoldable pub pass : Place → ℕ → Place
pass outside c = if c == b'"' then inside else outside
pass inside c = if c == b'\\' then behind_backslash else if c == b'"' then outside else inside
pass behind_backslash c = inside

unfoldable pub scan : Place → Text → Place
unfolding pass
scan p [] = p
scan p (c ∷ cs) = scan (pass p c) cs

pub scan-append : (p : Place) (s t : Text) → scan p (s ++ t) ≡ scan (scan p s) t
unfolding scan
scan-append p [] t = refl
scan-append p (c ∷ cs) t = scan-append (pass p c) cs t

-- A reader that begins outside stands there behind the text.
pub data LeavesAt (p : Place) (s : Text) : Type 0 where
  leaves_at : scan outside s ≡ p → LeavesAt p s

pub append-LeavesAt :
    {p : Place} {s : Text} {q : Place}
    → LeavesAt p s
    → (t : Text) → scan p t ≡ q
    → LeavesAt q (s ++ t)
append-LeavesAt {p} {s} {q} (leaves_at h) t k =
    leaves_at (scan-append outside s t ∙ ap (λ x. scan x t) h ∙ k)

-- Where a reader of escaped texts stands in a label.
place : Mode → Place
place plain = inside
place escaped = behind_backslash
place (hex left value) = inside

pass-read :
    (m : Mode) (c : ℕ) (m' : Mode) (t : Text)
    → read m c ≡ some (m', t)
    → pass (place m) c ≡ place m'
unfolding pass read read_escape hex_value place
pass-read plain c m' t h = ground arith
pass-read escaped c m' t h = ground arith
pass-read (hex left value) c m' t h = ground arith

-- What is read back as a text holds no end of the label.
scan-decode : (m : Mode) (e s : Text) → decode m e ≡ some s → scan (place m) e ≡ inside
unfolding scan decode place
scan-decode plain [] s h = refl
scan-decode escaped [] s h = cc
scan-decode (hex left value) [] s h = cc
scan-decode m (c ∷ cs) s h = elim (Option-cases (read m c)) [
  | inl e ↦ ground arith
  | inr ((m', t), e) ↦ elim (Option-cases (decode m' cs)) [
    | inl n ↦ ground arith
    | inr (r, d) ↦ ap (λ p. scan p cs) (pass-read m c m' t e) ∙ scan-decode m' cs r d
  ]
]

-- `escape` in a label stays in it, whatever the text.
pub escape-LeavesAt : {os : Text} (s : Text) → LeavesAt inside os → LeavesAt inside (escape os s)
unfolding place
escape-LeavesAt {os} s (leaves_at h) =
    let (e, p, d) = escape-decode os s in
    leaves_at (
      ap (λ x. scan outside x) p
      ∙ scan-append outside os e
      ∙ ap (λ q. scan q e) h
      ∙ scan-decode plain e s d)
