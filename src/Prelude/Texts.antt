-- ===== src/Prelude/Texts.antt =====
-- Texts as lists of bytes, their literals, and the test of their equality.
use Prim.Native.Nat.{ℕ, zero, suc, ◌+◌, ◌/◌, ◌%◌}
use Prim.Native.Char.{code}
use Prim.Native.String.{String}
use mathlib.Core.Path.{◌≡◌, refl, subst}
use mathlib.Core.Logic.{◌↔◌}
use mathlib.Core.Bool.{Bool, true, false, ◌&&◌}
use mathlib.Core.List.{List, [], ◌∷◌}
use native.Mathlib.Omega.{arith}
use casterisk.Prelude.Tests.{◌==◌, if◌then◌else◌}

abbrev pub Text : Type 0
Text = List ℕ

-- The bytes of an ASCII literal.
abbrev pub codes : String → Text
codes String.[] = []
codes (String.◌∷◌ c s) = code c ∷ codes s

unfoldable pub text_eq : Text → Text → Bool
text_eq [] [] = true
text_eq [] (y ∷ ys) = false
text_eq (x ∷ xs) [] = false
text_eq (x ∷ xs) (y ∷ ys) = x == y && text_eq xs ys

pub text_eq_refl : (xs : Text) → text_eq xs xs ≡ true
unfolding text_eq
text_eq_refl [] = refl
text_eq_refl (x ∷ xs) = ground (arith, text_eq_refl xs)

pub text_eq→eq : (xs ys : Text) → text_eq xs ys ≡ true → xs ≡ ys
unfolding text_eq
text_eq→eq [] [] h = refl
text_eq→eq [] (y ∷ ys) h = cc
text_eq→eq (x ∷ xs) [] h = cc
text_eq→eq (x ∷ xs) (y ∷ ys) h = ground (arith, text_eq→eq xs ys)

pub text_eq_iff : (xs ys : Text) → (text_eq xs ys ≡ true) ↔ (xs ≡ ys)
text_eq_iff xs ys = (text_eq→eq xs ys, λ e. subst (λ t. text_eq xs t ≡ true) e (text_eq_refl xs))

-- A number in decimal digits, behind which `acc` follows. The number itself is fuel enough, for each
-- round divides it by ten.
unfoldable pub decimal_loop : ℕ → ℕ → Text → Text
decimal_loop zero n acc = acc
decimal_loop (suc fuel) n acc =
    let digits = (48 + n % 10) ∷ acc in
    let more = decimal_loop fuel (n / 10) digits in if n / 10 == 0 then digits else more

unfoldable pub decimal : ℕ → Text
unfolding decimal_loop
decimal n = decimal_loop (suc n) n []
