-- ===== src/Typing/Agreement.antt =====
-- The type that inference gives a built-in function, of the types of its operands.
use casterisk.Prelude.{◌≡◌, refl, [], ◌∷◌, some, Text, ℕ, Bool-cases, inl, inr}
use casterisk.Semantics.PrimaryType.{PrimaryType}
use casterisk.Semantics.Op.{BinOp}
use casterisk.Typing.Types.{TypePtr, stored, primary, CatkType}
use casterisk.Typing.Operators.{is_comparison}
use casterisk.Typing.Described.{bin_op_type, bin_op_type_lem}
use casterisk.Typing.Typer.{Typer, ◌>>=◌, lift, pure, load_type, make_type}
use casterisk.Typing.Operands.{type_of_bin_op}

-- For operands whose types in the store are primary, inference makes the type of a binary operator that
-- the description gives: `bool` when the spelling of the operator begins with <, >, = or !, and the type of
-- the operands with the greater enumerator otherwise.
pub type_of_bin_op-primary :
    (print_address : TypePtr → Text) (bop : BinOp) (a b : ℕ) (t0 t1 : CatkType)
    (p0 p1 : PrimaryType) (s : Typer)
    → s.table.types a ≡ some t0
    → s.table.types b ≡ some t1
    → t0.content ≡ primary p0
    → t1.content ≡ primary p1
    → type_of_bin_op print_address bop (stored a ∷ (stored b ∷ [])) s
      ≡ make_type print_address (primary (bin_op_type bop p0 p1)) s
unfolding type_of_bin_op ◌>>=◌ lift pure load_type
type_of_bin_op-primary print_address bop a b t0 t1 p0 p1 s x y c d =
    elim (Bool-cases (is_comparison bop)) [
      | inl e ↦ rw (type_of_bin_op, bin_op_type_lem, e) refl
      | inr e ↦
          rw (type_of_bin_op, bin_op_type_lem, ◌>>=◌, lift, load_type, pure, e, x, c, y, d) refl
    ]
