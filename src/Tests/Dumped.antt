-- ===== src/Tests/Dumped.antt =====
-- Dumps of small graphs.
use casterisk.Prelude.{
  false, ℕ, zero, suc, Option, sym, arith, ◌++◌, ◌≡◌, refl, [], ◌∷◌, none, some, codes, ◌==◌, ◌+◌,
  if◌then◌else◌,
}
use casterisk.Prelude.Int.{pos, ◌+ℤ◌, ◌-ℤ◌}
use casterisk.Io.FmtDevice.{write_indent, fmt_device}
use casterisk.Semantics.Graph.{
  run, World, Object, Context, empty_context, constant, symbol, ret_expr, context,
}
use mathlib.Core.Option.{some-injective}
use casterisk.Semantics.PrimaryUnion.{int8}
use casterisk.Semantics.FromAst.Expr.{expr_from_ast}
use casterisk.Semantics.Dump.{Fractions, dump, dump_str}
use casterisk.Outcome.{ok}
use casterisk.Semantics.PrimaryUnion.{PrimaryUnion, int_value}
use casterisk.Semantics.PrimaryUnion.Tags.{bits16, int_tag_text}
use casterisk.Semantics.Printer.{put}
use casterisk.Semantics.Dump.{dump_constant}
use casterisk.Semantics.Dump.Literals.{shown, dump_constant-int_value}
use casterisk.Tests.Trees.{zeros}
use casterisk.Semantics.Dump.Ranked.{Ranked, low_nil, low_some}
use casterisk.Semantics.Dump.Ended.Rules.{IsEnd}
use casterisk.Semantics.Dump.Ended.{dump-IsEnd}
use casterisk.Semantics.Dump.Level.{set_up, Leaves, dump-Leaves}
use casterisk.Tests.Graphs.{built}

abbrev fractions : Fractions
fractions = record { float_text = λ n. []; double_text = λ n. [] }

dump-Leaves_example : Leaves (set_up (fmt_device [])) (dump fractions built 10 12 (fmt_device []))
dump-Leaves_example = dump-Leaves fractions built 10 12 (fmt_device [])

-- The call of the sample.
dump_str-call : dump_str fractions built 10 10 ≡ some (codes "f(c)")
unfolding dump_str run expr_from_ast write_indent
dump_str-call = refl

abbrev small : World
small = record {
  cell = λ p. if p == 1 then some (constant (int8 (pos 65))) else none;
  next = 2;
  current = none;
}

-- An integer of 8 bits comes out as the character that it is the code of.
dump_str-byte : dump_str fractions small 2 1 ≡ some (65 ∷ codes "i8")
unfolding dump_str write_indent
dump_str-byte = refl

-- { x = 65i8; ret x }, with the parts of each expression in front of it.
abbrev lazy : Context
lazy = record empty_context { ret_expr = some 2 }

abbrev cells : ℕ → Option Object
cells zero = some (constant (int8 (pos 65)))
cells (suc zero) = some (symbol (codes "x") (some 0))
cells (suc (suc zero)) = some (ret_expr (some 1))
cells (suc (suc (suc zero))) = some (context lazy)
cells _ = none

abbrev layered : World
layered = record { cell = cells; next = 4; current = none }

layered-Ranked : Ranked (λ p. p) layered
layered-Ranked zero o e = rw (sym (some-injective _ o e)) low_nil
layered-Ranked (suc zero) o e = rw (sym (some-injective _ o e)) (low_some (omega arith) low_nil)
layered-Ranked (suc (suc zero)) o e =
    rw (sym (some-injective _ o e)) (low_some (omega arith) low_nil)
layered-Ranked (suc (suc (suc zero))) o e =
    rw (sym (some-injective _ o e)) (low_some (omega arith) low_nil)
layered-Ranked (suc (suc (suc (suc n)))) o e = absurd cc

dump-IsEnd_example :
    IsEnd (dump fractions layered 4 3 (fmt_device []))
    × (dump fractions layered (6 + 4) 3 (fmt_device [])
        ≡ dump fractions layered 4 3 (fmt_device []))
dump-IsEnd_example =
    dump-IsEnd fractions layered (λ p. p) layered-Ranked 4 6 3 (fmt_device []) (omega arith)

dump_str-layered :
    dump_str fractions layered 4 3 ≡ some (codes "{\n  x = " ++ 65 ∷ codes "i8;\n  ret x;\n}")
unfolding dump_str write_indent ◌+ℤ◌ ◌-ℤ◌
dump_str-layered = refl

dump_constant-int_value_example :
    (u : PrimaryUnion) × (int_value zeros (int_tag_text false bits16) (codes "0") ≡ ok u)
    × (dump_constant fractions u (fmt_device [])
        ≡ put (shown bits16 (pos 0) ++ int_tag_text false bits16) (fmt_device []))
dump_constant-int_value_example =
    dump_constant-int_value zeros fractions bits16 (codes "0") (pos 0) (fmt_device []) refl
