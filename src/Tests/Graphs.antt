-- ===== src/Tests/Graphs.antt =====
-- Graphs built from parse trees.
use casterisk.Prelude.{◌≡◌, refl, List, [], ◌∷◌, Option, none, some, codes, arith}
use casterisk.Syntax.Ast.{depth}
use casterisk.Semantics.Graph.Ended.{Ended}
use casterisk.Semantics.Graph.Valid.{IsValid, Present}
use casterisk.Semantics.Graph.Valid.Sound.{Ends}
use casterisk.Semantics.FromAst.Valid.{expr_from_ast-IsValid}
use casterisk.Semantics.FromAst.Termination.{expr_from_ast-Ended}
use casterisk.Semantics.FromAst.Functional.{functional_from_ast}
use casterisk.Semantics.FromAst.Labels.{
  Labelled, call, labelled_opnds, plain_opnds, functional_from_ast-plain,
}
use casterisk.Semantics.Clone.{deep_clone}
use casterisk.Semantics.Clone.Frame.{deep_clone-Frame}
use casterisk.Semantics.Graph.{World, Run, returned, run, Ptr}
use casterisk.Semantics.Graph.Framed.{Frame, After}
use casterisk.Semantics.FromAst.Expr.{expr_from_ast}
use casterisk.Semantics.FromAst.Frame.{expr_from_ast-Frame}
use casterisk.Tests.Trees.{sample, zeros, ident, int}

abbrev pub start : World
start = record { cell = λ p. none; next = 0; current = none }

abbrev outcome : Run Ptr → Option (Ptr × Ptr)
outcome (returned p w) = some (p, w.next)
outcome _ = none

abbrev pub after : Run Ptr → World
after (returned p w) = w
after _ = start

outcome-sample : outcome (run (expr_from_ast zeros 10 sample) start) ≡ some (12, 13)
unfolding run expr_from_ast
outcome-sample = refl

expr_from_ast-Frame_example : After (Frame 0 start) (expr_from_ast zeros 10 sample start)
expr_from_ast-Frame_example = expr_from_ast-Frame zeros 10 sample start

start-IsValid : IsValid start
start-IsValid = record { used = λ p o e. absurd cc; objects = λ p o e. absurd cc; current = tt }

expr_from_ast-IsValid_example : Ends start Present (expr_from_ast zeros 10 sample start)
expr_from_ast-IsValid_example = expr_from_ast-IsValid zeros 10 sample start start-IsValid

expr_from_ast-Ended_example : Ended (expr_from_ast zeros 10 sample start)
unfolding depth
expr_from_ast-Ended_example = expr_from_ast-Ended zeros 10 sample start (omega arith)

-- The operands of `f(b = 1i8, a = x)`.
abbrev two_labels : List Labelled
two_labels =
    record { text = codes "b = 1i8"; line = 1; name = ident "b"; expr = int "1" "i8"; plain = refl }
    ∷ (record { text = codes "a = x"; line = 1; name = ident "a"; expr = ident "x"; plain = refl }
        ∷ [])

functional_from_ast-plain_example :
    functional_from_ast
      (expr_from_ast zeros 3)
      (call (codes "f(b = 1i8, a = x)") 1 (ident "f") (labelled_opnds two_labels))
    ≡ functional_from_ast
        (expr_from_ast zeros 3)
        (call (codes "f(b = 1i8, a = x)") 1 (ident "f") (plain_opnds two_labels))
functional_from_ast-plain_example =
    functional_from_ast-plain (expr_from_ast zeros 3) (codes "f(b = 1i8, a = x)") 1 (ident "f")
      two_labels refl

-- The world in which the module of the sample stands at 12.
abbrev pub built : World
built = after (run (expr_from_ast zeros 10 sample) start)

deep_clone-Frame_example : After (Frame built.next built) (deep_clone 8 12 [] built)
deep_clone-Frame_example = deep_clone-Frame 8 12 [] built
