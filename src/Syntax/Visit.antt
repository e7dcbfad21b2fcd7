-- ===== src/Syntax/Visit.antt =====
-- src/avalon/mpl/type_visit.hpp and src/catk/syntax/utils.hpp: visits of a node by a list of rules.
use casterisk.Prelude.{◌≡◌, refl, Bool, true, false, if◌then◌else◌, List, [], ◌∷◌, map, none, some}
use casterisk.Syntax.Ast.{Ast, Rule, is, bin_expr, unary_expr, f_call_expr, if_expr}
use casterisk.Semantics.FromAst.Functional.{
  bin, unary, f_call, if_else, functional_rule, is_functional_expr,
}

-- A visitor for one element of a list of types: its test, and what it does.
pub record TypeVisitor (T R : Type 0) : Type 0 where
  pub is_target : T → Bool
  pub handle : T → R

-- `VisitImpl`: the first visitor whose test holds is called, and the last one, which takes nothing, when
-- there is none.
unfoldable pub visit : {T R : Type 0} → List (TypeVisitor T R) → R → T → R
visit [] no_match target = no_match
visit (v ∷ vs) no_match target =
    let next = visit vs no_match target in if v.is_target target then v.handle target else next

-- `IsInVisitor`
abbrev pub is_in_visitor : Rule → TypeVisitor Ast Bool
is_in_visitor r = record { is_target = is r; handle = λ ast. true }

-- `is_in`
unfoldable pub is_in : List Rule → Ast → Bool
unfolding visit
is_in rules ast = visit (map is_in_visitor rules) false ast

-- `FunctionalExprASTs`
abbrev pub functional_expr_asts : List Rule
functional_expr_asts = bin_expr ∷ (unary_expr ∷ (f_call_expr ∷ (if_expr ∷ [])))

first_of_four :
    (a b c d : Bool)
    → (if a then true else if b then true else if c then true else if d then true else false)
      ≡ elim (if a
          then some bin
          else if b
          then some unary
          else if c
          then some f_call
          else if d
          then some if_else
          else none) [ none ↦ false | some r ↦ true ]
first_of_four true b c d = refl
first_of_four false true c d = refl
first_of_four false false true d = refl
first_of_four false false false true = refl
first_of_four false false false false = refl

-- The test `is_in<FunctionalExprASTs>` and the choice of a rule by `FunctionalExpr::from_ast` accept the same
-- nodes.
pub is_in-functional : (ast : Ast) → is_in functional_expr_asts ast ≡ is_functional_expr ast
unfolding is_in visit is_functional_expr functional_rule
is_in-functional ast =
    first_of_four (is bin_expr ast) (is unary_expr ast) (is f_call_expr ast) (is if_expr ast)
