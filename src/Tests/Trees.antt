-- ===== src/Tests/Trees.antt =====
-- Parse trees of small programs, as the parser makes them.
use Prim.Native.String.{String}
use casterisk.Prelude.{[], List, ◌∷◌, none, some, codes}
use Prim.Native.String.{String}
use casterisk.Prelude.Int.{pos}
use casterisk.Outcome.{ok}
use casterisk.Syntax.Ast.{
  Ast, Forest, Rule, node, leaf, branch, bin_op, ret_op, lambda_literal, dec_int_literal, int_tag,
  int_literal, identifier, bin_expr, f_call_expr, ret_context, ret_stmt, context_stmts, assign_stmt,
  capture_list, capture_item, param_list, param, f_call_param_bind, assign_left_hand,
}
use casterisk.Semantics.PrimaryUnion.{Numerals}

abbrev forest : List Ast → Forest
forest [] = leaf
forest (t ∷ ts) = branch t (forest ts)

abbrev tree : Rule → String → List Ast → Ast
tree r s ts = node (some r) (codes s) 1 (forest ts)

abbrev pub ident : String → Ast
ident x = tree identifier x []

abbrev pub int : String → String → Ast
int digits tag = tree int_literal "" (tree dec_int_literal digits [] ∷ (tree int_tag tag [] ∷ []))

abbrev pub assign : String → Ast → Ast
assign x e = tree assign_stmt "" (tree assign_left_hand x (ident x ∷ []) ∷ (e ∷ []))

abbrev pub ret : Ast → Ast
ret e = tree ret_stmt "" (tree ret_op "ret" [] ∷ (e ∷ []))

abbrev pub bin : Ast → String → Ast → Ast
bin a op b = tree bin_expr "" (a ∷ (tree bin_op op [] ∷ (b ∷ [])))

abbrev pub call : String → List Ast → Ast
call f args = tree f_call_expr "" (ident f ∷ args)

abbrev pub bound : String → Ast → Ast
bound x e = tree f_call_param_bind "" (ident x ∷ (e ∷ []))

abbrev pub stmts : List Ast → Ast
stmts ts = tree context_stmts "" ts

abbrev pub captures : List Ast → Ast
captures ts = tree capture_list "" ts

abbrev pub captured : String → Ast
captured x = tree capture_item x []

-- The body of a lambda, on the second line.
abbrev pub body : List Ast → Ast
body ts = node (some ret_context) [] 2 (forest ts)

abbrev pub lambda : List Ast → Ast → Ast
lambda ps b = tree lambda_literal "" (tree param_list "" ps ∷ (b ∷ []))

abbrev pub parameter : String → Ast
parameter x = tree param x (ident x ∷ [])

abbrev pub root : List Ast → Ast
root ts = node none [] 1 (forest (stmts ts ∷ []))

-- c = 3i64; f = fn (a) [c] { ret a + c; }; x = f(c); ret x;
abbrev pub sample : Ast
sample = root (
    assign "c" (int "3" "i64")
    ∷ (assign "f" (
          lambda (parameter "a" ∷ []) (
            body (
              captures (captured "c" ∷ [])
              ∷ (stmts (ret (bin (ident "a") "+" (ident "c")) ∷ []) ∷ []))))
        ∷ (assign "x" (call "f" (ident "c" ∷ [])) ∷ (ret (ident "x") ∷ []))))

-- Conversions that read every text as zero.
abbrev pub zeros : Numerals
zeros = record {
  cast_unsigned = λ bits s. ok 0;
  cast_signed = λ bits s. ok (pos 0);
  stof = λ s. ok 0;
  stod = λ s. ok 0;
}
