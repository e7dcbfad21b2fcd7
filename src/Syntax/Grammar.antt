-- ===== src/Syntax/Grammar.antt =====
-- The grammar, src/catk/syntax/expr.hpp: one rule for each structure, in the order of the file.
use casterisk.Prelude.{codes}
use casterisk.Syntax.Pegtl.{
  Peg, one, not_one, str, keyword, any, digit, xdigit, space, eof, identifier, seq, sor, star, plus,
  opt, must, at, list_of, until, if_then_else, forward, Forward, expr, lambda_literal, space_pad,
  padded_list, if_must,
}

abbrev pub int_tag_rule : Peg
int_tag_rule = seq (opt (one (codes "u"))) (
    seq (one (codes "i"))
      (sor (str (codes "8")) (sor (str (codes "16")) (sor (str (codes "32")) (str (codes "64"))))))

abbrev pub dec_int_literal_rule : Peg
dec_int_literal_rule = seq (opt (one (codes "-"))) (plus digit)

abbrev pub hex_int_literal_rule : Peg
hex_int_literal_rule = if_must (str (codes "0x")) (plus xdigit)

abbrev pub int_literal_rule : Peg
int_literal_rule =
    sor (seq dec_int_literal_rule int_tag_rule) (seq hex_int_literal_rule int_tag_rule)

abbrev pub fp_tag_rule : Peg
fp_tag_rule = sor (str (codes "f32")) (str (codes "f64"))

abbrev pub fp_literal_v0_rule : Peg
fp_literal_v0_rule = seq (opt (one (codes "-"))) (plus digit)

abbrev pub fp_literal_v1_rule : Peg
fp_literal_v1_rule =
    seq (opt (one (codes "-"))) (seq (star digit) (seq (one (codes ".")) (plus digit)))

abbrev pub fp_literal_rule : Peg
fp_literal_rule = sor (seq fp_literal_v0_rule fp_tag_rule) (seq fp_literal_v1_rule fp_tag_rule)

abbrev pub escaped_char_rule : Peg
escaped_char_rule = one (codes "\"\\/bfnrt0")

abbrev pub char_rule : Peg
char_rule = if_then_else (one (codes "\\")) (must escaped_char_rule) (not_one (codes "\\"))

abbrev pub string_literal_content_rule : Peg
string_literal_content_rule = until (at (one (codes "\""))) (must char_rule)

abbrev pub string_literal_rule : Peg
string_literal_rule = seq (one (codes "\"")) (seq (must string_literal_content_rule) any)

abbrev pub if_op_rule : Peg
if_op_rule = str (codes "if")

abbrev pub if_expr_rule : Peg
if_expr_rule = if_must if_op_rule (
    seq (space_pad (one (codes "("))) (
      seq (forward expr) (
        seq (space_pad (one (codes ")")))
          (seq (forward expr) (seq (space_pad (str (codes "else"))) (forward expr))))))

abbrev pub array_literal_rule : Peg
array_literal_rule =
    seq (one (codes "["))
      (seq (opt (padded_list (forward expr) (one (codes ",")))) (one (codes "]")))

abbrev pub param_rule : Peg
param_rule = seq identifier (opt (seq (space_pad (one (codes "="))) (forward expr)))

abbrev pub param_list_rule : Peg
param_list_rule = padded_list param_rule (one (codes ","))

abbrev pub capture_item_rule : Peg
capture_item_rule = identifier

abbrev pub capture_list_rule : Peg
capture_list_rule = seq (one (codes "[")) (
    seq (star space) (
      seq (opt (seq (padded_list capture_item_rule (one (codes ","))) (star space)))
        (one (codes "]"))))

abbrev pub literal_rule : Peg
literal_rule =
    sor string_literal_rule
      (sor (forward lambda_literal) (sor array_literal_rule (sor fp_literal_rule int_literal_rule)))

abbrev pub f_call_param_bind_rule : Peg
f_call_param_bind_rule = seq identifier (seq (space_pad (one (codes "="))) (forward expr))

abbrev pub f_call_param_bind_list_rule : Peg
f_call_param_bind_list_rule = padded_list f_call_param_bind_rule (one (codes ","))

abbrev pub f_call_pos_param_list_rule : Peg
f_call_pos_param_list_rule = padded_list (forward expr) (one (codes ","))

abbrev pub f_call_expr_rule : Peg
f_call_expr_rule = seq identifier (
    seq (space_pad (one (codes "("))) (
      seq (opt (sor f_call_param_bind_list_rule f_call_pos_param_list_rule))
        (space_pad (one (codes ")")))))

abbrev pub unary_op_rule : Peg
unary_op_rule = one (codes "+-~*!&")

abbrev pub unary_expr_rule : Peg
unary_expr_rule = seq unary_op_rule (forward expr)

abbrev pub ignored_lval_rule : Peg
ignored_lval_rule = one (codes "_")

abbrev pub assign_left_hand_rule : Peg
assign_left_hand_rule = list_of (sor ignored_lval_rule identifier) (space_pad (one (codes ",")))

abbrev pub assign_stmt_rule : Peg
assign_stmt_rule =
    seq assign_left_hand_rule
      (seq (space_pad (one (codes "="))) (seq (forward expr) (seq (star space) (one (codes ";")))))

abbrev pub statement_rule : Peg
statement_rule = assign_stmt_rule

abbrev pub stmt_list_rule : Peg
stmt_list_rule = list_of statement_rule (star space)

abbrev pub ret_op_rule : Peg
ret_op_rule = str (codes "ret")

abbrev pub ret_stmt_rule : Peg
ret_stmt_rule =
    seq ret_op_rule (seq (star space) (seq (forward expr) (seq (star space) (one (codes ";")))))

abbrev pub context_stmts_rule : Peg
context_stmts_rule =
    seq (star space) (seq (opt stmt_list_rule) (seq (star space) (seq ret_stmt_rule (star space))))

abbrev pub ret_context_rule : Peg
ret_context_rule =
    seq (opt capture_list_rule)
      (seq (star space) (seq (one (codes "{")) (seq context_stmts_rule (one (codes "}")))))

abbrev pub lambda_literal_rule : Peg
lambda_literal_rule = if_must (keyword (codes "fn")) (
    seq (star space) (
      seq (space_pad (one (codes "("))) (
        seq (opt param_list_rule)
          (seq (space_pad (one (codes ")"))) (seq (star space) ret_context_rule)))))

abbrev pub term_rule : Peg
term_rule = sor if_expr_rule (
    sor (seq (one (codes "(")) (seq (space_pad (forward expr)) (one (codes ")")))) (
      sor ret_context_rule
        (sor literal_rule (sor unary_expr_rule (sor f_call_expr_rule identifier)))))

abbrev pub bin_op_rule : Peg
bin_op_rule =
    sor (one (codes "+-*/%&|^<>"))
      (sor (str (codes "==")) (sor (str (codes "<=")) (sor (str (codes ">=")) (str (codes "!=")))))

abbrev pub bin_expr_rule : Peg
bin_expr_rule = seq term_rule (seq (space_pad bin_op_rule) (forward expr))

abbrev pub expr_rule : Peg
expr_rule = sor bin_expr_rule term_rule

abbrev pub file_rule : Peg
file_rule = seq context_stmts_rule eof

-- The structures that are named before they are defined.
abbrev pub definition_of : Forward → Peg
definition_of expr = expr_rule
definition_of lambda_literal = lambda_literal_rule
