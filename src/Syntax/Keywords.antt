-- ===== src/Syntax/Keywords.antt =====
-- What the grammar of src/catk/syntax/expr.hpp makes of operators and of names that begin like a keyword.
use casterisk.Prelude.{ℕ, ◌≡◌, ◌∙◌, refl, ap, false, ◌==◌, ◌∷◌, ◌++◌, Text, codes}
use casterisk.Semantics.Op.{
  BinOp, bop_add, bop_sub, bop_mul, bop_div, bop_mod, bop_and, bop_or, bop_xor, bop_lt, bop_gt,
  bop_eq, bop_le, bop_ge, bop_ne, binop_to_string,
}
use casterisk.Syntax.Pegtl.{
  Peg, one, space, seq, sor, must, space_pad, Pegtl, matched, failure, parse_error, and_match,
  or_match, no_failure, is_one_of, match_one, spaces,
}
use casterisk.Syntax.Grammar.{
  if_op_rule, if_expr_rule, term_rule, bin_op_rule, bin_expr_rule, expr_rule,
}

module _ (P : Pegtl) where
  seq-matched :
      (a b : Peg) (s t : Text) → P.parse a s ≡ matched t → P.parse (seq a b) s ≡ P.parse b t
  seq-matched a b s t h = P.on_seq a b s ∙ ap (λ m. and_match m (P.parse b)) h

  seq-failure : (a b : Peg) (s : Text) → P.parse a s ≡ failure → P.parse (seq a b) s ≡ failure
  seq-failure a b s h = P.on_seq a b s ∙ ap (λ m. and_match m (P.parse b)) h

  seq-parse_error :
      (a b : Peg) (s : Text) → P.parse a s ≡ parse_error → P.parse (seq a b) s ≡ parse_error
  seq-parse_error a b s h = P.on_seq a b s ∙ ap (λ m. and_match m (P.parse b)) h

  sor-matched : (a b : Peg) (s t : Text) → P.parse a s ≡ matched t → P.parse (sor a b) s ≡ matched t
  sor-matched a b s t h = P.on_sor a b s ∙ ap (λ m. or_match m (P.parse b s)) h

  sor-failure : (a b : Peg) (s : Text) → P.parse a s ≡ failure → P.parse (sor a b) s ≡ P.parse b s
  sor-failure a b s h = P.on_sor a b s ∙ ap (λ m. or_match m (P.parse b s)) h

  sor-parse_error :
      (a b : Peg) (s : Text) → P.parse a s ≡ parse_error → P.parse (sor a b) s ≡ parse_error
  sor-parse_error a b s h = P.on_sor a b s ∙ ap (λ m. or_match m (P.parse b s)) h

  by_one :
      (cs : Text) (b : Peg) (s t : Text)
      → match_one cs s ≡ matched t
      → P.parse (sor (one cs) b) s ≡ matched t
  by_one cs b s t h = sor-matched (one cs) b s t (P.on_one cs s ∙ h)

-- What the rule for a binary operator leaves of an operator and the text behind it: nothing of the operator,
-- except the second character of `<=` and `>=`.
abbrev pub left_over : BinOp → Text → Text
left_over bop_le rest = 61 ∷ rest
left_over bop_ge rest = 61 ∷ rest
left_over _ rest = rest

-- For every spelling of a binary operator, whatever follows it: the rule for binary operators takes `==`,
-- `!=` and the operators of one character whole, and takes only the first character of `<=` and `>=`.
pub bin_op_rule-left_over :
    (P : Pegtl) (b : BinOp) (rest : Text)
    → P.parse bin_op_rule (binop_to_string b ++ rest) ≡ matched (left_over b rest)
bin_op_rule-left_over P bop_eq rest =
    sor-failure P _ _ _ (P.on_one _ _) ∙ sor-matched P _ _ _ _ (P.on_str _ _)
bin_op_rule-left_over P bop_ne rest =
    sor-failure P _ _ _ (P.on_one _ _)
    ∙ sor-failure P _ _ _ (P.on_str _ _)
    ∙ sor-failure P _ _ _ (P.on_str _ _)
    ∙ sor-failure P _ _ _ (P.on_str _ _)
    ∙ P.on_str _ _
bin_op_rule-left_over P bop_add rest = by_one P _ _ _ _ refl
bin_op_rule-left_over P bop_sub rest = by_one P _ _ _ _ refl
bin_op_rule-left_over P bop_mul rest = by_one P _ _ _ _ refl
bin_op_rule-left_over P bop_div rest = by_one P _ _ _ _ refl
bin_op_rule-left_over P bop_mod rest = by_one P _ _ _ _ refl
bin_op_rule-left_over P bop_and rest = by_one P _ _ _ _ refl
bin_op_rule-left_over P bop_or rest = by_one P _ _ _ _ refl
bin_op_rule-left_over P bop_xor rest = by_one P _ _ _ _ refl
bin_op_rule-left_over P bop_lt rest = by_one P _ _ _ _ refl
bin_op_rule-left_over P bop_gt rest = by_one P _ _ _ _ refl
bin_op_rule-left_over P bop_le rest = by_one P _ _ _ _ refl
bin_op_rule-left_over P bop_ge rest = by_one P _ _ _ _ refl

module _ (P : Pegtl) (c : ℕ) (rest : Text) (not_space : is_one_of c spaces ≡ false)
    (not_left : (c == 40) ≡ false) where
  no_space : P.parse space (c ∷ rest) ≡ failure
  no_space = P.on_space (c ∷ rest) ∙ rw (not_space) refl

  no_bracket : P.parse (one (codes "(")) (c ∷ rest) ≡ failure
  no_bracket = P.on_one (codes "(") (c ∷ rest) ∙ rw (not_left) refl

  padded-failure : P.parse (space_pad (one (codes "("))) (c ∷ rest) ≡ failure
  padded-failure =
      seq-matched P _ _ _ _ (P.on_star space (c ∷ rest) no_space) ∙ seq-failure P _ _ _ no_bracket

  must-parse_error : (a : Peg) (s : Text) → P.parse a s ≡ failure → P.parse (must a) s ≡ parse_error
  must-parse_error a s h = P.on_must a s ∙ ap no_failure h

  if_expr-parse_error : P.parse if_expr_rule (codes "if" ++ c ∷ rest) ≡ parse_error
  if_expr-parse_error =
      seq-matched P if_op_rule _ _ (c ∷ rest) (P.on_str (codes "if") _)
      ∙ must-parse_error _ (c ∷ rest) (seq-failure P _ _ _ padded-failure)

  term-parse_error : P.parse term_rule (codes "if" ++ c ∷ rest) ≡ parse_error
  term-parse_error = sor-parse_error P _ _ _ if_expr-parse_error

-- An expression that begins with `if` and has neither a space nor a left bracket there ends in the parser's
-- exception: `if` is taken for the operator, and no other rule is tried, so no expression begins with a name
-- that begins with `if`.
pub expr_rule-parse_error :
    (P : Pegtl) (c : ℕ) (rest : Text)
    → is_one_of c spaces ≡ false
    → (c == 40) ≡ false
    → P.parse expr_rule (codes "if" ++ c ∷ rest) ≡ parse_error
expr_rule-parse_error P c rest h k =
    sor-parse_error P bin_expr_rule term_rule _
      (seq-parse_error P term_rule _ _ (term-parse_error P c rest h k))
