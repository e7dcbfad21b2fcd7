-- ===== src/Tests/Parsed.antt =====
-- The grammar on small texts, with a matcher for the rules that they need.
use casterisk.Prelude.{ℕ, zero, suc, ◌≡◌, refl, ◌∷◌, ◌++◌, length, Text, codes}
use casterisk.Semantics.Op.{bop_le}
use casterisk.Syntax.Pegtl.{
  Peg, one, str, space, seq, sor, star, must, Pegtl, Match, matched, failure, parse_error,
  and_match, or_match, no_failure, match_one, match_str, spaces,
}
use casterisk.Syntax.Grammar.{bin_op_rule, expr_rule}
use casterisk.Syntax.Keywords.{bin_op_rule-left_over, expr_rule-parse_error}

-- Rounds of a rule, at most as many as the first argument says.
abbrev rounds : ℕ → (Text → Match) → Text → Match
rounds zero f s = matched s
rounds (suc n) f s = elim (f s) [
  | matched t ↦ rounds n f t
  | failure ↦ matched s
  | parse_error ↦ parse_error
]

-- Rules that the examples do not come to fail.
abbrev match_peg : Peg → Text → Match
match_peg (one cs) s = match_one cs s
match_peg (str t) s = match_str t s
match_peg space s = match_one spaces s
match_peg (seq a b) s = and_match (match_peg a s) (match_peg b)
match_peg (sor a b) s = or_match (match_peg a s) (match_peg b s)
match_peg (must a) s = no_failure (match_peg a s)
match_peg (star a) s = rounds (suc (length s)) (match_peg a) s
match_peg _ s = failure

abbrev matcher : Pegtl
matcher = record {
  parse = match_peg;
  on_one = λ cs s. refl;
  on_str = λ t s. refl;
  on_space = λ s. refl;
  on_seq = λ a b s. refl;
  on_sor = λ a b s. refl;
  on_must = λ a s. refl;
  on_star = λ a s h. rw (h) refl;
}

bin_op_rule-left_over_example :
    match_peg bin_op_rule (codes "<=" ++ codes " b") ≡ matched (61 ∷ codes " b")
bin_op_rule-left_over_example = bin_op_rule-left_over matcher bop_le (codes " b")

expr_rule-parse_error_example : match_peg expr_rule (codes "if" ++ 102 ∷ codes "y;") ≡ parse_error
expr_rule-parse_error_example = expr_rule-parse_error matcher 102 (codes "y;") refl refl
