-- ===== src/Semantics/Op.antt =====
-- src/catk/semantics/op.{hpp,cpp}: the operators, their spelling, and the tables that read it.
pub mod Spelling
use casterisk.Prelude.{List, [], ◌∷◌, Text, codes, text_eq}
use casterisk.Table.{find}
use casterisk.Outcome.{Outcome, at}

pub data BinOp : Type 0 where
  bop_add bop_sub bop_mul bop_div bop_mod bop_and bop_or bop_xor : BinOp
  bop_lt bop_gt bop_eq bop_le bop_ge bop_ne : BinOp

pub data UnaryOp : Type 0 where
  uop_add uop_sub uop_inv uop_deref uop_not uop_addrof : UnaryOp

abbrev pub binop_lookup : List (Text × BinOp)
binop_lookup =
    (codes "+", bop_add)
    ∷ (codes "-", bop_sub)
    ∷ (codes "*", bop_mul)
    ∷ (codes "/", bop_div)
    ∷ (codes "%", bop_mod)
    ∷ (codes "&", bop_and)
    ∷ (codes "|", bop_or)
    ∷ (codes "^", bop_xor)
    ∷ (codes "<", bop_lt)
    ∷ (codes ">", bop_gt)
    ∷ (codes "==", bop_eq)
    ∷ (codes "<=", bop_le)
    ∷ (codes ">=", bop_ge)
    ∷ (codes "!=", bop_ne)
    ∷ []

unfoldable pub ast_str_to_binop : Text → Outcome BinOp
unfolding find text_eq
ast_str_to_binop str = at (find str binop_lookup)

abbrev pub unaryop_lookup : List (Text × UnaryOp)
unaryop_lookup =
    (codes "+", uop_add)
    ∷ (codes "-", uop_sub)
    ∷ (codes "~", uop_inv)
    ∷ (codes "*", uop_deref)
    ∷ (codes "!", uop_not)
    ∷ (codes "&", uop_addrof)
    ∷ []

unfoldable pub ast_str_to_unaryop : Text → Outcome UnaryOp
unfolding find text_eq
ast_str_to_unaryop str = at (find str unaryop_lookup)

-- `std::to_string` of a binary operator; its `default` branch takes no enumerator.
abbrev pub binop_to_string : BinOp → Text
binop_to_string bop_add = codes "+"
binop_to_string bop_sub = codes "-"
binop_to_string bop_mul = codes "*"
binop_to_string bop_div = codes "/"
binop_to_string bop_mod = codes "%"
binop_to_string bop_and = codes "&"
binop_to_string bop_or = codes "|"
binop_to_string bop_xor = codes "^"
binop_to_string bop_lt = codes "<"
binop_to_string bop_gt = codes ">"
binop_to_string bop_eq = codes "=="
binop_to_string bop_le = codes "<="
binop_to_string bop_ge = codes ">="
binop_to_string bop_ne = codes "!="

abbrev pub unaryop_to_string : UnaryOp → Text
unaryop_to_string uop_add = codes "+"
unaryop_to_string uop_sub = codes "-"
unaryop_to_string uop_inv = codes "~"
unaryop_to_string uop_deref = codes "*"
unaryop_to_string uop_not = codes "!"
unaryop_to_string uop_addrof = codes "&"
