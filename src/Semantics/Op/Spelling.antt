-- ===== src/Semantics/Op/Spelling.antt =====
-- Reading and printing operators are inverse to one another.
use casterisk.Prelude.{
  ◌≡◌, refl, ◌↔◌, List, [], ◌∷◌, Text, text_eq, text_eq→eq, Bool-cases, inl, inr,
}
use casterisk.Table.{find}
use casterisk.Outcome.{ok, at}
use casterisk.Semantics.Op.{
  BinOp, UnaryOp, binop_lookup, unaryop_lookup, bop_add, uop_add, ast_str_to_binop,
  ast_str_to_unaryop, binop_to_string, unaryop_to_string,
}

module _ {V : Type 0} (print : V → Text) where
  -- A table whose entries each have the spelling of their value for a key.
  abbrev IsSpelled : List (Text × V) → Type 0
  IsSpelled [] = Unit
  IsSpelled ((k, v) ∷ m) = (k ≡ print v) × IsSpelled m

  find-IsSpelled :
      (k : Text) (v : V) (m : List (Text × V)) → IsSpelled m → at (find k m) ≡ ok v → k ≡ print v
  unfolding find
  find-IsSpelled k v [] h e = cc
  find-IsSpelled k v ((j, w) ∷ m) h e = elim (Bool-cases (text_eq j k)) [
    | inl hit ↦ cc (text_eq→eq j k hit, h.0, rw (hit, find) at e)
    | inr miss ↦ find-IsSpelled k v m h.1 (rw (miss, find) at e)
  ]

ast_str_to_binop-to_string : (b : BinOp) → ast_str_to_binop (binop_to_string b) ≡ ok b
unfolding ast_str_to_binop
ast_str_to_binop-to_string bop_add = refl
ast_str_to_binop-to_string _ = refl

ast_str_to_unaryop-to_string : (u : UnaryOp) → ast_str_to_unaryop (unaryop_to_string u) ≡ ok u
unfolding ast_str_to_unaryop
ast_str_to_unaryop-to_string uop_add = refl
ast_str_to_unaryop-to_string _ = refl

-- A text is read as a binary operator exactly when it is the one that the operator prints as.
pub ast_str_to_binop_iff :
    (s : Text) (b : BinOp) → (ast_str_to_binop s ≡ ok b) ↔ (s ≡ binop_to_string b)
unfolding ast_str_to_binop
ast_str_to_binop_iff s b = (
  λ e. find-IsSpelled binop_to_string s b binop_lookup spelled e,
  λ e. rw e (ast_str_to_binop-to_string b),
)
  where
    spelled : IsSpelled binop_to_string binop_lookup
    spelled = (
      refl,
      (
        refl,
        (
          refl,
          (
            refl,
            (refl, (refl, (refl, (refl, (refl, (refl, (refl, (refl, (refl, (refl, tt)))))))))),
          ),
        ),
      ),
    )

-- A text is read as a unary operator exactly when it is the one that the operator prints as.
pub ast_str_to_unaryop_iff :
    (s : Text) (u : UnaryOp) → (ast_str_to_unaryop s ≡ ok u) ↔ (s ≡ unaryop_to_string u)
unfolding ast_str_to_unaryop
ast_str_to_unaryop_iff s u = (
  λ e. find-IsSpelled unaryop_to_string s u unaryop_lookup spelled e,
  λ e. rw e (ast_str_to_unaryop-to_string u),
)
  where
    spelled : IsSpelled unaryop_to_string unaryop_lookup
    spelled = (refl, (refl, (refl, (refl, (refl, (refl, tt))))))
