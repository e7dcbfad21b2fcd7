-- ===== src/Syntax/Ast.antt =====
-- src/catk/syntax/ast.hpp and the `ASTSelector` of src/catk/syntax/expr.hpp: a node of the parse
-- tree. A node of the base class of the parser library has the rule that it was made for, the text
-- that it covers, the line where it begins, and its children; the root has no rule.
use Prim.Native.Nat.{max}
use casterisk.Prelude.{ℕ, suc, Bool, true, false, List, [], ◌∷◌, Option, none, some, Text, ◌==◌}

-- The rules whose nodes are kept in the tree.
pub data Rule : Type 0 where
  bin_op unary_op if_op ret_op string_literal lambda_literal array_literal dec_int_literal : Rule
  hex_int_literal int_tag int_literal fp_literal_v0 fp_literal_v1 fp_tag fp_literal : Rule
  identifier unary_expr bin_expr if_expr f_call_expr ret_context ret_stmt context_stmts : Rule
  assign_stmt capture_list capture_item param_list param f_call_param_bind : Rule
  assign_left_hand ignored_lval : Rule

-- A number for each rule, which stands for its `type_info`.
abbrev pub rule_id : Rule → ℕ
rule_id bin_op = 0
rule_id unary_op = 1
rule_id if_op = 2
rule_id ret_op = 3
rule_id string_literal = 4
rule_id lambda_literal = 5
rule_id array_literal = 6
rule_id dec_int_literal = 7
rule_id hex_int_literal = 8
rule_id int_tag = 9
rule_id int_literal = 10
rule_id fp_literal_v0 = 11
rule_id fp_literal_v1 = 12
rule_id fp_tag = 13
rule_id fp_literal = 14
rule_id identifier = 15
rule_id unary_expr = 16
rule_id bin_expr = 17
rule_id if_expr = 18
rule_id f_call_expr = 19
rule_id ret_context = 20
rule_id ret_stmt = 21
rule_id context_stmts = 22
rule_id assign_stmt = 23
rule_id capture_list = 24
rule_id capture_item = 25
rule_id param_list = 26
rule_id param = 27
rule_id f_call_param_bind = 28
rule_id assign_left_hand = 29
rule_id ignored_lval = 30

mutual
  pub data Ast : Type 0 where
    node : (rule : Option Rule) (content : Text) (line : ℕ) (children : Forest) → Ast

  pub data Forest : Type 0 where
    leaf : Forest
    branch : Ast → Forest → Forest

abbrev pub to_list : Forest → List Ast
to_list leaf = []
to_list (branch t f) = t ∷ to_list f

abbrev pub children : Ast → List Ast
children (node r s l f) = to_list f

abbrev pub content : Ast → Text
content (node r s l f) = s

abbrev pub line : Ast → ℕ
line (node r s l f) = l

-- `is_root()`
abbrev pub is_root : Ast → Bool
is_root (node none s l f) = true
is_root (node (some r) s l f) = false

-- `is<R>()`
abbrev pub is : Rule → Ast → Bool
is q (node none s l f) = false
is q (node (some r) s l f) = rule_id r == rule_id q

-- The last element, for `back()`.
abbrev pub last? {ℓ} : {A : Type ℓ} → List A → Option A
last? [] = none
last? (x ∷ []) = some x
last? (x ∷ (y ∷ ys)) = last? (y ∷ ys)

-- How many nodes stand on the longest way down.
unfoldable mutual
  pub depth : Ast → ℕ
  depth (node r s l f) = suc (depth_forest f)

  pub depth_forest : Forest → ℕ
  depth_forest leaf = 0
  depth_forest (branch t f) = max (depth t) (depth_forest f)
