-- ===== src/Semantics/FromAst/Symbol.antt =====
-- src/catk/semantics/symbol.cpp: `Symbol::from_ast` and `Symbol::get_name_from_assign_stmt`, with
-- `Context::get_symbol` of context.hpp.
use casterisk.Prelude.{[], Option, none, some, Text, ◌==◌, if◌then◌else◌}
use casterisk.Table.{find}
use casterisk.Outcome
use casterisk.Outcome.{Outcome, internal_bug, rt_assert, ok}
use casterisk.Syntax.Ast.{Ast, identifier, param, assign_stmt, is, content}
use casterisk.Syntax.Parts.{child_at, left_list, right_expr, param_id, size}
use casterisk.Semantics.Graph.{
  Ptr, Context, M, ◌>>=◌, ◌>>◌, pure, throw, lift, alloc, store, symbol, get_current_context,
  load_context,
}

-- `Context::get_symbol`: none for a name that is missing or whose symbol is still null.
unfoldable pub get_symbol : Context → Text → Option Ptr
get_symbol c name = elim (find name c.accessible) [ none ↦ none | some p ↦ p ]

unfoldable pub get_name_from_assign_stmt : Ast → Outcome Text
unfolding left_list
get_name_from_assign_stmt ast = Outcome.◌>>◌ (rt_assert (is assign_stmt ast)) (
    Outcome.◌>>=◌ (left_list ast) λ syms.
      Outcome.◌>>◌ (rt_assert (size syms == 1))
        (Outcome.◌>>=◌ (child_at 0 syms) λ sym. ok (content sym)))

unfoldable pub or_internal_bug : Option Ptr → M Ptr
or_internal_bug none = throw internal_bug
or_internal_bug (some p) = pure p

-- The symbol that the current context has for an identifier.
unfoldable pub resolve : Text → Option Ptr → M Ptr
unfolding get_symbol load_context or_internal_bug
resolve name none = throw internal_bug
resolve name (some c) = do ctx ← load_context c; or_internal_bug (get_symbol ctx name)

-- A symbol for a parameter.
unfoldable pub param_symbol : Ast → Ptr → M (Unit {0})
unfolding param_id store
param_symbol ast sym = do id ← lift (param_id ast); store sym (symbol (content id) none)

-- A symbol for the left-hand side of an assignment, whose right-hand side is analysed here.
unfoldable pub assigned_symbol : (Ast → M Ptr) → Ast → Ptr → M (Unit {0})
unfolding get_name_from_assign_stmt right_expr store
assigned_symbol rec ast sym = do
  name ← lift (get_name_from_assign_stmt ast)
  store sym (symbol name none)
  rhs_ast ← lift (right_expr ast)
  rhs ← rec rhs_ast
  store sym (symbol name (some rhs))

-- `Symbol::from_ast` behind its first test: a new symbol.
unfoldable pub new_symbol : (Ast → M Ptr) → Ast → M Ptr
unfolding alloc param_symbol assigned_symbol
new_symbol rec ast = do
  sym ← alloc (symbol [] none)
  if is param ast then param_symbol ast sym else assigned_symbol rec ast sym
  pure sym

unfoldable pub symbol_from_ast : (Ast → M Ptr) → Ast → M Ptr
unfolding get_current_context resolve new_symbol
symbol_from_ast rec ast =
    if is identifier ast
    then (do ctx ← get_current_context; resolve (content ast) ctx)
    else new_symbol rec ast
