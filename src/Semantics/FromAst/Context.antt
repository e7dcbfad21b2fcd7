-- ===== src/Semantics/FromAst/Context.antt =====
-- src/catk/semantics/context.cpp: `Context::from_ast`, and `Module::from_ast` of module.cpp.
use casterisk.Prelude.{
  List, [], ◌∷◌, ◌++◌, Option, none, some, Text, codes, decimal, not, if◌then◌else◌, Bool, true,
  false,
}
use casterisk.Table.{find, insert}
use casterisk.Outcome.{internal_bug, at, rt_assert}
use casterisk.Syntax.Ast.{
  Ast, is_root, is, children, content, line, ret_context, assign_stmt, ret_stmt,
}
use casterisk.Syntax.Parts.{
  child, ret_context_capture_list, ret_context_stmts, has_default_expr, param_id,
}
use casterisk.Semantics.Graph.{
  Ptr, Context, empty_context, context, symbol, module_expr, M, ◌>>=◌, ◌>>◌, pure, throw, lift,
  deref, alloc, load_context, modify_context, get_name, get_current_context, with_current, for_each,
}
use casterisk.Semantics.FromAst.Symbol.{get_name_from_assign_stmt, symbol_from_ast}
use casterisk.Semantics.FromAst.Leaves.{ret_expr_from_ast}

-- `get_ctx_id`
abbrev pub ctx_id : Ast → Text
unfolding decimal
ctx_id ast = codes "ctx" ++ decimal (line ast)

-- `accessible_[name] = sym`
abbrev pub bind_name : Text → Option Ptr → Context → Context
bind_name name sym c = record c { accessible = insert name sym c.accessible }

-- One captured name: a new symbol of that name whose right-hand side is the symbol of the context
-- outside, `last`.
unfoldable pub capture : Option Ptr → Ptr → Ast → M (Unit {0})
unfolding load_context find get_name alloc modify_context insert
capture last ctx item = do
  outer ← deref last
  outer_ctx ← load_context outer
  entry ← lift (at (find (content item) outer_ctx.accessible))
  target ← deref entry
  name ← get_name target
  csym ← alloc (symbol name (some target))
  modify_context ctx
      λ c. record (bind_name name (some csym) c) { captures = c.captures ++ csym ∷ [] }

unfoldable pub capture_all : Option Ptr → Ptr → Option Ast → M (Unit {0})
unfolding capture
capture_all last ctx none = pure tt
capture_all last ctx (some list) = for_each (capture last ctx) (children list)

-- Which node holds the statements; a context in the source binds its captures first.
unfoldable pub open_body : Option Ptr → Ptr → Ast → M Ast
unfolding ret_context_capture_list capture_all ret_context_stmts
open_body last ctx ast =
    if is_root ast
    then lift (child 0 ast)
    else if is ret_context ast
    then (do
      list ← lift (ret_context_capture_list ast)
      capture_all last ctx list
      lift (ret_context_stmts ast))
    else throw internal_bug

-- One parameter.
unfoldable pub add_param : (Ast → M Ptr) → Ptr → Ast → M (Unit {0})
unfolding has_default_expr param_id symbol_from_ast modify_context insert
add_param rec ctx param = do
  default ← lift (has_default_expr param)
  lift (rt_assert (not default))
  id ← lift (param_id param)
  sym ← symbol_from_ast rec param
  modify_context ctx
      λ c. record (bind_name (content id) (some sym) c) { params = c.params ++ sym ∷ [] }

-- `accessible_[name]` as a value; a name that is missing gets a null entry.
unfoldable pub entry : Context → Text → Option Ptr
unfolding find
entry c name = elim (find name c.accessible) [ none ↦ none | some p ↦ p ]

-- An assignment to a name that has no symbol yet: the entry is null while the right-hand side is
-- analysed.
unfoldable pub define_local : (Ast → M Ptr) → Ptr → Text → Ast → M (Unit {0})
unfolding modify_context symbol_from_ast insert
define_local rec ctx name stmt = do
  modify_context ctx (bind_name name none)
  sym ← symbol_from_ast rec stmt
  modify_context ctx λ c. record (bind_name name (some sym) c) { locals = c.locals ++ sym ∷ [] }

unfoldable pub unless_bound : Option Ptr → M (Unit {0}) → M (Unit {0})
unless_bound none m = m
unless_bound (some p) m = pure tt

-- An assignment; one to a name that has a symbol already is passed over.
unfoldable pub assign_stmt_in : (Ast → M Ptr) → Ptr → Ast → M (Unit {0})
unfolding get_name_from_assign_stmt load_context entry define_local unless_bound
assign_stmt_in rec ctx stmt = do
  name ← lift (get_name_from_assign_stmt stmt)
  c ← load_context ctx
  unless_bound (entry c name) (define_local rec ctx name stmt)

unfoldable pub return_stmt_in : (Ast → M Ptr) → Ptr → Ast → M (Unit {0})
unfolding ret_expr_from_ast modify_context
return_stmt_in rec ctx stmt = do
  r ← ret_expr_from_ast rec stmt
  modify_context ctx λ c. record c { ret_expr = some r }

-- One statement; `is_context_stmt` is its first test.
unfoldable pub statement : (Ast → M Ptr) → Ptr → Ast → M (Unit {0})
unfolding assign_stmt_in return_stmt_in
statement rec ctx stmt =
    if is assign_stmt stmt
    then assign_stmt_in rec ctx stmt
    else if is ret_stmt stmt
    then return_stmt_in rec ctx stmt
    else throw internal_bug

abbrev is_set : Option Ptr → Bool
is_set none = false
is_set (some p) = true

-- What stands in the scope of the guard.
unfoldable pub fill_context : (Ast → M Ptr) → Option Ptr → Ptr → Ast → List Ast → M Ptr
unfolding open_body add_param statement load_context
fill_context rec last ctx ast params = do
  stmts ← open_body last ctx ast
  for_each (add_param rec ctx) params
  for_each (statement rec ctx) (children stmts)
  c ← load_context ctx
  lift (rt_assert (is_set c.ret_expr))
  pure ctx

unfoldable pub context_from_ast : (Ast → M Ptr) → Ast → List Ast → Bool → M Ptr
unfolding alloc ctx_id get_current_context with_current fill_context
context_from_ast rec ast params is_immediate = do
  ctx ← alloc (context (record empty_context { is_immediate = is_immediate; id = ctx_id ast }))
  last ← get_current_context
  with_current (some ctx) (fill_context rec last ctx ast params)

unfoldable pub module_from_ast : (Ast → M Ptr) → Ast → M Ptr
unfolding context_from_ast alloc
module_from_ast rec ast = do
  lift (rt_assert (is_root ast))
  ctx ← context_from_ast rec ast [] false
  alloc (module_expr (some ctx))
