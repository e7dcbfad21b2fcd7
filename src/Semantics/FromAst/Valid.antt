-- ===== src/Semantics/FromAst/Valid.antt =====
-- `Expr::from_ast` keeps the store well formed.
use casterisk.Prelude.{
  ℕ, zero, suc, ◌≡◌, List, [], ◌∷◌, ◌++◌, Option, none, some, Text, Bool, true, false, All,
  All-append,
}
use casterisk.Table.{find, find-All, insert-All}
use casterisk.Outcome.{ok, internal_bug, at}
use casterisk.Syntax.Ast.{
  Ast, children, is, is_root, content, ret_context, assign_stmt, ret_stmt, identifier,
  lambda_literal, int_literal, fp_literal,
}
use casterisk.Semantics.PrimaryUnion.{Numerals}
use casterisk.Semantics.Graph.{
  Ptr, Context, symbol, context, module_expr, empty_context, World, M, get_current_context,
  with_current, modify_context, alloc, ◌>>=◌,
}
use casterisk.Semantics.Graph.Valid.{
  Sort, symbols, ret_exprs, contexts, Cells, Points, Present, OrNull, ContextFits, IsValid,
  Extends-trans, OrNull-mono,
}
use casterisk.Semantics.Graph.Valid.Sound.{
  Ends, Sound, Any, Sound-pure, Sound-throw, Sound-starves, Sound-lift, Sound-lift_with, Sound-bind,
  Sound-then, Sound-alloc, Sound-if, Sound-weaken,
}
use casterisk.Semantics.Graph.Valid.Rules.{
  Sound-deref, Sound-get_current_context, Sound-load_context, Sound-modify_context, Sound-get_name,
  Sound-with_current, Sound-for_each,
}
use casterisk.Semantics.FromAst.Context.{
  entry, ctx_id, bind_name, capture, capture_all, open_body, add_param, define_local, unless_bound,
  assign_stmt_in, return_stmt_in, statement, fill_context, context_from_ast, module_from_ast,
}
use casterisk.Semantics.FromAst.Functional.{is_functional_expr}
use casterisk.Semantics.FromAst.Expr.{from_lambda_expr, expr_step, expr_from_ast}
use casterisk.Semantics.FromAst.ValidCalls.{
  IsSymbol, Sound-constant, Sound-symbol_from_ast, Sound-ret_expr, Sound-functional,
}

-- A name bound to a symbol, or to null.
bind_name-Fits :
    (f : Cells) (name : Text) (p : Option Ptr) (c : Context)
    → OrNull (IsSymbol f) p
    → ContextFits f c
    → ContextFits f (bind_name name p c)
bind_name-Fits f name p c h fits = record {
  accessible = insert-All (OrNull (IsSymbol f)) name p c.accessible h fits.accessible;
  params = fits.params;
  captures = fits.captures;
  locals = fits.locals;
  ret_expr = fits.ret_expr;
}

one_more :
    (f : Cells) (ps : List Ptr) (p : Ptr)
    → All (IsSymbol f) ps
    → IsSymbol f p
    → All (IsSymbol f) (ps ++ p ∷ [])
one_more f ps p h k = All-append (IsSymbol f) ps (p ∷ []) h (k, tt)

at_entry : {A : Type 0} (o : Option A) (q : A) → at o ≡ ok q → o ≡ some q
at_entry none q e = absurd cc
at_entry (some p) q e = cc

in_scope :
    (f : Cells) (c : Context) (name : Text) (q : Option Ptr)
    → ContextFits f c
    → find name c.accessible ≡ some q
    → OrNull (IsSymbol f) q
in_scope f c name q fits e =
    find-All (λ q. OrNull (IsSymbol f) q) name c.accessible fits.accessible e

add_capture :
    (f : Cells) (name : Text) (p : Ptr) (c : Context)
    → IsSymbol f p
    → ContextFits f c
    → ContextFits f (record (bind_name name (some p) c) { captures = c.captures ++ p ∷ [] })
add_capture f name p c h fits =
    let bound = bind_name-Fits f name (some p) c h fits in
    record {
      accessible = bound.accessible;
      params = fits.params;
      captures = one_more f c.captures p fits.captures h;
      locals = fits.locals;
      ret_expr = fits.ret_expr;
    }

after_name :
    (w : World)
    → IsValid w
    → (ctx target : Ptr) (name : Text) → IsSymbol w.cell target
    → Sound w Any (do
      csym ← alloc (symbol name (some target))
      modify_context ctx
          λ c. record (bind_name name (some csym) c) { captures = c.captures ++ csym ∷ [] })
after_name w v ctx target name t =
    Sound-bind
      {f = λ csym.
        modify_context ctx
          λ c. record (bind_name name (some csym) c) { captures = c.captures ++ csym ∷ [] }}
      (Sound-alloc w v (symbol name (some target)) (symbols, t))
      λ csym w1 v1 e1 s.
        Sound-modify_context w1 v1 ctx
          (λ c. record (bind_name name (some csym) c) { captures = c.captures ++ csym ∷ [] })
          λ g e c fits. add_capture g name csym c (e.keeps symbols csym s) fits

Sound-capture :
    (w : World)
    → IsValid w
    → (last : Option Ptr) (ctx : Ptr) (item : Ast) → OrNull (Points w.cell contexts) last
    → Sound w Any (capture last ctx item)
unfolding capture
Sound-capture w v last ctx item h =
    Sound-bind (Sound-deref {P = λ f. Points f contexts} w v last h) λ outer w1 v1 e1 _.
      Sound-bind (Sound-load_context w1 v1 outer) λ oc w2 v2 e2 (_, fits).
        Sound-bind
          (Sound-lift_with {Q = λ f. OrNull (IsSymbol f)} w2 v2
            (at (find (content item) oc.accessible))
            (λ q e.
              in_scope w2.cell oc (content item) q fits
                (at_entry (find (content item) oc.accessible) q e)))
          λ entry w3 v3 e3 k.
            Sound-bind (Sound-deref {P = IsSymbol} w3 v3 entry k) λ target w4 v4 e4 t.
              Sound-bind (Sound-get_name w4 v4 target)
                λ name w5 v5 e5 _. after_name w5 v5 ctx target name (e5.keeps symbols target t)

Sound-capture_all :
    (w : World)
    → IsValid w
    → (last : Option Ptr) (ctx : Ptr) (list : Option Ast) → OrNull (Points w.cell contexts) last
    → Sound w Any (capture_all last ctx list)
unfolding capture_all
Sound-capture_all w v last ctx none h = Sound-pure w v tt tt
Sound-capture_all w v last ctx (some list) h =
    Sound-for_each w v
      (λ u v' e item. Sound-capture u v' last ctx item (OrNull-mono (e.keeps contexts) last h))
      (children list)

Sound-open_body :
    (w : World)
    → IsValid w
    → (last : Option Ptr) (ctx : Ptr) (ast : Ast) → OrNull (Points w.cell contexts) last
    → Sound w Any (open_body last ctx ast)
unfolding open_body
Sound-open_body w v last ctx ast h = Sound-if w (is_root ast) (Sound-lift w v _) (
    Sound-if w (is ret_context ast)
      (Sound-bind (Sound-lift w v _) λ list w1 v1 e1 _.
        Sound-then (Sound-capture_all w1 v1 last ctx list (OrNull-mono (e1.keeps contexts) last h))
          λ w2 v2 e2. Sound-lift w2 v2 _)
      (Sound-throw w v internal_bug))

add_symbol :
    (f : Cells) (name : Text) (p : Ptr) (c : Context)
    → IsSymbol f p
    → ContextFits f c
    → ContextFits f (record (bind_name name (some p) c) { params = c.params ++ p ∷ [] })
add_symbol f name p c h fits =
    let bound = bind_name-Fits f name (some p) c h fits in
    record {
      accessible = bound.accessible;
      params = one_more f c.params p fits.params h;
      captures = fits.captures;
      locals = fits.locals;
      ret_expr = fits.ret_expr;
    }

add_local :
    (f : Cells) (name : Text) (p : Ptr) (c : Context)
    → IsSymbol f p
    → ContextFits f c
    → ContextFits f (record (bind_name name (some p) c) { locals = c.locals ++ p ∷ [] })
add_local f name p c h fits =
    let bound = bind_name-Fits f name (some p) c h fits in
    record {
      accessible = bound.accessible;
      params = fits.params;
      captures = fits.captures;
      locals = one_more f c.locals p fits.locals h;
      ret_expr = fits.ret_expr;
    }

returned_expr :
    (f : Cells) (r : Ptr) (c : Context)
    → Points f ret_exprs r
    → ContextFits f c
    → ContextFits f (record c { ret_expr = some r })
returned_expr f r c h fits = record {
  accessible = fits.accessible;
  params = fits.params;
  captures = fits.captures;
  locals = fits.locals;
  ret_expr = h;
}

-- `rec` keeps the store well formed and gives an object.
module _ (rec : Ast → M Ptr)
    (sound : (w : World) → IsValid w → (ast : Ast) → Sound w Present (rec ast)) where
  with_symbol :
      (w : World)
      → IsValid w
      → (ctx : Ptr) (name : Text) (sym : Ptr) → IsSymbol w.cell sym
      → Sound w Any (
          modify_context ctx
            λ c. record (bind_name name (some sym) c) { params = c.params ++ sym ∷ [] })
  with_symbol w v ctx name sym p =
      Sound-modify_context w v ctx
        (λ c. record (bind_name name (some sym) c) { params = c.params ++ sym ∷ [] })
        λ g e c fits. add_symbol g name sym c (e.keeps symbols sym p) fits

  with_local :
      (w : World)
      → IsValid w
      → (ctx : Ptr) (name : Text) (sym : Ptr) → IsSymbol w.cell sym
      → Sound w Any (
          modify_context ctx
            λ c. record (bind_name name (some sym) c) { locals = c.locals ++ sym ∷ [] })
  with_local w v ctx name sym p =
      Sound-modify_context w v ctx
        (λ c. record (bind_name name (some sym) c) { locals = c.locals ++ sym ∷ [] })
        λ g e c fits. add_local g name sym c (e.keeps symbols sym p) fits

  with_ret :
      (w : World)
      → IsValid w
      → (ctx r : Ptr) → Points w.cell ret_exprs r
      → Sound w Any (modify_context ctx λ c. record c { ret_expr = some r })
  with_ret w v ctx r p =
      Sound-modify_context w v ctx (λ c. record c { ret_expr = some r })
        λ g e c fits. returned_expr g r c (e.keeps ret_exprs r p) fits

  Sound-add_param :
      (w : World) → IsValid w → (ctx : Ptr) (param : Ast) → Sound w Any (add_param rec ctx param)
  unfolding add_param
  Sound-add_param w v ctx param = Sound-bind (Sound-lift w v _) λ default w1 v1 e1 _.
      Sound-then (Sound-lift w1 v1 _) λ w2 v2 e2. Sound-bind (Sound-lift w2 v2 _) λ id w3 v3 e3 _.
        Sound-bind (Sound-symbol_from_ast rec sound w3 v3 param)
          λ sym w4 v4 e4 p. with_symbol w4 v4 ctx (content id) sym p

  Sound-define_local :
      (w : World)
      → IsValid w
      → (ctx : Ptr) (name : Text) (stmt : Ast) → Sound w Any (define_local rec ctx name stmt)
  unfolding define_local
  Sound-define_local w v ctx name stmt =
      Sound-then
        (Sound-modify_context w v ctx (bind_name name none)
          λ g e c fits. bind_name-Fits g name none c tt fits)
        λ w1 v1 e1.
          Sound-bind (Sound-symbol_from_ast rec sound w1 v1 stmt)
            λ sym w2 v2 e2 p. with_local w2 v2 ctx name sym p

  Sound-unless_bound :
      (w : World)
      → IsValid w
      → (p : Option Ptr) (m : M (Unit {0})) → Sound w Any m
      → Sound w Any (unless_bound p m)
  unfolding unless_bound
  Sound-unless_bound w v none m h = h
  Sound-unless_bound w v (some p) m h = Sound-pure w v tt tt

  Sound-assign_stmt_in :
      (w : World) → IsValid w → (ctx : Ptr) (stmt : Ast) → Sound w Any (assign_stmt_in rec ctx stmt)
  unfolding assign_stmt_in
  Sound-assign_stmt_in w v ctx stmt = Sound-bind (Sound-lift w v _) λ name w1 v1 e1 _.
      Sound-bind (Sound-load_context w1 v1 ctx) λ c w2 v2 e2 _.
        Sound-unless_bound w2 v2 (entry c name) _ (Sound-define_local w2 v2 ctx name stmt)

  Sound-return_stmt_in :
      (w : World) → IsValid w → (ctx : Ptr) (stmt : Ast) → Sound w Any (return_stmt_in rec ctx stmt)
  unfolding return_stmt_in
  Sound-return_stmt_in w v ctx stmt =
      Sound-bind (Sound-ret_expr rec sound w v stmt) λ r w1 v1 e1 p. with_ret w1 v1 ctx r p

  Sound-statement :
      (w : World) → IsValid w → (ctx : Ptr) (stmt : Ast) → Sound w Any (statement rec ctx stmt)
  unfolding statement
  Sound-statement w v ctx stmt =
      Sound-if w (is assign_stmt stmt) (Sound-assign_stmt_in w v ctx stmt) (
        Sound-if w (is ret_stmt stmt) (Sound-return_stmt_in w v ctx stmt)
          (Sound-throw w v internal_bug))

  Sound-fill_context :
      (w : World)
      → IsValid w
      → (last : Option Ptr) (ctx : Ptr) (ast : Ast) (params : List Ast)
      → OrNull (Points w.cell contexts) last
      → Points w.cell contexts ctx
      → Sound w (λ f. Points f contexts) (fill_context rec last ctx ast params)
  unfolding fill_context
  Sound-fill_context w v last ctx ast params h p =
      Sound-bind (Sound-open_body w v last ctx ast h) λ stmts w1 v1 e1 _.
        Sound-then (Sound-for_each w1 v1 (λ u v' e a. Sound-add_param u v' ctx a) params)
          λ w2 v2 e2.
            Sound-then
              (Sound-for_each w2 v2 (λ u v' e a. Sound-statement u v' ctx a) (children stmts))
              λ w3 v3 e3. Sound-bind (Sound-load_context w3 v3 ctx) λ c w4 v4 e4 _.
                Sound-then (Sound-lift w4 v4 _) λ w5 v5 e5. Sound-pure w5 v5 ctx (
                  (Extends-trans (Extends-trans (Extends-trans (Extends-trans e1 e2) e3) e4)
                      e5).keeps
                    contexts ctx p)

  in_new_context :
      (w : World)
      → IsValid w
      → (ast : Ast) (params : List Ast) (ctx : Ptr) → Points w.cell contexts ctx
      → Sound w
          (λ f. Points f contexts)
          (do
            last ← get_current_context
            with_current (some ctx) (fill_context rec last ctx ast params))
  in_new_context w v ast params ctx p =
      Sound-bind (Sound-get_current_context w v) λ last w1 v1 e1 h.
        Sound-with_current w1 v1 (some ctx) (e1.keeps contexts ctx p) λ u v' e.
          Sound-fill_context u v' last ctx ast params (OrNull-mono (e.keeps contexts) last h)
            (e.keeps contexts ctx (e1.keeps contexts ctx p))

  Sound-context :
      (w : World)
      → IsValid w
      → (ast : Ast) (params : List Ast) (is_immediate : Bool)
      → Sound w (λ f. Points f contexts) (context_from_ast rec ast params is_immediate)
  unfolding context_from_ast
  Sound-context w v ast params is_immediate =
      Sound-bind
        (Sound-alloc w v
          (context (record empty_context { is_immediate = is_immediate; id = ctx_id ast }))
          (record { accessible = tt; params = tt; captures = tt; locals = tt; ret_expr = tt }))
        λ ctx w1 v1 e1 p. in_new_context w1 v1 ast params ctx p

  as_present : {A : Sort} {w : World} {m : M Ptr} → Sound w (λ f. Points f A) m → Sound w Present m
  as_present {A} h = Sound-weaken (λ f p q. (A, q)) h

  Sound-module : (w : World) → IsValid w → (ast : Ast) → Sound w Present (module_from_ast rec ast)
  unfolding module_from_ast
  Sound-module w v ast = Sound-then (Sound-lift w v _) λ w1 v1 e1.
      Sound-bind (Sound-context w1 v1 ast [] false)
        λ ctx w2 v2 e2 p. as_present (Sound-alloc w2 v2 (module_expr (some ctx)) p)

  Sound-lambda :
      (w : World)
      → IsValid w
      → (ast : Ast) → Sound w (λ f. Points f contexts) (from_lambda_expr rec ast)
  unfolding from_lambda_expr
  Sound-lambda w v ast = Sound-bind (Sound-lift w v _) λ params w1 v1 e1 _.
      Sound-bind (Sound-lift w1 v1 _) λ body w2 v2 e2 _. Sound-context w2 v2 body params false

  Sound-expr_step :
      (w : World)
      → IsValid w
      → (num : Numerals) (ast : Ast) → Sound w Present (expr_step num rec ast)
  unfolding expr_step
  Sound-expr_step w v num ast = Sound-if w (is_root ast) (Sound-module w v ast) (
      Sound-if w (is ret_context ast) (as_present (Sound-context w v ast [] true)) (
        Sound-if w (is assign_stmt ast) (as_present (Sound-symbol_from_ast rec sound w v ast)) (
          Sound-if w (is_functional_expr ast) (Sound-functional rec sound w v ast) (
            Sound-if w (is identifier ast) (as_present (Sound-symbol_from_ast rec sound w v ast)) (
              Sound-if w (is lambda_literal ast) (as_present (Sound-lambda w v ast)) (
                Sound-if w (is int_literal ast) (Sound-constant w v num ast) (
                  Sound-if w (is fp_literal ast) (Sound-constant w v num ast)
                    (Sound-throw w v internal_bug))))))))

Sound-expr :
    (num : Numerals) (fuel : ℕ) (w : World)
    → IsValid w
    → (ast : Ast) → Sound w Present (expr_from_ast num fuel ast)
unfolding expr_from_ast
Sound-expr num zero w v ast = Sound-starves w
Sound-expr num (suc fuel) w v ast =
    Sound-expr_step (expr_from_ast num fuel) (λ u v' a. Sound-expr num fuel u v' a) w v num ast

-- In a store where every pointer leads to an object of the class that its declared type names (a name in
-- scope, a parameter, a capture or a local to a symbol, the returned expression to a return expression,
-- a callee to a symbol, a module's context to a context), the analysis of any tree, with any fuel and any
-- reading of numerals, ends in such a store again, whether it returns or raises an error; every object
-- that stood before stands at its address and has its class, and a pointer that is returned leads to
-- an object. Null pointers stay allowed.
pub expr_from_ast-IsValid :
    (num : Numerals) (fuel : ℕ) (ast : Ast) (w : World)
    → IsValid w
    → Ends w Present (expr_from_ast num fuel ast w)
expr_from_ast-IsValid num fuel ast w v = (Sound-expr num fuel w v ast).runs
