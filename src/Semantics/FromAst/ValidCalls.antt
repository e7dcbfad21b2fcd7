-- ===== src/Semantics/FromAst/ValidCalls.antt =====
-- The parts of `Expr::from_ast` that make symbols, constants and calls keep the store well formed.
use casterisk.Prelude.{
  ℕ, zero, suc, All-mono, List, [], ◌∷◌, Option, none, some, Text, Bool, true, false, All, set,
  replicate, map, Option-cases, inl, inr, length,
}
use casterisk.Table.{find, find-All}
use casterisk.Outcome.{internal_bug, undefined, bad_variant_access}
use casterisk.Syntax.Ast.{Ast, content, is, identifier, param}
use casterisk.Semantics.PrimaryUnion.{Numerals}
use casterisk.Semantics.Graph.{
  Ptr, Context, Object, constant, symbol, ret_expr, functional_expr, context, FunctionProto, user,
  World, M, lift, store, pure, ◌>>◌, ◌>>=◌,
}
use casterisk.Semantics.Graph.Valid.{
  symbols, ret_exprs, other, Cells, Points, Present, OrNull, ContextFits, Fits, FunctionFits,
  IsValid, Extends, Extends-trans, OrNull-mono, Present-mono, FunctionFits-mono,
}
use casterisk.Semantics.Graph.Valid.Sound.{
  Sound, Any, Sound-pure, Sound-throw, Sound-lift, Sound-bind, Sound-then, Sound-alloc, Sound-store,
  Sound-if,
}
use casterisk.Semantics.Graph.Valid.Rules.{
  Sound-deref, Sound-load, Sound-get_current_context, Sound-load_context, Sound-get_name,
  Sound-each,
}
use casterisk.Semantics.FromAst.Symbol.{
  get_symbol, or_internal_bug, resolve, param_symbol, assigned_symbol, new_symbol, symbol_from_ast,
}
use casterisk.Semantics.FromAst.Leaves.{constant_from_ast, ret_expr_from_ast}
use casterisk.Semantics.FromAst.Functional.{
  FunctionalRule, bin, unary, f_call, if_else, functional_rule, function_from_expr,
  positional_opnds, callee_context, get_user, rhs_of, context_of, bind_loop, rule_opnds,
  rule_function, binds_params, named_opnds, pass_opnds, make_functional, functional_from_ast,
}

-- A symbol, in the cells `f`.
abbrev pub IsSymbol : Cells → Ptr → Type 0
IsSymbol f p = Points f symbols p

get_symbol-IsSymbol :
    (f : Cells) (c : Context) (name : Text)
    → ContextFits f c
    → OrNull (IsSymbol f) (get_symbol c name)
unfolding get_symbol
get_symbol-IsSymbol f c name h = elim (Option-cases (find name c.accessible)) [
  | inl e ↦ rw (e, get_symbol) tt
  | inr (p, e) ↦
      rw (e, get_symbol) (find-All (λ q. OrNull (IsSymbol f) q) name c.accessible h.accessible e)
]

Sound-or_internal_bug :
    (w : World)
    → IsValid w
    → (p : Option Ptr) → OrNull (IsSymbol w.cell) p
    → Sound w IsSymbol (or_internal_bug p)
unfolding or_internal_bug
Sound-or_internal_bug w v none h = Sound-throw w v internal_bug
Sound-or_internal_bug w v (some p) h = Sound-pure w v p h

module _ (w : World) (v : IsValid w) where
  pub Sound-constant : (num : Numerals) (ast : Ast) → Sound w Present (constant_from_ast num ast)
  unfolding constant_from_ast
  Sound-constant num ast = Sound-then (Sound-lift w v _) λ w1 v1 e1.
      Sound-bind (Sound-alloc w1 v1 (constant _) tt) λ cv w2 v2 e2 p.
        Sound-bind (Sound-lift w2 v2 _) λ x w3 v3 e3 _.
          Sound-then (Sound-store w3 v3 (constant x) tt cv (e3.keeps other cv p))
            λ w4 v4 e4. Sound-pure w4 v4 cv (other, e4.keeps other cv (e3.keeps other cv p))

  Sound-resolve : (name : Text) (c : Option Ptr) → Sound w IsSymbol (resolve name c)
  unfolding resolve
  Sound-resolve name none = Sound-throw w v internal_bug
  Sound-resolve name (some c) = Sound-bind (Sound-load_context w v c) λ ctx w1 v1 e1 h.
      Sound-or_internal_bug w1 v1 (get_symbol ctx name) (get_symbol-IsSymbol w1.cell ctx name h.1)

  Sound-param_symbol :
      (ast : Ast) (sym : Ptr) → IsSymbol w.cell sym → Sound w Any (param_symbol ast sym)
  unfolding param_symbol
  Sound-param_symbol ast sym p =
      Sound-bind (Sound-lift w v _) λ id w1 v1 e1 _.
        Sound-store w1 v1 (symbol (content id) none) tt sym (e1.keeps symbols sym p)

Sound-get_user : (w : World) → IsValid w → (func : FunctionProto) → Sound w Any (get_user func)
unfolding get_user
Sound-get_user w v (user p) = Sound-pure w v p tt
Sound-get_user w v _ = Sound-throw w v bad_variant_access

Sound-rhs_of : (w : World) → IsValid w → (o : Object) → Sound w Any (rhs_of o)
unfolding rhs_of
Sound-rhs_of w v (symbol name rhs) = Sound-pure w v rhs tt
Sound-rhs_of w v _ = Sound-throw w v undefined

Sound-context_of : (w : World) → IsValid w → (o : Object) → Sound w Any (context_of o)
unfolding context_of
Sound-context_of w v (context c) = Sound-pure w v c tt
Sound-context_of w v _ = Sound-throw w v undefined

OrNull-any : (p : Option Ptr) → OrNull (λ _. Unit {0}) p
OrNull-any none = tt
OrNull-any (some p) = tt

Sound-callee : (w : World) → IsValid w → (func : FunctionProto) → Sound w Any (callee_context func)
unfolding callee_context
Sound-callee w v func = Sound-bind (Sound-get_user w v func) λ ufunc w1 v1 e1 _.
    Sound-bind (Sound-deref {P = Any} w1 v1 ufunc (OrNull-any ufunc)) λ s w2 v2 e2 _.
      Sound-bind (Sound-load w2 v2 s) λ o w3 v3 e3 _.
        Sound-bind (Sound-rhs_of w3 v3 o) λ rhs w4 v4 e4 _.
          Sound-bind (Sound-deref {P = Any} w4 v4 rhs (OrNull-any rhs)) λ c w5 v5 e5 _.
            Sound-bind (Sound-load w5 v5 c) λ o' w6 v6 e6 _. Sound-context_of w6 v6 o'

-- The operands, of which some are still null.
abbrev Operands : Cells → List (Option Ptr) → Type 0
Operands f ps = All (OrNull (Present f)) ps

Operands-mono :
    (f g : Cells) → Extends f g → (ps : List (Option Ptr)) → Operands f ps → Operands g ps
Operands-mono f g e ps h = All-mono (λ p k. OrNull-mono (Present-mono e) p k) ps h

set-Operands :
    (f : Cells) (ps : List (Option Ptr)) (i : ℕ) (p : Ptr)
    → Operands f ps
    → Present f p
    → Operands f (set ps i (some p))
set-Operands f [] i p h k = tt
set-Operands f (q ∷ ps) zero p h k = (k, h.1)
set-Operands f (q ∷ ps) (suc i) p h k = (h.0, set-Operands f ps i p h.1 k)

some-Operands : (f : Cells) (ps : List Ptr) → All (Present f) ps → Operands f (map some ps)
some-Operands f [] h = tt
some-Operands f (p ∷ ps) h = (h.0, some-Operands f ps h.1)

none-Operands : (f : Cells) (n : ℕ) → Operands f (replicate n none)
none-Operands f zero = tt
none-Operands f (suc n) = (tt, none-Operands f n)

empty_call : (f : Cells) → Fits f (functional_expr (user none) [])
empty_call f = (tt, tt)

-- `rec` keeps the store well formed and gives an object.
module _ (rec : Ast → M Ptr)
    (sound : (w : World) → IsValid w → (ast : Ast) → Sound w Present (rec ast)) where
  Sound-assigned :
      (w : World)
      → IsValid w
      → (ast : Ast) (sym : Ptr) → IsSymbol w.cell sym
      → Sound w Any (assigned_symbol rec ast sym)
  unfolding assigned_symbol
  Sound-assigned w v ast sym p = Sound-bind (Sound-lift w v _) λ name w1 v1 e1 _.
      Sound-then (Sound-store w1 v1 (symbol name none) tt sym (e1.keeps symbols sym p)) λ w2 v2 e2.
        Sound-bind (Sound-lift w2 v2 _) λ rhs_ast w3 v3 e3 _.
          Sound-bind (sound w3 v3 rhs_ast) λ rhs w4 v4 e4 q.
            Sound-store w4 v4 (symbol name (some rhs)) q sym (
              e4.keeps symbols sym
                (e3.keeps symbols sym (e2.keeps symbols sym (e1.keeps symbols sym p))))

  pub Sound-symbol_from_ast :
      (w : World) → IsValid w → (ast : Ast) → Sound w IsSymbol (symbol_from_ast rec ast)
  unfolding symbol_from_ast new_symbol
  Sound-symbol_from_ast w v ast =
      Sound-if w (is identifier ast)
        (Sound-bind (Sound-get_current_context w v)
          λ c w1 v1 e1 _. Sound-resolve w1 v1 (content ast) c)
        (Sound-bind (Sound-alloc w v (symbol [] none) tt) λ sym w1 v1 e1 p.
          Sound-then
            (Sound-if w1 (is param ast) (Sound-param_symbol w1 v1 ast sym p)
              (Sound-assigned w1 v1 ast sym p))
            λ w2 v2 e2. Sound-pure w2 v2 sym (e2.keeps symbols sym p))

  pub Sound-ret_expr :
      (w : World)
      → IsValid w
      → (ast : Ast) → Sound w (λ f. Points f ret_exprs) (ret_expr_from_ast rec ast)
  unfolding ret_expr_from_ast
  Sound-ret_expr w v ast = Sound-then (Sound-lift w v _) λ w1 v1 e1.
      Sound-bind (Sound-alloc w1 v1 (ret_expr none) tt) λ ret w2 v2 e2 p.
        Sound-bind (Sound-lift w2 v2 _) λ r w3 v3 e3 _. Sound-bind (sound w3 v3 r) λ rhs w4 v4 e4 q.
          let here = e4.keeps ret_exprs ret (e3.keeps ret_exprs ret p) in
          Sound-then (Sound-store w4 v4 (ret_expr (some rhs)) q ret here)
            λ w5 v5 e5. Sound-pure w5 v5 ret (e5.keeps ret_exprs ret here)

  Sound-function :
      (w : World)
      → IsValid w
      → (r : FunctionalRule) (ast : Ast) → Sound w FunctionFits (function_from_expr rec r ast)
  unfolding function_from_expr
  Sound-function w v bin ast = Sound-bind (Sound-lift w v _) λ op w1 v1 e1 _. Sound-pure w1 v1 _ tt
  Sound-function w v unary ast =
      Sound-bind (Sound-lift w v _) λ op w1 v1 e1 _. Sound-pure w1 v1 _ tt
  Sound-function w v f_call ast =
      Sound-bind (Sound-symbol_from_ast w v ast) λ s w1 v1 e1 p. Sound-pure w1 v1 _ p
  Sound-function w v if_else ast = Sound-pure w v _ tt

  Sound-bind_loop :
      (w : World)
      → IsValid w
      → (index : List (Text × ℕ)) (names : List Text) (asts : List Ast) (opnds : List (Option Ptr))
      → Operands w.cell opnds
      → Sound w Operands (bind_loop rec index names asts opnds)
  unfolding bind_loop
  Sound-bind_loop w v index [] asts opnds h = Sound-pure w v opnds h
  Sound-bind_loop w v index (name ∷ names) [] opnds h = Sound-throw w v undefined
  Sound-bind_loop w v index (name ∷ names) (ast ∷ asts) opnds h =
      Sound-bind (Sound-lift w v _) λ i w1 v1 e1 _. Sound-bind (sound w1 v1 ast) λ p w2 v2 e2 k.
        Sound-bind_loop w2 v2 index names asts (set opnds i (some p)) (
          set-Operands w2.cell opnds i p
            (Operands-mono w1.cell w2.cell e2 opnds (Operands-mono w.cell w1.cell e1 opnds h)) k)

  Sound-pass_opnds :
      (w : World)
      → IsValid w
      → (named : Bool) (ast : Ast) (func : FunctionProto) (asts : List Ast)
      → Sound w Operands (pass_opnds rec named ast func asts)
  unfolding pass_opnds named_opnds positional_opnds
  Sound-pass_opnds w v true ast func asts = Sound-bind (Sound-lift w v _) λ labels w1 v1 e1 _.
      Sound-bind (Sound-callee w1 v1 func) λ ctx w2 v2 e2 _.
        Sound-then (Sound-lift w2 v2 _) λ w3 v3 e3.
          Sound-bind
            (Sound-each {Q = Any} (λ f g e b q. tt) (λ u v' p. Sound-get_name u v' p) w3 v3
              ctx.params)
            λ names w4 v4 e4 _.
              Sound-bind_loop w4 v4 _ labels asts _ (none-Operands w4.cell (length asts))
  Sound-pass_opnds w v false ast func asts =
      Sound-bind (Sound-each (λ f g e p q. Present-mono e p q) (λ u v' a. sound u v' a) w v asts)
        λ ps w1 v1 e1 h. Sound-pure w1 v1 _ (some-Operands w1.cell ps h)

  finish :
      (w : World)
      → IsValid w
      → (fexpr : Ptr) (func : FunctionProto) (opnds : List (Option Ptr))
      → Fits w.cell (functional_expr func opnds)
      → Points w.cell other fexpr
      → Sound w Present (store fexpr (functional_expr func opnds) >> pure fexpr)
  finish w v fexpr func opnds h p =
      Sound-then (Sound-store w v (functional_expr func opnds) h fexpr p)
        λ u v' e. Sound-pure u v' fexpr (other, e.keeps other fexpr p)

  after_alloc :
      (w : World)
      → IsValid w
      → (r : FunctionalRule) (ast : Ast) (fexpr : Ptr) → Points w.cell other fexpr
      → Sound w Present (do
        asts ← lift (rule_opnds r ast)
        func_ast ← lift (rule_function r ast)
        func ← function_from_expr rec r func_ast
        named ← lift (binds_params r ast)
        opnds ← pass_opnds rec named ast func asts
        store fexpr (functional_expr func opnds)
        pure fexpr)
  after_alloc w1 v1 r ast fexpr p = Sound-bind (Sound-lift w1 v1 _) λ asts w2 v2 e2 _.
      Sound-bind (Sound-lift w2 v2 _) λ f w3 v3 e3 _.
        Sound-bind (Sound-function w3 v3 r f) λ func w4 v4 e4 q.
          Sound-bind (Sound-lift w4 v4 _) λ named w5 v5 e5 _.
            Sound-bind (Sound-pass_opnds w5 v5 named ast func asts) λ opnds w6 v6 e6 h.
              finish w6 v6 fexpr func opnds (FunctionFits-mono (Extends-trans e5 e6) func q, h)
                (e6.keeps other fexpr (
                  e5.keeps other fexpr
                    (e4.keeps other fexpr (e3.keeps other fexpr (e2.keeps other fexpr p)))))

  Sound-make_functional :
      (w : World)
      → IsValid w
      → (r : FunctionalRule) (ast : Ast) → Sound w Present (make_functional rec r ast)
  unfolding make_functional
  Sound-make_functional w v r ast =
      Sound-bind (Sound-alloc w v (functional_expr (user none) []) (empty_call w.cell))
        λ fexpr w1 v1 e1 p. after_alloc w1 v1 r ast fexpr p

  pub Sound-functional :
      (w : World) → IsValid w → (ast : Ast) → Sound w Present (functional_from_ast rec ast)
  unfolding functional_from_ast
  Sound-functional w v ast = elim (Option-cases (functional_rule ast)) [
    | inl e ↦ rw (e, functional_from_ast) (Sound-throw w v internal_bug)
    | inr (r, e) ↦ rw (e, functional_from_ast) (Sound-make_functional w v r ast)
  ]
