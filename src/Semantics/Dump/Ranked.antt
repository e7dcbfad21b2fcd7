-- ===== src/Semantics/Dump/Ranked.antt =====
-- Expressions that are not circular: each has a rank above the ranks of those that it points to.
use casterisk.Prelude.{ℕ, ◌<◌, ◌≤◌, ◌≡◌, sym, List, [], ◌∷◌, ◌++◌, Option, none, some, map, arith}
use mathlib.Core.Option.{some-injective}
use casterisk.Outcome.{Outcome, ok, raised}
use casterisk.Outcome.Yields.{Yields, holds, fails}
use casterisk.Semantics.Graph.{
  Ptr, World, FunctionProto, user, bin_op, unary_op, if_else_op, Object, constant, symbol, ret_expr,
  functional_expr, context, module_expr,
}
use casterisk.Semantics.Clone.{to_vector, present, function_dependencies, dependencies}

abbrev pub called : FunctionProto → Option Ptr
called (user uf) = uf
called _ = none

-- What an expression points to, without the names that are accessible in a context.
abbrev pub parts : Object → List (Option Ptr)
parts (constant v) = []
parts (symbol name rhs) = rhs ∷ []
parts (ret_expr rhs) = rhs ∷ []
parts (functional_expr func opnds) = called func ∷ opnds
parts (context c) = c.ret_expr ∷ map some (c.params ++ c.captures)
parts (module_expr ctx) = ctx ∷ []

module _ (rank : Ptr → ℕ) where
  -- The pointers have ranks below `n`.
  pub data Low (n : ℕ) : List (Option Ptr) → Type 0 where
    low_nil : Low n []
    low_none : {ps : List (Option Ptr)} → Low n ps → Low n (none ∷ ps)
    low_some : {p : Ptr} {ps : List (Option Ptr)} → rank p < n → Low n ps → Low n (some p ∷ ps)

  abbrev pub Ranked : World → Type 0
  Ranked w = (p : Ptr) (o : Object) → w.cell p ≡ some o → Low (rank p) (parts o)

module _ {rank : Ptr → ℕ} where
  pub Low-raise : {m n : ℕ} {ps : List (Option Ptr)} → m ≤ n → Low rank m ps → Low rank n ps
  Low-raise le low_nil = low_nil
  Low-raise le (low_none h) = low_none (Low-raise le h)
  Low-raise le (low_some lt h) = low_some (omega arith) (Low-raise le h)

  module _ {n : ℕ} where
    pub Low-head :
        {p : Option Ptr} {ps : List (Option Ptr)} → Low rank n (p ∷ ps) → Low rank n (p ∷ [])
    Low-head (low_none h) = low_none low_nil
    Low-head (low_some lt h) = low_some lt low_nil

    pub Low-tail : {p : Option Ptr} {ps : List (Option Ptr)} → Low rank n (p ∷ ps) → Low rank n ps
    Low-tail (low_none h) = h
    Low-tail (low_some lt h) = h

    pub Low-value : (p : Option Ptr) (q : Ptr) → Low rank n (p ∷ []) → p ≡ some q → rank q < n
    Low-value none q h e = absurd cc
    Low-value (some p) q (low_some lt h) e =
        let same : p ≡ q = some-injective p q e in rw (sym same) lt

    pub Low-append :
        (ps qs : List Ptr)
        → Low rank n (map some ps)
        → Low rank n (map some qs)
        → Low rank n (map some (ps ++ qs))
    Low-append [] qs g h = h
    Low-append (p ∷ ps) qs (low_some lt g) h = low_some lt (Low-append ps qs g h)

    pub Low-split :
        (ps qs : List Ptr)
        → Low rank n (map some (ps ++ qs))
        → Low rank n (map some ps) × Low rank n (map some qs)
    Low-split [] qs h = (low_nil, h)
    Low-split (p ∷ ps) qs (low_some lt h) = let (a, b) = Low-split ps qs h in (low_some lt a, b)

module _ (rank : Ptr → ℕ) (n : ℕ) where
  abbrev pub LowList : List Ptr → Type 0
  LowList ps = Low rank n (map some ps)

  present-Low : (ps : List (Option Ptr)) → Low rank n ps → Yields LowList (present ps)
  present-Low [] h = holds low_nil
  present-Low (none ∷ ps) h = fails
  present-Low (some p ∷ ps) (low_some lt h) = consed (present ps) (present-Low ps h)
    where
      consed :
          (o : Outcome (List Ptr))
          → Yields LowList o
          → Yields LowList (elim o [ ok qs ↦ ok (p ∷ qs) | raised e ↦ raised e ])
      consed (ok qs) (holds g) = holds (low_some lt g)
      consed (raised e) g = fails

  function_dependencies-Low :
      (func : FunctionProto)
      → Low rank n (called func ∷ [])
      → Yields LowList (function_dependencies func)
  function_dependencies-Low (user none) h = fails
  function_dependencies-Low (user (some p)) h = holds h
  function_dependencies-Low (bin_op bop) h = holds low_nil
  function_dependencies-Low (unary_op uop) h = holds low_nil
  function_dependencies-Low if_else_op h = holds low_nil

  both-Low :
      (o q : Outcome (List Ptr))
      → Yields LowList o
      → Yields LowList q
      → Yields LowList (elim o [
        | raised e ↦ raised e
        | ok ps ↦ elim q [ raised e ↦ raised e | ok qs ↦ ok (ps ++ qs) ]
      ])
  both-Low (raised e) q g h = fails
  both-Low (ok ps) (raised e) g h = fails
  both-Low (ok ps) (ok qs) (holds g) (holds h) = holds (Low-append ps qs g h)

  one-Low : (p : Option Ptr) → Low rank n (p ∷ []) → Yields LowList (ok (to_vector p))
  one-Low none h = holds low_nil
  one-Low (some p) h = holds h

  -- The dependencies of an expression are among its parts.
  pub dependencies-Low : (o : Object) → Low rank n (parts o) → Yields LowList (dependencies o)
  unfolding dependencies
  dependencies-Low (constant v) h = holds low_nil
  dependencies-Low (symbol name rhs) h = one-Low rhs h
  dependencies-Low (ret_expr rhs) h = one-Low rhs h
  dependencies-Low (functional_expr func opnds) h =
      both-Low (present opnds) (function_dependencies func) (present-Low opnds (Low-tail h))
        (function_dependencies-Low func (Low-head h))
  dependencies-Low (context c) h = holds (Low-split c.params c.captures (Low-tail h)).1
  dependencies-Low (module_expr ctx) h = holds low_nil
