-- ===== src/Semantics/Graph/Valid.antt =====
-- When a store of expressions is well formed: every pointer leads to an object, of the class that its
-- declared type names.
pub mod Sound
pub mod Rules
use casterisk.Prelude.{
  ℕ, ◌<◌, ◌≤◌, ◌≡◌, ◌∙◌, sym, ap, refl, List, [], ◌∷◌, Option, none, some, Text, All, All-mono,
  All-append, arith,
}
use casterisk.Semantics.Graph.{
  Ptr, FunctionProto, user, bin_op, unary_op, if_else_op, Context, Object, constant, symbol,
  ret_expr, functional_expr, context, module_expr, World,
}

-- The classes that pointers of the program are declared to lead to; another class counts as `other`.
pub data Sort : Type 0 where
  symbols ret_exprs contexts other : Sort

abbrev pub sort_of : Object → Sort
sort_of (constant v) = other
sort_of (symbol name rhs) = symbols
sort_of (ret_expr rhs) = ret_exprs
sort_of (functional_expr func opnds) = other
sort_of (context c) = contexts
sort_of (module_expr ctx) = other

abbrev pub Cells : Type 0
Cells = Ptr → Option Object

-- The address holds an object of the class.
abbrev pub Points : Cells → Sort → Ptr → Type 0
Points f s p = (o : Object) × (f p ≡ some o) × (sort_of o ≡ s)

-- The address holds an object.
abbrev pub Present : Cells → Ptr → Type 0
Present f p = (s : Sort) × Points f s p

abbrev pub OrNull : (Ptr → Type 0) → Option Ptr → Type 0
OrNull P none = Unit {0}
OrNull P (some p) = P p

pub record ContextFits (f : Cells) (c : Context) : Type 0 where
  pub accessible : All (λ e. OrNull (Points f symbols) e.1) c.accessible
  pub params : All (Points f symbols) c.params
  pub captures : All (Points f symbols) c.captures
  pub locals : All (Points f symbols) c.locals
  pub ret_expr : OrNull (Points f ret_exprs) c.ret_expr

abbrev pub FunctionFits : Cells → FunctionProto → Type 0
FunctionFits f (user p) = OrNull (Points f symbols) p
FunctionFits f _ = Unit {0}

-- The members of the object lead to objects of the classes of their declared types.
abbrev pub Fits : Cells → Object → Type 0
Fits f (constant v) = Unit {0}
Fits f (symbol name rhs) = OrNull (Present f) rhs
Fits f (ret_expr rhs) = OrNull (Present f) rhs
Fits f (functional_expr func opnds) = FunctionFits f func × All (OrNull (Present f)) opnds
Fits f (context c) = ContextFits f c
Fits f (module_expr ctx) = OrNull (Points f contexts) ctx

pub record IsValid (w : World) : Type 0 where
  pub used : (p : Ptr) (o : Object) → w.cell p ≡ some o → p < w.next
  pub objects : (p : Ptr) (o : Object) → w.cell p ≡ some o → Fits w.cell o
  pub current : OrNull (Points w.cell contexts) w.current

-- Objects stay, and keep their classes.
pub record Extends (f g : Cells) : Type 0 where
  pub keeps : (s : Sort) (p : Ptr) → Points f s p → Points g s p

pub Extends-refl : (f : Cells) → Extends f f
Extends-refl f = record { keeps = λ s p h. h }

pub Extends-trans : {f g h : Cells} → Extends f g → Extends g h → Extends f h
Extends-trans a b = record { keeps = λ s p x. b.keeps s p (a.keeps s p x) }

pub OrNull-mono :
    {P Q : Ptr → Type 0} → ((p : Ptr) → P p → Q p) → (p : Option Ptr) → OrNull P p → OrNull Q p
OrNull-mono k none h = tt
OrNull-mono k (some p) h = k p h

module _ {f g : Cells} (e : Extends f g) where
  pub Present-mono : (p : Ptr) → Present f p → Present g p
  Present-mono p (s, h) = (s, e.keeps s p h)

  pub ContextFits-mono : (c : Context) → ContextFits f c → ContextFits g c
  ContextFits-mono c h = record {
    accessible = All-mono (λ i k. OrNull-mono (e.keeps symbols) i.1 k) c.accessible h.accessible;
    params = All-mono (e.keeps symbols) c.params h.params;
    captures = All-mono (e.keeps symbols) c.captures h.captures;
    locals = All-mono (e.keeps symbols) c.locals h.locals;
    ret_expr = OrNull-mono (e.keeps ret_exprs) c.ret_expr h.ret_expr;
  }

  pub FunctionFits-mono : (func : FunctionProto) → FunctionFits f func → FunctionFits g func
  FunctionFits-mono (user p) h = OrNull-mono (e.keeps symbols) p h
  FunctionFits-mono _ h = tt

  pub Fits-mono : (o : Object) → Fits f o → Fits g o
  Fits-mono (constant v) h = tt
  Fits-mono (symbol name rhs) h = OrNull-mono Present-mono rhs h
  Fits-mono (ret_expr rhs) h = OrNull-mono Present-mono rhs h
  Fits-mono (functional_expr func opnds) h =
      (FunctionFits-mono func h.0, All-mono (OrNull-mono Present-mono) opnds h.1)
  Fits-mono (context c) h = ContextFits-mono c h
  Fits-mono (module_expr ctx) h = OrNull-mono (e.keeps contexts) ctx h
