-- ===== src/GenLlvm/Steady/Rules.antt =====
-- The steps of the code generator that are steady.
use casterisk.Prelude.{
  ℕ, suc, ◌≡◌, refl, List, [], ◌∷◌, Option, none, some, Bool, true, false, if◌then◌else◌, ◌==◌,
  Bool-cases, inl, inr,
}
use casterisk.Outcome.{Fault, Outcome, ok, raised, undefined}
use casterisk.Semantics.Graph.{Ptr, M}
use casterisk.Semantics.Graph.Framed.{Framed}
use casterisk.Typing.Types.Intern.{IsInterned}
use casterisk.Typing.Typer.{Typed, T}
use casterisk.Typing.Safe.{
  Kept, Kept-refl, AfterT, after_gives, after_refuses, after_starves, Safe, Safe-on_exprs,
}
use casterisk.GenLlvm.Builder.{Llvm, Gen}
use casterisk.GenLlvm.Session.{
  DriverBuilder, Session, starves, D, ◌>>=◌, ◌>>◌, pure, throw, lift, back, on_types, on_exprs,
  build, after_gen, gen, ask, change, emit, set_ctx_struct, set_storage, each, for_each, for_index,
  deref,
}
use casterisk.GenLlvm.Steady.{
  Grows, Grows-refl, EndsIn, ends_made, ends_failed, ends_starves, Steady, From-pure, From-throw,
  From-starves, From-bind, From-then, Steady-step,
}

module _ {L : Llvm} {K : DriverBuilder L} {n : Ptr} {a : Option Ptr} {A : Type 0} where
  pub Steady-pure : (x : A) → Steady {L = L} {K = K} n a (pure x)
  Steady-pure x = record { at = λ c. From-pure x }

  pub Steady-throw : (e : Fault) → Steady {L = L} {K = K} {A = A} n a (throw e)
  Steady-throw e = record { at = λ c. From-throw e }

  pub Steady-starves : Steady {L = L} {K = K} {A = A} n a (λ s. starves)
  Steady-starves = record { at = λ c. From-starves }

  pub Steady-lift : (o : Outcome A) → Steady {L = L} {K = K} n a (lift o)
  unfolding lift
  Steady-lift (ok x) = Steady-pure x
  Steady-lift (raised e) = Steady-throw e

  pub Steady-deref : (o : Option A) → Steady {L = L} {K = K} n a (deref o)
  unfolding deref
  Steady-deref none = Steady-throw undefined
  Steady-deref (some x) = Steady-pure x

  pub Steady-if :
      (b : Bool) {x y : D L K A} → Steady n a x → Steady n a y → Steady n a (if b then x else y)
  Steady-if true g h = g
  Steady-if false g h = h

module _ {L : Llvm} {K : DriverBuilder L} {n : Ptr} {a : Option Ptr} {A B : Type 0} where
  pub Steady-bind :
      {m : D L K A} {f : A → D L K B}
      → Steady n a m
      → ((x : A) → Steady n a (f x))
      → Steady n a (m >>= f)
  Steady-bind g k = record { at = λ c. From-bind (g.at c) λ x. (k x).at c }

  pub Steady-then : {m : D L K A} {k : D L K B} → Steady n a m → Steady n a k → Steady n a (m >> k)
  Steady-then g k = record { at = λ c. From-then (g.at c) (k.at c) }

module _ {L : Llvm} {K : DriverBuilder L} {n : Ptr} {a : Option Ptr} {A B : Type 0} where
  pub Steady-each :
      {f : A → D L K B} → ((x : A) → Steady n a (f x)) → (xs : List A) → Steady n a (each f xs)
  unfolding each
  Steady-each g [] = Steady-pure []
  Steady-each g (x ∷ xs) =
      Steady-bind (g x) λ y. Steady-bind (Steady-each g xs) λ ys. Steady-pure (y ∷ ys)

module _ {L : Llvm} {K : DriverBuilder L} {n : Ptr} {a : Option Ptr} {A : Type 0} where
  pub Steady-for_each :
      {f : A → D L K (Unit {0})}
      → ((x : A) → Steady n a (f x))
      → (xs : List A) → Steady n a (for_each f xs)
  unfolding for_each
  Steady-for_each g [] = Steady-pure tt
  Steady-for_each g (x ∷ xs) = Steady-then (g x) (Steady-for_each g xs)

  pub Steady-for_index :
      {f : ℕ → A → D L K (Unit {0})}
      → ((i : ℕ) (x : A) → Steady n a (f i x))
      → (i : ℕ) (xs : List A) → Steady n a (for_index f i xs)
  unfolding for_index
  Steady-for_index g i [] = Steady-pure tt
  Steady-for_index g i (x ∷ xs) = Steady-then (g i x) (Steady-for_index g (suc i) xs)

module _ {L : Llvm} {K : DriverBuilder L} {n : Ptr} where
  built :
      (s : Session L K) (b : L.State)
      → IsInterned s.typer.table
      → Grows n s (record s { builder = b })
  built s b w = record {
    kept = Kept-refl n s.typer w;
    functions = λ p f e. e;
    structures = λ p v e. (v, e);
  }

module _ {L : Llvm} {K : DriverBuilder L} {n : Ptr} {A : Type 0} where
  from_types :
      (s : Session L K) {r : Typed A}
      → AfterT (Kept n s.typer) r
      → EndsIn n s
          (λ u. (u.curr_func ≡ s.curr_func) × (u.typed_ctx_func ≡ s.typed_ctx_func))
          (back s r)
  from_types s (after_gives k) =
      ends_made (record { kept = k; functions = λ p f e. e; structures = λ p v e. (v, e) })
        (refl, refl)
  from_types s (after_refuses k) =
      ends_failed (record { kept = k; functions = λ p f e. e; structures = λ p v e. (v, e) })
  from_types s after_starves = ends_starves

  from_gen :
      (s : Session L K)
      → IsInterned s.typer.table
      → (r : Outcome (A × L.State))
      → EndsIn n s
          (λ u. (u.curr_func ≡ s.curr_func) × (u.typed_ctx_func ≡ s.typed_ctx_func))
          (after_gen s r)
  from_gen s w (ok (x, b)) = ends_made (built s b w) (refl, refl)
  from_gen s w (raised e) = ends_failed (Grows-refl s w)

structure_stays :
    {A : Type 0} (f : Ptr → Option A) (p : Ptr) (v : A) (q : Ptr) (x : A)
    → f q ≡ some x
    → (y : A) × ((if q == p then some v else f q) ≡ some y)
structure_stays f p v q x e = elim (Bool-cases (q == p)) [
  | inl t ↦ (v, rw (t) refl)
  | inr t ↦ (x, rw (t) e)
]

module _ {L : Llvm} {K : DriverBuilder L} {n : Ptr} {a : Option Ptr} {A : Type 0} where
  pub Steady-on_types : {m : T A} → Safe n m → Steady {L = L} {K = K} n a (on_types m)
  unfolding on_types
  Steady-on_types g = Steady-step λ s w h. from_types s (g.runs s.typer w h)

  pub Steady-on_exprs : {m : M A} → Framed n m → Steady {L = L} {K = K} n a (on_exprs m)
  unfolding on_exprs
  Steady-on_exprs g = Steady-on_types (Safe-on_exprs g)

  pub Steady-build : (f : L.State → A × L.State) → Steady {L = L} {K = K} n a (build f)
  unfolding build
  Steady-build f = Steady-step λ s w h. ends_made (built s (f s.builder).1 w) (refl, refl)

  pub Steady-gen : (m : Gen L.State A) → Steady {L = L} {K = K} n a (gen m)
  unfolding gen
  Steady-gen m = Steady-step λ s w h. from_gen s w (m s.builder)

  pub Steady-ask : (f : Session L K → A) → Steady n a (ask f)
  unfolding ask
  Steady-ask f = Steady-step λ s w h. ends_made (Grows-refl s w) (refl, refl)

module _ {L : Llvm} {K : DriverBuilder L} {n : Ptr} {a : Option Ptr} where
  pub Steady-emit : (f : L.State → L.State) → Steady {L = L} {K = K} n a (emit f)
  unfolding emit change
  Steady-emit f = Steady-step λ s w h.
      ends_made
        (record {
          kept = Kept-refl n s.typer w;
          functions = λ p f e. e;
          structures = λ p v e. (v, e);
        })
        (refl, refl)

  pub Steady-set_storage :
      (p : Ptr) (v : Option L.Value) → Steady {L = L} {K = K} n a (set_storage p v)
  unfolding set_storage change
  Steady-set_storage p v = Steady-step λ s w h.
      ends_made
        (record {
          kept = Kept-refl n s.typer w;
          functions = λ p f e. e;
          structures = λ p v e. (v, e);
        })
        (refl, refl)

  pub Steady-set_ctx_struct :
      (p : Ptr) (v : L.Value) → Steady {L = L} {K = K} n a (set_ctx_struct p v)
  unfolding set_ctx_struct change
  Steady-set_ctx_struct p v = Steady-step λ s w h.
      ends_made
        (record {
          kept = Kept-refl n s.typer w;
          functions = λ q f e. e;
          structures = λ q x e. structure_stays s.slazy_ctx_struct p v q x e;
        })
        (refl, refl)

pub ruleset steady = (
  Steady-pure, Steady-throw, Steady-lift, Steady-deref, Steady-if, Steady-bind, Steady-then,
  Steady-each, Steady-for_each, Steady-for_index, Steady-build, Steady-gen, Steady-ask, Steady-emit,
  Steady-set_storage, Steady-set_ctx_struct,
)
