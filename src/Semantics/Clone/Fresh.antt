-- ===== src/Semantics/Clone/Fresh.antt =====
-- `deep_clone` gives the address of an object that it has made.
use casterisk.Outcome.{Fault}
use casterisk.Prelude.{arith, ℕ, zero, suc, ◌≤◌, ◌≡◌, refl, Option-cases, inl, inr}
use casterisk.Semantics.Graph.{
  Ptr, Object, constant, symbol, ret_expr, functional_expr, context, module_expr, World, Run,
  returned, thrown, out_of_fuel, M, and_then, ◌>>=◌, ◌>>◌, pure, alloc, load,
}
use casterisk.Semantics.Clone.{
  SymbolTable, clone, clone_symbol, clone_ret, clone_functional, clone_context, clone_module,
  clone_step, deep_clone,
}

-- A value that the run returns has the property.
pub data Giving (P : Ptr → Type 0) : Run Ptr → Type 0 where
  gives : {p : Ptr} {w : World} → P p → Giving P (returned p w)
  throws : {e : Fault} {w : World} → Giving P (thrown e w)
  starves : Giving P out_of_fuel

-- The run returns nothing but `p`.
record Only (p : Ptr) (m : M Ptr) : Type 0 where
  runs : (w : World) → Giving (λ q. q ≡ p) (m w)

Only-pure : (p : Ptr) → Only p (pure p)
unfolding pure
Only-pure p = record { runs = λ w. gives refl }

Only-bind :
    {A : Type 0} {p : Ptr} (m : M A) {f : A → M Ptr} → ((a : A) → Only p (f a)) → Only p (m >>= f)
unfolding ◌>>=◌
Only-bind m k = record { runs = λ w. through (m w) k }
  where
    through :
        {A : Type 0} {p : Ptr} {f : A → M Ptr} (r : Run A)
        → ((a : A) → Only p (f a))
        → Giving (λ q. q ≡ p) (and_then r f)
    through (returned a w) k = (k a).runs w
    through (thrown e w) k = throws
    through out_of_fuel k = starves

Only-then : {A : Type 0} {p : Ptr} (m : M A) {k : M Ptr} → Only p k → Only p (m >> k)
unfolding ◌>>◌
Only-then m g = Only-bind m λ _. g

ruleset only = (Only-pure, Only-bind, Only-then)

-- The run returns nothing but addresses that were not in use.
pub record Fresh (m : M Ptr) : Type 0 where
  pub runs : (w : World) → Giving (λ q. w.next ≤ q) (m w)

Giving-only :
    {p : Ptr} {n : ℕ} {r : Run Ptr} → n ≤ p → Giving (λ q. q ≡ p) r → Giving (λ q. n ≤ q) r
Giving-only h (gives e) = gives (omega (arith, e))
Giving-only h throws = throws
Giving-only h starves = starves

Fresh-alloc : {f : Ptr → M Ptr} (o : Object) → ((p : Ptr) → Only p (f p)) → Fresh (alloc o >>= f)
unfolding alloc ◌>>=◌
Fresh-alloc o k = record { runs = λ w. Giving-only (omega arith) ((k w.next).runs _) }

Fresh-clone : (p : Ptr) → Fresh (clone p)
unfolding clone alloc load ◌>>=◌
Fresh-clone p = record {
  runs = λ w. elim (Option-cases (w.cell p)) [
    | inl e ↦ rw (e, clone, load, ◌>>=◌) throws
    | inr (o, e) ↦ rw (e, clone, load, alloc, ◌>>=◌) (gives (omega arith))
  ];
}

module _ (rec : Ptr → SymbolTable → M Ptr) where
  Fresh-step : (p : Ptr) (st : SymbolTable) (o : Object) → Fresh (clone_step rec p st o)
  unfolding clone_step clone_symbol clone_ret clone_functional clone_context clone_module
  Fresh-step p st (constant v) = Fresh-clone p
  Fresh-step p st (symbol name rhs) = search (only, Fresh-alloc) depth 12
  Fresh-step p st (ret_expr rhs) = search (only, Fresh-alloc) depth 12
  Fresh-step p st (functional_expr func opnds) = search (only, Fresh-alloc) depth 12
  Fresh-step p st (context c) = search (only, Fresh-alloc) depth 16
  Fresh-step p st (module_expr ctx) = search (only, Fresh-alloc) depth 12

-- A clone stands at an address that was not in use.
pub Fresh-deep_clone : (fuel : ℕ) (p : Ptr) (st : SymbolTable) → Fresh (deep_clone fuel p st)
unfolding deep_clone load ◌>>=◌
Fresh-deep_clone zero p st = record { runs = λ w. starves }
Fresh-deep_clone (suc fuel) p st = record {
  runs = λ w. elim (Option-cases (w.cell p)) [
    | inl e ↦ rw (e, deep_clone, load, ◌>>=◌) throws
    | inr (o, e) ↦ rw (e, deep_clone, load, ◌>>=◌) ((Fresh-step (deep_clone fuel) p st o).runs w)
  ];
}
