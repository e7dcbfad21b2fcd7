-- ===== src/GenLlvm/Steady.antt =====
-- Runs of the code generator that keep what is known already: the types, the expressions below an address,
-- and the functions and structures that have been made.
pub mod Rules
use casterisk.Prelude.{
  ℕ, suc, ◌≤◌, ◌≡◌, ◌∙◌, refl, sym, subst, List, [], ◌∷◌, Option, none, some, Text, Bool, true,
  false, if◌then◌else◌, ◌==◌, arith, Bool-cases, inl, inr, ==_iff,
}
use casterisk.Outcome.{Fault, Outcome, ok, raised, undefined}
use casterisk.Semantics.Graph.{Ptr, M}
use casterisk.Semantics.Graph.Framed.{Framed, Frame-trans}
use casterisk.Typing.Types.Intern.{IsInterned}
use casterisk.Typing.Typer as Typer
use casterisk.Typing.Typer.{Typer, Typed, gives, refuses, T}
use casterisk.Typing.Safe.{
  Kept, Kept-refl, AfterT, after_gives, after_refuses, after_starves, Safe, Safe-on_exprs,
}
use casterisk.GenLlvm.Builder.{Llvm, Gen}
use casterisk.GenLlvm.Session.{
  DriverBuilder, Session, Made, made, failed, starves, D, next_of, ◌>>=◌, ◌>>◌, pure, throw, lift,
  back, on_types, on_exprs, build, after_gen, gen, ask, change, emit, set_curr_func, set_ctx_struct,
  set_ctx_func, set_storage, each, for_each, for_index, deref,
}

-- What a run may do to the members of the driver: a context that has a function keeps it, and one that has
-- a structure keeps having one.
pub record Grows {L : Llvm} {K : DriverBuilder L} (n : Ptr) (s u : Session L K) : Type 0 where
  pub kept : Kept n s.typer u.typer
  pub functions : (p : Ptr) (f : K.Func) → s.typed_ctx_func p ≡ some f → u.typed_ctx_func p ≡ some f
  pub structures :
      (p : Ptr) (v : L.Value)
      → s.slazy_ctx_struct p ≡ some v
      → (w : L.Value) × (u.slazy_ctx_struct p ≡ some w)

abbrev pub Absent : {A : Type 0} → (Ptr → Option A) → Option Ptr → Type 0
Absent f none = Unit {0}
Absent f (some p) = f p ≡ none

-- The driver is in the function `c`, and has none for the context `a`, if one is named.
pub record At {L : Llvm} {K : DriverBuilder L} (c : Option K.Func) (a : Option Ptr)
    (s : Session L K) : Type 0 where
  pub function : s.curr_func ≡ c
  pub absent : Absent s.typed_ctx_func a

-- The end of a run that began in `s`; `Q` holds of the state if a value is returned.
pub data EndsIn {L : Llvm} {K : DriverBuilder L} {A : Type 0} (n : Ptr) (s : Session L K)
    (Q : Session L K → Type 0) : Made L K A → Type 0 where
  ends_made : {a : A} {u : Session L K} → Grows n s u → Q u → EndsIn n s Q (made a u)
  ends_failed : {e : Fault} {u : Session L K} → Grows n s u → EndsIn n s Q (failed e u)
  ends_starves : EndsIn n s Q starves

pub record From {L : Llvm} {K : DriverBuilder L} {A : Type 0} (n : Ptr) (P Q : Session L K → Type 0)
    (m : D L K A) : Type 0 where
  pub runs :
      (s : Session L K)
      → IsInterned s.typer.table
      → n ≤ s.typer.exprs.next
      → P s
      → EndsIn n s Q (m s)

-- The run comes back to the function that it began in.
pub record Steady {L : Llvm} {K : DriverBuilder L} {A : Type 0} (n : Ptr) (a : Option Ptr)
    (m : D L K A) : Type 0 where
  pub at : (c : Option K.Func) → From n (At c a) (At c a) m

Kept-trans : {n : Ptr} {s t u : Typer} → Kept n s t → Kept n t u → Kept n s u
Kept-trans a b = record { interned = b.interned; frame = Frame-trans a.frame b.frame }

module _ {L : Llvm} {K : DriverBuilder L} {n : Ptr} where
  pub Grows-refl : (s : Session L K) → IsInterned s.typer.table → Grows n s s
  Grows-refl s w = record {
    kept = Kept-refl n s.typer w;
    functions = λ p f e. e;
    structures = λ p v e. (v, e);
  }

  Grows-trans : {s t u : Session L K} → Grows n s t → Grows n t u → Grows n s u
  Grows-trans a b = record {
    kept = Kept-trans a.kept b.kept;
    functions = λ p f e. b.functions p f (a.functions p f e);
    structures = λ p v e. let (w, d) = a.structures p v e in b.structures p w d;
  }

  module _ {A : Type 0} where
    EndsIn-after :
        {s t : Session L K} {Q : Session L K → Type 0} {r : Made L K A}
        → Grows n s t
        → EndsIn n t Q r
        → EndsIn n s Q r
    EndsIn-after g (ends_made h q) = ends_made (Grows-trans g h) q
    EndsIn-after g (ends_failed h) = ends_failed (Grows-trans g h)
    EndsIn-after g ends_starves = ends_starves

    module _ {P : Session L K → Type 0} where
      pub From-pure : (a : A) → From n P P (pure a)
      unfolding pure
      From-pure a = record { runs = λ s w h p. ends_made (Grows-refl s w) p }

      pub From-throw : {Q : Session L K → Type 0} (e : Fault) → From {A = A} n P Q (throw e)
      unfolding throw
      From-throw e = record { runs = λ s w h p. ends_failed (Grows-refl s w) }

      pub From-starves : {Q : Session L K → Type 0} → From {A = A} n P Q (λ s. starves)
      From-starves = record { runs = λ s w h p. ends_starves }

      -- Less is known before, or asked for behind.
      pub From-weaken :
          {P' Q Q' : Session L K → Type 0} {m : D L K A}
          → ((s : Session L K) → P' s → P s)
          → ((s : Session L K) → Q s → Q' s)
          → From n P Q m
          → From n P' Q' m
      From-weaken f k g = record { runs = λ s w h p. weaker k (g.runs s w h (f s p)) }
        where
          weaker :
              {Q Q' : Session L K → Type 0} {s : Session L K} {r : Made L K A}
              → ((s : Session L K) → Q s → Q' s)
              → EndsIn n s Q r
              → EndsIn n s Q' r
          weaker k (ends_made h q) = ends_made h (k _ q)
          weaker k (ends_failed h) = ends_failed h
          weaker k ends_starves = ends_starves

module _ {L : Llvm} {K : DriverBuilder L} {n : Ptr} {A B : Type 0}
    {Q R : Session L K → Type 0} where
  onwards :
      {s : Session L K} {r : Made L K A} {f : A → D L K B}
      → n ≤ s.typer.exprs.next
      → EndsIn n s Q r
      → ((a : A) → From n Q R (f a))
      → EndsIn n s R (next_of r f)
  onwards h (ends_made {a} {u} g q) k =
      EndsIn-after g ((k a).runs u g.kept.interned (omega (arith, g.kept.frame.grows)) q)
  onwards h (ends_failed g) k = ends_failed g
  onwards h ends_starves k = ends_starves

  pub From-bind :
      {P : Session L K → Type 0} {m : D L K A} {f : A → D L K B}
      → From n P Q m
      → ((a : A) → From n Q R (f a))
      → From n P R (m >>= f)
  unfolding ◌>>=◌
  From-bind g k = record { runs = λ s w h p. onwards h (g.runs s w h p) k }

  pub From-then :
      {P : Session L K → Type 0} {m : D L K A} {k : D L K B}
      → From n P Q m
      → From n Q R k
      → From n P R (m >> k)
  unfolding ◌>>◌
  From-then g k = From-bind g λ a. k

module _ {L : Llvm} {K : DriverBuilder L} {n : Ptr} {A B : Type 0}
    {P R : Session L K → Type 0} where
  -- A member that is asked for, whose value is known.
  pub From-known :
      (k : A → D L K B) (f : Session L K → A) (a : A)
      → ((s : Session L K) → P s → f s ≡ a)
      → From n P R (k a)
      → From n P R (ask f >>= k)
  unfolding ask ◌>>=◌
  From-known k f a e g = record { runs = λ s w h p. rw (e s p) (g.runs s w h p) }

  -- What is known of the value of a member.
  pub From-ask :
      {k : A → D L K B} (f : Session L K → A)
      → ((a : A) → From n (λ s. P s × (f s ≡ a)) R (k a))
      → From n P R (ask f >>= k)
  unfolding ask ◌>>=◌
  From-ask f g = record { runs = λ s w h p. (g (f s)).runs s w h (p, refl) }

module _ {L : Llvm} {K : DriverBuilder L} {n : Ptr} {A : Type 0} where
  -- A step that changes what is not in `At`.
  pub Steady-step :
      {a : Option Ptr} {m : D L K A}
      → ((s : Session L K)
          → IsInterned s.typer.table
          → n ≤ s.typer.exprs.next
          → EndsIn n s
              (λ u. (u.curr_func ≡ s.curr_func) × (u.typed_ctx_func ≡ s.typed_ctx_func))
              (m s))
      → Steady n a m
  Steady-step {a} k = record { at = λ c. record { runs = λ s w h p. there c s p (k s w h) } }
    where
      there :
          (c : Option K.Func) (s : Session L K) {r : Made L K A}
          → At c a s
          → EndsIn n s (λ u. (u.curr_func ≡ s.curr_func) × (u.typed_ctx_func ≡ s.typed_ctx_func)) r
          → EndsIn n s (At c a) r
      there c s p (ends_made {u = u} g (x, y)) =
          ends_made g (record {
            function = x ∙ p.function;
            absent = subst (λ f. Absent f a) (sym y) p.absent;
          })
      there c s p (ends_failed g) = ends_failed g
      there c s p ends_starves = ends_starves
