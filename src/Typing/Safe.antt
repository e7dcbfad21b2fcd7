-- ===== src/Typing/Safe.antt =====
-- Runs of type inference that keep the table of types in order and change no expression below an
-- address.
use casterisk.Prelude.{
  ◌≤◌, List, [], ◌∷◌, Option, none, some, Text, Bool, true, false, if◌then◌else◌, arith,
}
use casterisk.Outcome.{Fault, Outcome, ok, raised}
use casterisk.Semantics.Graph.{Ptr, Run, M}
use casterisk.Semantics.Graph.Framed as Framed
use casterisk.Semantics.Graph.Framed.{Frame, After, Framed, Frame-refl, Frame-trans}
use casterisk.Semantics.Clone.Fresh as Fresh
use casterisk.Semantics.Clone.Fresh.{Giving, Fresh}
use casterisk.Typing.Types.{TypePtr, Content, serialize_type_id}
use casterisk.Typing.Types.Intern.{IsInterned, get_type-IsInterned}
use casterisk.Typing.Typer.{
  Typer, Typed, gives, refuses, starves, T, next_of, ◌>>=◌, ◌>>◌, pure, throw, lift, back, on_exprs,
  each, typed_as, set_type, null_typed, get_null_type, instance_of, set_instance, type_at,
  load_type, make_type, context_id, intern,
}

pub record Kept (n : Ptr) (s u : Typer) : Type 0 where
  pub interned : IsInterned u.table
  pub frame : Frame n s.exprs u.exprs

-- The state that a run ends in, by a return or an exception, has the property.
pub data AfterT {A : Type 0} (P : Typer → Type 0) : Typed A → Type 0 where
  after_gives : {a : A} {s : Typer} → P s → AfterT P (gives a s)
  after_refuses : {e : Fault} {s : Typer} → P s → AfterT P (refuses e s)
  after_starves : AfterT P starves

pub record Safe {A : Type 0} (n : Ptr) (m : T A) : Type 0 where
  pub runs : (s : Typer) → IsInterned s.table → n ≤ s.exprs.next → AfterT (Kept n s) (m s)

pub Kept-refl : (n : Ptr) (s : Typer) → IsInterned s.table → Kept n s s
Kept-refl n s w = record { interned = w; frame = Frame-refl n s.exprs }

AfterT-mono :
    {A : Type 0} {P Q : Typer → Type 0} {r : Typed A}
    → AfterT P r
    → ((s : Typer) → P s → Q s)
    → AfterT Q r
AfterT-mono (after_gives p) f = after_gives (f _ p)
AfterT-mono (after_refuses p) f = after_refuses (f _ p)
AfterT-mono after_starves f = after_starves

module _ {A : Type 0} {n : Ptr} where
  pub Safe-pure : (a : A) → Safe n (pure a)
  unfolding pure
  Safe-pure a = record { runs = λ s w h. after_gives (Kept-refl n s w) }

  pub Safe-throw : (e : Fault) → Safe {A = A} n (throw e)
  unfolding throw
  Safe-throw e = record { runs = λ s w h. after_refuses (Kept-refl n s w) }

  pub Safe-starves : Safe {A = A} n (λ _. starves)
  Safe-starves = record { runs = λ s w h. after_starves }

  pub Safe-lift : (o : Outcome A) → Safe n (lift o)
  unfolding lift
  Safe-lift (ok a) = Safe-pure a
  Safe-lift (raised e) = Safe-throw e

  pub Safe-if : (b : Bool) {x y : T A} → Safe n x → Safe n y → Safe n (if b then x else y)
  Safe-if true p q = p
  Safe-if false p q = q

  back-Kept :
      (s : Typer)
      → IsInterned s.table
      → {r : Run A} → After (Frame n s.exprs) r
      → AfterT (Kept n s) (back s r)
  back-Kept s w (Framed.returns f) = after_gives (record { interned = w; frame = f })
  back-Kept s w (Framed.throws f) = after_refuses (record { interned = w; frame = f })
  back-Kept s w Framed.starves = after_starves

  pub Safe-on_exprs : {m : M A} → Framed n m → Safe n (on_exprs m)
  unfolding on_exprs
  Safe-on_exprs g = record { runs = λ s w h. back-Kept s w (g.runs s.exprs h) }

module _ {A B : Type 0} {n : Ptr} where
  AfterT-bind :
      {s : Typer} {r : Typed A} {f : A → T B}
      → n ≤ s.exprs.next
      → AfterT (Kept n s) r
      → ((a : A) → Safe n (f a))
      → AfterT (Kept n s) (next_of r f)
  AfterT-bind h (after_gives {a} {s = u} p) k =
      AfterT-mono ((k a).runs u p.interned (omega (arith, p.frame.grows)))
        λ v q. record { interned = q.interned; frame = Frame-trans p.frame q.frame }
  AfterT-bind h (after_refuses p) k = after_refuses p
  AfterT-bind h after_starves k = after_starves

  pub Safe-bind : {m : T A} {f : A → T B} → Safe n m → ((a : A) → Safe n (f a)) → Safe n (m >>= f)
  unfolding ◌>>=◌
  Safe-bind g k = record { runs = λ s w h. AfterT-bind h (g.runs s w h) k }

  pub Safe-then : {m : T A} {k : T B} → Safe n m → Safe n k → Safe n (m >> k)
  unfolding ◌>>◌
  Safe-then g k = Safe-bind g λ _. k

module _ {A B : Type 0} {n : Ptr} where
  pub Safe-each : {f : A → T B} → ((a : A) → Safe n (f a)) → (xs : List A) → Safe n (each f xs)
  unfolding each
  Safe-each g [] = Safe-pure []
  Safe-each g (x ∷ xs) = Safe-bind (g x) λ y. Safe-bind (Safe-each g xs) λ ys. Safe-pure (y ∷ ys)

module _ {B : Type 0} {n : Ptr} where
  After-Fresh :
      {s : Typer} {r : Run Ptr} {f : Ptr → T B}
      → IsInterned s.table
      → n ≤ s.exprs.next
      → After (Frame n s.exprs) r
      → Giving (λ q. s.exprs.next ≤ q) r
      → ((p : Ptr) → n ≤ p → Safe n (f p))
      → AfterT (Kept n s) (next_of (back s r) f)
  After-Fresh {s = s} w h (Framed.returns {a} {w = v} p) (Fresh.gives q) k =
      AfterT-mono
        ((k a (omega (arith, q, h))).runs (record s { exprs = v }) w (omega (arith, p.grows)))
        λ u r. record { interned = r.interned; frame = Frame-trans p r.frame }
  After-Fresh w h (Framed.throws p) g k = after_refuses (record { interned = w; frame = p })
  After-Fresh w h Framed.starves g k = after_starves

  -- The object that a run makes stands at or above `n`.
  pub Safe-Fresh :
      {m : M Ptr} {f : Ptr → T B}
      → Framed n m
      → Fresh m
      → ((p : Ptr) → n ≤ p → Safe n (f p))
      → Safe n (on_exprs m >>= f)
  unfolding on_exprs ◌>>=◌
  Safe-Fresh g r k = record {
    runs = λ s w h. After-Fresh w h (g.runs s.exprs h) (r.runs s.exprs) k;
  }

module _ {n : Ptr} where
  pub Safe-typed_as : (p : Ptr) → Safe n (typed_as p)
  unfolding typed_as
  Safe-typed_as p = record { runs = λ s w h. after_gives (Kept-refl n s w) }

  pub Safe-set_type : (p : Ptr) (t : Option TypePtr) → Safe n (set_type p t)
  unfolding set_type
  Safe-set_type p t = record {
    runs = λ s w h. after_gives (record { interned = w; frame = Frame-refl n s.exprs });
  }

  null_typed-Kept :
      (s : Typer) → IsInterned s.table → (t : Option TypePtr) → AfterT (Kept n s) (null_typed s t)
  null_typed-Kept s w (some t) = after_gives (Kept-refl n s w)
  null_typed-Kept s w none = after_refuses (record { interned = w; frame = Frame-refl n s.exprs })

  pub Safe-get_null_type : Safe n get_null_type
  unfolding get_null_type
  Safe-get_null_type = record { runs = λ s w h. null_typed-Kept s w s.null_type }

  pub Safe-instance_of : (id : Text) → Safe n (instance_of id)
  unfolding instance_of
  Safe-instance_of id = record { runs = λ s w h. after_gives (Kept-refl n s w) }

  pub Safe-set_instance : (id : Text) (p : Ptr) → Safe n (set_instance id p)
  unfolding set_instance
  Safe-set_instance id p = record {
    runs = λ s w h. after_gives (record { interned = w; frame = Frame-refl n s.exprs });
  }

  pub Safe-load_type : (p : TypePtr) → Safe n (load_type p)
  unfolding load_type
  Safe-load_type p = record { runs = λ s w h. (Safe-lift (type_at s.table p)).runs s w h }

  pub Safe-make_type :
      (print_address : TypePtr → Text) (c : Content) → Safe n (make_type print_address c)
  unfolding make_type
  Safe-make_type print_address c = record {
    runs = λ s w h. made s w (serialize_type_id print_address (context_id s.exprs) c);
  }
    where
      made :
          (s : Typer)
          → IsInterned s.table
          → (o : Outcome Text)
          → AfterT (Kept n s) (elim o [ ok id ↦ intern s c id | raised e ↦ refuses e s ])
      made s w (ok id) =
          after_gives
            (record { interned = get_type-IsInterned id c s.table w; frame = Frame-refl n s.exprs })
      made s w (raised e) = after_refuses (Kept-refl n s w)

pub ruleset safe = (
  Safe-pure, Safe-throw, Safe-lift, Safe-bind, Safe-then, Safe-each, Safe-if, Safe-typed_as,
  Safe-set_type, Safe-instance_of, Safe-set_instance, Safe-load_type, Safe-make_type,
)
