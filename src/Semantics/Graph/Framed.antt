-- ===== src/Semantics/Graph/Framed.antt =====
-- What a run leaves alone: the objects below an address, and the current context, however it ends.
use casterisk.Prelude.{
  ◌≤◌, ◌<◌, ◌+◌, ◌≡◌, ◌∙◌, refl, List, [], ◌∷◌, Option, none, some, arith, Bool, true, false,
  if◌then◌else◌, Option-cases, inl, inr,
}
use casterisk.Outcome.{Fault, Outcome, ok, raised}
use casterisk.Semantics.Graph.{
  Ptr, Context, Object, context, World, Run, returned, thrown, out_of_fuel, M, and_then, ◌>>=◌,
  ◌>>◌, pure, throw, lift, deref, alloc, load, store, get_current_context, with_current, as_context,
  update, load_context, modify_context, get_name, each, for_each,
}

pub record Frame (n : Ptr) (w w' : World) : Type 0 where
  pub grows : w.next ≤ w'.next
  pub same : (p : Ptr) → p < n → w'.cell p ≡ w.cell p
  pub current : w'.current ≡ w.current

pub Frame-refl : (n : Ptr) (w : World) → Frame n w w
Frame-refl n w = record { grows = omega arith; same = λ p h. refl; current = refl }

pub Frame-trans : {n : Ptr} {u v w : World} → Frame n u v → Frame n v w → Frame n u w
Frame-trans f g = record {
  grows = omega arith;
  same = λ p h. g.same p h ∙ f.same p h;
  current = g.current ∙ f.current;
}

-- The state that a run ends in, by a return or an exception, has the property.
pub data After {ℓ} {A : Type ℓ} (P : World → Type 0) : Run A → Type ℓ where
  returns : {a : A} {w : World} → P w → After P (returned a w)
  throws : {e : Fault} {w : World} → P w → After P (thrown e w)
  starves : After P out_of_fuel

-- From every state that has all addresses below `n` in use, the run changes no object below `n`,
-- forgets no object, and ends with the current context that it began with.
pub record Framed {ℓ} {A : Type ℓ} (n : Ptr) (m : M A) : Type ℓ where
  pub runs : (w : World) → n ≤ w.next → After (Frame n w) (m w)

After-mono {ℓ} :
    {A : Type ℓ} {P Q : World → Type 0} {r : Run A}
    → After P r
    → ((w : World) → P w → Q w)
    → After Q r
After-mono (returns p) f = returns (f _ p)
After-mono (throws p) f = throws (f _ p)
After-mono starves f = starves

module _ {ℓ} {A : Type ℓ} {n : Ptr} where
  pub Framed-pure : (a : A) → Framed n (pure a)
  unfolding pure
  Framed-pure a = record { runs = λ w h. returns (Frame-refl n w) }

  pub Framed-throw : (e : Fault) → Framed {A = A} n (throw e)
  unfolding throw
  Framed-throw e = record { runs = λ w h. throws (Frame-refl n w) }

  pub Framed-starved : Framed {A = A} n (λ _. out_of_fuel)
  Framed-starved = record { runs = λ w h. starves }

  pub Framed-lift : (o : Outcome A) → Framed n (lift o)
  unfolding lift
  Framed-lift (ok a) = Framed-pure a
  Framed-lift (raised e) = Framed-throw e

module _ {ℓ κ} {A : Type ℓ} {B : Type κ} {n : Ptr} where
  After-bind :
      {w : World} {r : Run A} {f : A → M B}
      → n ≤ w.next
      → After (Frame n w) r
      → ((a : A) → Framed n (f a))
      → After (Frame n w) (and_then r f)
  After-bind h (returns {a} {w = v} p) k =
      After-mono ((k a).runs v (omega (arith, p.grows))) λ u q. Frame-trans p q
  After-bind h (throws p) k = throws p
  After-bind h starves k = starves

  pub Framed-bind :
      {m : M A} {f : A → M B} → Framed n m → ((a : A) → Framed n (f a)) → Framed n (m >>= f)
  unfolding ◌>>=◌
  Framed-bind g k = record { runs = λ w h. After-bind h (g.runs w h) k }

  pub Framed-then : {m : M A} {k : M B} → Framed n m → Framed n k → Framed n (m >> k)
  unfolding ◌>>◌
  Framed-then g k = Framed-bind g λ _. k

module _ {κ} {B : Type κ} {n : Ptr} where
  -- A new object stands at or above `n`.
  pub Framed-alloc :
      {f : Ptr → M B} (o : Object) → ((p : Ptr) → n ≤ p → Framed n (f p)) → Framed n (alloc o >>= f)
  unfolding alloc ◌>>=◌
  Framed-alloc o k = record {
    runs = λ w h.
        let added : Frame n w (record w { cell = update w.cell w.next o; next = w.next + 1 }) =
          record { grows = omega arith; same = λ p l. ground arith; current = refl } in
        After-mono ((k w.next h).runs _ (omega arith)) λ u q. Frame-trans added q;
  }

module _ {n : Ptr} where
  pub Framed-store : (p : Ptr) (o : Object) → n ≤ p → Framed n (store p o)
  unfolding store
  Framed-store p o h = record {
    runs =
        λ w k. returns (record { grows = omega arith; same = λ q l. ground arith; current = refl });
  }

  pub Framed-alloc_last : (o : Object) → Framed n (alloc o)
  unfolding alloc
  Framed-alloc_last o = record {
    runs =
        λ w k. returns (record { grows = omega arith; same = λ q l. ground arith; current = refl });
  }

  pub Framed-load : (p : Ptr) → Framed n (load p)
  unfolding load
  Framed-load p = record {
    runs = λ w k. elim (Option-cases (w.cell p)) [
      | inl e ↦ rw (e, load) (throws (Frame-refl n w))
      | inr (o, e) ↦ rw (e, load) (returns (Frame-refl n w))
    ];
  }

  pub Framed-deref : (p : Option Ptr) → Framed n (deref p)
  unfolding deref
  Framed-deref none = Framed-throw _
  Framed-deref (some p) = Framed-pure p

  pub Framed-get_current_context : Framed n get_current_context
  unfolding get_current_context
  Framed-get_current_context = record { runs = λ w h. returns (Frame-refl n w) }

  Framed-as_context : (o : Object) → Framed n (as_context o)
  unfolding as_context
  Framed-as_context (context c) = Framed-pure c
  Framed-as_context _ = Framed-throw _

  pub Framed-load_context : (p : Ptr) → Framed n (load_context p)
  unfolding load_context
  Framed-load_context p = Framed-bind (Framed-load p) Framed-as_context

  pub Framed-modify_context :
      (p : Ptr) (f : Context → Context) → n ≤ p → Framed n (modify_context p f)
  unfolding modify_context
  Framed-modify_context p f h =
      Framed-bind (Framed-load_context p) λ c. Framed-store p (context (f c)) h

  pub Framed-get_name : (p : Ptr) → Framed n (get_name p)
  unfolding get_name
  Framed-get_name p = Framed-bind (Framed-load p) λ o. Framed-pure _

module _ {ℓ} {A : Type ℓ} {n : Ptr} where
  -- The guard's scope ends with the current context that it began with.
  pub Framed-with_current : (p : Option Ptr) {m : M A} → Framed n m → Framed n (with_current p m)
  unfolding with_current
  Framed-with_current p {m} g = record {
    runs = λ w h. restore w (m (record w { current = p })) (g.runs (record w { current = p }) h);
  }
    where
      restore :
          (w : World) (r : Run A)
          → After (Frame n (record w { current = p })) r
          → After (Frame n w) (elim r [
            | returned a w' ↦ returned a (record w' { current = w.current })
            | thrown e w' ↦ thrown e (record w' { current = w.current })
            | out_of_fuel ↦ out_of_fuel
          ])
      restore w (returned a w') (returns q) =
          returns (record { grows = q.grows; same = q.same; current = refl })
      restore w (thrown e w') (throws q) =
          throws (record { grows = q.grows; same = q.same; current = refl })
      restore w out_of_fuel starves = starves

module _ {ℓ κ} {A : Type ℓ} {B : Type κ} {n : Ptr} where
  pub Framed-each :
      {f : A → M B} → ((a : A) → Framed n (f a)) → (xs : List A) → Framed n (each f xs)
  unfolding each
  Framed-each g [] = Framed-pure []
  Framed-each g (x ∷ xs) =
      Framed-bind (g x) λ y. Framed-bind (Framed-each g xs) λ ys. Framed-pure (y ∷ ys)

module _ {ℓ} {A : Type ℓ} {n : Ptr} where
  pub Framed-for_each :
      {f : A → M (Unit {0})} → ((a : A) → Framed n (f a)) → (xs : List A) → Framed n (for_each f xs)
  unfolding for_each
  Framed-for_each g [] = Framed-pure tt
  Framed-for_each g (x ∷ xs) = Framed-then (g x) (Framed-for_each g xs)

  pub Framed-if : (b : Bool) {x y : M A} → Framed n x → Framed n y → Framed n (if b then x else y)
  Framed-if true p q = p
  Framed-if false p q = q

pub ruleset framed = (
  Framed-pure, Framed-throw, Framed-lift, Framed-bind, Framed-then, Framed-alloc, Framed-store,
  Framed-load, Framed-deref, Framed-get_current_context, Framed-load_context, Framed-modify_context,
  Framed-get_name, Framed-each, Framed-for_each, Framed-if, Framed-alloc_last,
)
