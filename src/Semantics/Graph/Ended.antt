-- ===== src/Semantics/Graph/Ended.antt =====
-- Runs that do not run out of fuel.
use casterisk.Prelude.{
  List, [], ◌∷◌, Option, none, some, All, Bool, true, false, if◌then◌else◌, Option-cases, inl, inr,
}
use casterisk.Outcome.{Fault, Outcome, ok, raised}
use casterisk.Outcome.Yields.{Yields, holds, fails}
use casterisk.Semantics.Graph.{
  Ptr, Context, Object, context, World, Run, returned, thrown, out_of_fuel, M, and_then, ◌>>=◌,
  ◌>>◌, pure, throw, lift, deref, alloc, load, store, get_current_context, with_current, as_context,
  load_context, modify_context, get_name, each, for_each,
}

-- A return or an exception.
pub data Ended {ℓ} {A : Type ℓ} : Run A → Type ℓ where
  returns : {a : A} {w : World} → Ended (returned a w)
  throws : {e : Fault} {w : World} → Ended (thrown e w)

pub record Ends {ℓ} {A : Type ℓ} (m : M A) : Type ℓ where
  pub runs : (w : World) → Ended (m w)

module _ {ℓ} {A : Type ℓ} where
  pub Ends-pure : (a : A) → Ends (pure a)
  unfolding pure
  Ends-pure a = record { runs = λ w. returns }

  pub Ends-throw : (e : Fault) → Ends {A = A} (throw e)
  unfolding throw
  Ends-throw e = record { runs = λ w. throws }

  pub Ends-lift : (o : Outcome A) → Ends (lift o)
  unfolding lift
  Ends-lift (ok a) = Ends-pure a
  Ends-lift (raised e) = Ends-throw e

  pub Ends-with_current : (p : Option Ptr) {m : M A} → Ends m → Ends (with_current p m)
  unfolding with_current
  Ends-with_current p {m} g = record {
    runs = λ w. restore w (m (record w { current = p })) (g.runs _);
  }
    where
      restore :
          (w : World) (r : Run A)
          → Ended r
          → Ended (elim r [
            | returned a w' ↦ returned a (record w' { current = w.current })
            | thrown e w' ↦ thrown e (record w' { current = w.current })
            | out_of_fuel ↦ out_of_fuel
          ])
      restore w (returned a w') h = returns
      restore w (thrown e w') h = throws
      restore w out_of_fuel h = elim h [ ]

  pub Ends-if : (b : Bool) {x y : M A} → Ends x → Ends y → Ends (if b then x else y)
  Ends-if true p q = p
  Ends-if false p q = q

module _ {ℓ κ} {A : Type ℓ} {B : Type κ} where
  Ended-bind : {r : Run A} {f : A → M B} → Ended r → ((a : A) → Ends (f a)) → Ended (and_then r f)
  Ended-bind (returns {a} {w}) k = (k a).runs w
  Ended-bind throws k = throws

  pub Ends-bind : {m : M A} {f : A → M B} → Ends m → ((a : A) → Ends (f a)) → Ends (m >>= f)
  unfolding ◌>>=◌
  Ends-bind g k = record { runs = λ w. Ended-bind (g.runs w) k }

  pub Ends-then : {m : M A} {k : M B} → Ends m → Ends k → Ends (m >> k)
  unfolding ◌>>◌
  Ends-then g k = Ends-bind g λ _. k

  -- A step that yields a value with a property.
  pub Ends-Yields :
      {P : A → Type 0} {o : Outcome A} {f : A → M B}
      → Yields P o
      → ((a : A) → P a → Ends (f a))
      → Ends (lift o >>= f)
  unfolding lift ◌>>=◌ pure throw
  Ends-Yields (holds {a} p) k = record { runs = λ w. (k a p).runs w }
  Ends-Yields fails k = record { runs = λ w. throws }

pub Ends-alloc : (o : Object) → Ends (alloc o)
unfolding alloc
Ends-alloc o = record { runs = λ w. returns }

pub Ends-store : (p : Ptr) (o : Object) → Ends (store p o)
unfolding store
Ends-store p o = record { runs = λ w. returns }

pub Ends-load : (p : Ptr) → Ends (load p)
unfolding load
Ends-load p = record {
  runs = λ w. elim (Option-cases (w.cell p)) [
    | inl e ↦ rw (e, load) throws
    | inr (o, e) ↦ rw (e, load) returns
  ];
}

pub Ends-deref : (p : Option Ptr) → Ends (deref p)
unfolding deref
Ends-deref none = Ends-throw _
Ends-deref (some p) = Ends-pure p

pub Ends-get_current_context : Ends get_current_context
unfolding get_current_context
Ends-get_current_context = record { runs = λ w. returns }

Ends-as_context : (o : Object) → Ends (as_context o)
unfolding as_context
Ends-as_context (context c) = Ends-pure c
Ends-as_context _ = Ends-throw _

pub Ends-load_context : (p : Ptr) → Ends (load_context p)
unfolding load_context
Ends-load_context p = Ends-bind (Ends-load p) Ends-as_context

pub Ends-modify_context : (p : Ptr) (f : Context → Context) → Ends (modify_context p f)
unfolding modify_context
Ends-modify_context p f = Ends-bind (Ends-load_context p) λ c. Ends-store p (context (f c))

pub Ends-get_name : (p : Ptr) → Ends (get_name p)
unfolding get_name
Ends-get_name p = Ends-bind (Ends-load p) λ o. Ends-pure _

module _ {ℓ κ} {A : Type ℓ} {B : Type κ} (P : A → Type 0) where
  pub Ends-each :
      {f : A → M B} → ((a : A) → P a → Ends (f a)) → (xs : List A) → All P xs → Ends (each f xs)
  unfolding each
  Ends-each g [] h = Ends-pure []
  Ends-each g (x ∷ xs) h =
      Ends-bind (g x h.0) λ y. Ends-bind (Ends-each g xs h.1) λ ys. Ends-pure (y ∷ ys)

module _ {ℓ} {A : Type ℓ} (P : A → Type 0) where
  pub Ends-for_each :
      {f : A → M (Unit {0})}
      → ((a : A) → P a → Ends (f a))
      → (xs : List A) → All P xs
      → Ends (for_each f xs)
  unfolding for_each
  Ends-for_each g [] h = Ends-pure tt
  Ends-for_each g (x ∷ xs) h = Ends-then (g x h.0) (Ends-for_each g xs h.1)

-- A run that does not run out of fuel, and whose value has the property if it returns.
pub data Gives {ℓ} {A : Type ℓ} (P : A → Type 0) : Run A → Type ℓ where
  gives : {a : A} {w : World} → P a → Gives P (returned a w)
  refuses : {e : Fault} {w : World} → Gives P (thrown e w)

pub record Giving {ℓ} {A : Type ℓ} (P : A → Type 0) (m : M A) : Type ℓ where
  pub runs : (w : World) → Gives P (m w)

module _ {ℓ} {A : Type ℓ} (P : A → Type 0) where
  pub Giving-lift : {o : Outcome A} → Yields P o → Giving P (lift o)
  unfolding lift pure throw
  Giving-lift (holds p) = record { runs = λ w. gives p }
  Giving-lift fails = record { runs = λ w. refuses }

  pub Giving-throw : (e : Fault) → Giving P (throw e)
  unfolding throw
  Giving-throw e = record { runs = λ w. refuses }

  pub Giving-if : (b : Bool) {x y : M A} → Giving P x → Giving P y → Giving P (if b then x else y)
  Giving-if true p q = p
  Giving-if false p q = q

module _ {ℓ κ} {A : Type ℓ} {B : Type κ} where
  Gives-after :
      (P : B → Type 0) {r : Run A} {f : A → M B}
      → Ended r
      → ((a : A) → Giving P (f a))
      → Gives P (and_then r f)
  Gives-after P (returns {a} {w}) k = (k a).runs w
  Gives-after P throws k = refuses

  -- A step of which nothing need be known.
  pub Giving-after :
      (P : B → Type 0) {m : M A} {f : A → M B}
      → Ends m
      → ((a : A) → Giving P (f a))
      → Giving P (m >>= f)
  unfolding ◌>>=◌
  Giving-after P g k = record { runs = λ w. Gives-after P (g.runs w) k }

  pub Giving-then : (P : B → Type 0) {m : M A} {k : M B} → Ends m → Giving P k → Giving P (m >> k)
  unfolding ◌>>◌
  Giving-then P g k = Giving-after P g λ _. k

  Ended-giving :
      (P : A → Type 0) {r : Run A} {f : A → M B}
      → Gives P r
      → ((a : A) → P a → Ends (f a))
      → Ended (and_then r f)
  Ended-giving P (gives {a} {w} p) k = (k a p).runs w
  Ended-giving P refuses k = throws

  pub Ends-Giving :
      (P : A → Type 0) {m : M A} {f : A → M B}
      → Giving P m
      → ((a : A) → P a → Ends (f a))
      → Ends (m >>= f)
  unfolding ◌>>=◌
  Ends-Giving P g k = record { runs = λ w. Ended-giving P (g.runs w) k }

pub ruleset ended = (
  Ends-pure, Ends-throw, Ends-lift, Ends-bind, Ends-then, Ends-alloc, Ends-store, Ends-load,
  Ends-deref, Ends-get_current_context, Ends-load_context, Ends-modify_context, Ends-get_name,
  Ends-if,
)
