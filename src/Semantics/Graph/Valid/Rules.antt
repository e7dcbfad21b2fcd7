-- ===== src/Semantics/Graph/Valid/Rules.antt =====
-- The steps on the store keep it well formed.
use casterisk.Prelude.{◌≡◌, refl, List, [], ◌∷◌, Option, none, some, All, Option-cases, inl, inr}
use casterisk.Outcome.{undefined}
use casterisk.Semantics.Graph.{
  Ptr, Context, Object, context, World, Run, returned, thrown, out_of_fuel, M, deref, load,
  get_current_context, with_current, as_context, load_context, modify_context, get_name, name_of,
  each, for_each,
}
use casterisk.Semantics.Graph.Valid.{
  contexts, Cells, Points, OrNull, ContextFits, Fits, IsValid, Extends, Extends-refl, Extends-trans,
  OrNull-mono,
}
use casterisk.Semantics.Graph.Valid.Sound.{
  Ends, returns, throws, starves, Sound, Any, Sound-pure, Sound-throw, Sound-bind, Sound-then,
  Sound-store,
}

pub Sound-deref :
    {P : Cells → Ptr → Type 0} (w : World)
    → IsValid w
    → (p : Option Ptr) → OrNull (P w.cell) p
    → Sound w P (deref p)
unfolding deref
Sound-deref w v none h = Sound-throw w v undefined
Sound-deref w v (some p) h = Sound-pure w v p h

-- What is loaded stands at the address.
pub Sound-load :
    (w : World) → IsValid w → (p : Ptr) → Sound w (λ f o. (f p ≡ some o) × Fits f o) (load p)
unfolding load
Sound-load w v p = record {
  runs = elim (Option-cases (w.cell p)) [
    | inl e ↦ rw (e, load) (throws v (Extends-refl w.cell))
    | inr (o, e) ↦ rw (e, load) (returns v (Extends-refl w.cell) (e, v.objects p o e))
  ];
}

pub Sound-get_current_context :
    (w : World) → IsValid w → Sound w (λ f. OrNull (Points f contexts)) get_current_context
unfolding get_current_context
Sound-get_current_context w v = record { runs = returns v (Extends-refl w.cell) v.current }

pub Sound-load_context :
    (w : World)
    → IsValid w
    → (p : Ptr) → Sound w (λ f c. Points f contexts p × ContextFits f c) (load_context p)
unfolding load_context as_context
Sound-load_context w v p = Sound-bind (Sound-load w v p) λ o u v' e (at, fits). whole o u v' at fits
  where
    whole :
        (o : Object) (u : World)
        → IsValid u
        → u.cell p ≡ some o
        → Fits u.cell o
        → Sound u (λ f c. Points f contexts p × ContextFits f c) (as_context o)
    whole (context c) u v' at fits = Sound-pure u v' c ((context c, at, refl), fits)
    whole _ u v' at fits = Sound-throw u v' undefined

pub Sound-modify_context :
    (w : World)
    → IsValid w
    → (p : Ptr) (f : Context → Context)
    → ((g : Cells) → Extends w.cell g → (c : Context) → ContextFits g c → ContextFits g (f c))
    → Sound w Any (modify_context p f)
unfolding modify_context
Sound-modify_context w v p f k =
    Sound-bind (Sound-load_context w v p)
      λ c u v' e (at, fits). Sound-store u v' (context (f c)) (k u.cell e c fits) p at

pub Sound-get_name : (w : World) → IsValid w → (p : Ptr) → Sound w Any (get_name p)
unfolding get_name
Sound-get_name w v p = Sound-bind (Sound-load w v p) λ o u v' e h. Sound-pure u v' (name_of o) tt

module _ {A : Type 0} {Q : Cells → A → Type 0} where
  -- The guard's scope, in a store whose current context is the guard's.
  pub Sound-with_current :
      (w : World)
      → IsValid w
      → (p : Option Ptr) {m : M A} → OrNull (Points w.cell contexts) p
      → ((u : World) → IsValid u → Extends w.cell u.cell → Sound u Q m)
      → Sound w Q (with_current p m)
  unfolding with_current
  Sound-with_current w v p {m} h g =
      let u : World = record w { current = p } in
      record {
        runs =
            restored (m u)
              (g u (record { used = v.used; objects = v.objects; current = h })
                (Extends-refl w.cell)).runs;
      }
    where
      back :
          (u : World)
          → IsValid u
          → Extends w.cell u.cell
          → IsValid (record u { current = w.current })
      back u v' e = record {
        used = v'.used;
        objects = v'.objects;
        current = OrNull-mono (e.keeps contexts) w.current v.current;
      }

      restored :
          (r : Run A)
          → Ends (record w { current = p }) Q r
          → Ends w Q (elim r [
            | returned a w' ↦ returned a (record w' { current = w.current })
            | thrown e w' ↦ thrown e (record w' { current = w.current })
            | out_of_fuel ↦ out_of_fuel
          ])
      restored (returned a u) (returns v' e q) = returns (back u v' e) e q
      restored (thrown f u) (throws v' e) = throws (back u v' e) e
      restored out_of_fuel starves = starves

module _ {A B : Type 0} {Q : Cells → B → Type 0} where
  -- `Q` of a value holds on in later stores.
  pub Sound-each :
      ((f g : Cells) → Extends f g → (b : B) → Q f b → Q g b)
      → {m : A → M B} → ((w : World) → IsValid w → (a : A) → Sound w Q (m a))
      → (w : World) → IsValid w
      → (xs : List A) → Sound w (λ f. All (Q f)) (each m xs)
  unfolding each
  Sound-each mono g w v [] = Sound-pure w v [] tt
  Sound-each mono g w v (x ∷ xs) = Sound-bind (g w v x) λ y u v' e q.
      Sound-bind (Sound-each mono g u v' xs)
        λ ys u' v'' e' qs. Sound-pure u' v'' (y ∷ ys) (mono u.cell u'.cell e' y q, qs)

module _ {A : Type 0} where
  -- A loop, of which each round may use what holds of the objects before it.
  pub Sound-for_each :
      {m : A → M (Unit {0})} (w : World)
      → IsValid w
      → ((u : World) → IsValid u → Extends w.cell u.cell → (a : A) → Sound u Any (m a))
      → (xs : List A) → Sound w Any (for_each m xs)
  unfolding for_each
  Sound-for_each w v g [] = Sound-pure w v tt tt
  Sound-for_each {m = m} w v g (x ∷ xs) =
      Sound-then (g w v (Extends-refl w.cell) x)
        λ u v' e. Sound-for_each u v' (λ u' v'' e'. g u' v'' (Extends-trans e e')) xs
