-- ===== src/Semantics/Graph/Valid/Sound.antt =====
-- Runs that keep a store of expressions well formed, and what their values then are.
use casterisk.Prelude.{
  ◌+◌, ◌<◌, ◌≤◌, ◌≡◌, sym, refl, subst, none, some, arith, ◌==◌, ==_refl, ==_iff, ◌⊎◌, Bool, true,
  false, if◌then◌else◌, Bool-cases, Option-cases, inl, inr,
}
use casterisk.Outcome.{Fault, Outcome, ok, raised}
use casterisk.Semantics.Graph.{
  Ptr, Object, World, Run, returned, thrown, out_of_fuel, M, and_then, ◌>>=◌, ◌>>◌, pure, throw,
  lift, alloc, store, update,
}
use casterisk.Semantics.Graph.Valid.{
  Sort, contexts, sort_of, Cells, Points, Fits, IsValid, Extends, Extends-refl, Extends-trans,
  OrNull-mono, Fits-mono,
}

-- An end of a run that began in `w`: a well-formed store that has the objects of `w`, with `Q` of the
-- value if one is returned.
pub data Ends {A : Type 0} (w : World) (Q : Cells → A → Type 0) : Run A → Type 0 where
  returns :
      {a : A} {u : World} → IsValid u → Extends w.cell u.cell → Q u.cell a → Ends w Q (returned a u)
  throws : {e : Fault} {u : World} → IsValid u → Extends w.cell u.cell → Ends w Q (thrown e u)
  starves : Ends w Q out_of_fuel

-- The run from `w` has such an end.
pub record Sound {A : Type 0} (w : World) (Q : Cells → A → Type 0) (m : M A) : Type 0 where
  pub runs : Ends w Q (m w)

-- Nothing is said of the value.
abbrev pub Any : {A : Type 0} → Cells → A → Type 0
Any f a = Unit {0}

module _ {A : Type 0} {Q : Cells → A → Type 0} where
  pub Sound-pure : (w : World) → IsValid w → (a : A) → Q w.cell a → Sound w Q (pure a)
  unfolding pure
  Sound-pure w v a q = record { runs = returns v (Extends-refl w.cell) q }

  pub Sound-throw : (w : World) → IsValid w → (e : Fault) → Sound w Q (throw e)
  unfolding throw
  Sound-throw w v e = record { runs = throws v (Extends-refl w.cell) }

  pub Sound-starves : (w : World) → Sound w Q (λ _. out_of_fuel)
  Sound-starves w = record { runs = starves }

  Ends-Extends : {w u : World} {r : Run A} → Extends w.cell u.cell → Ends u Q r → Ends w Q r
  Ends-Extends e (returns v f q) = returns v (Extends-trans e f) q
  Ends-Extends e (throws v f) = throws v (Extends-trans e f)
  Ends-Extends e starves = starves

  pub Sound-if :
      (w : World) (b : Bool) {m n : M A}
      → Sound w Q m
      → Sound w Q n
      → Sound w Q (if b then m else n)
  Sound-if w true g h = g
  Sound-if w false g h = h

module _ {A : Type 0} {Q : Cells → A → Type 0} where
  pub Sound-lift_with :
      (w : World)
      → IsValid w
      → (o : Outcome A) → ((a : A) → o ≡ ok a → Q w.cell a)
      → Sound w Q (lift o)
  unfolding lift
  Sound-lift_with w v (ok a) h = Sound-pure w v a (h a refl)
  Sound-lift_with w v (raised e) h = Sound-throw w v e

module _ {A : Type 0} {Q R : Cells → A → Type 0} where
  -- A weaker statement of the value.
  pub Sound-weaken :
      ((f : Cells) (a : A) → Q f a → R f a) → {w : World} {m : M A} → Sound w Q m → Sound w R m
  Sound-weaken k h = record { runs = weaker h.runs }
    where
      weaker : {w : World} {r : Run A} → Ends w Q r → Ends w R r
      weaker (returns {a} {u} v e q) = returns v e (k u.cell a q)
      weaker (throws v e) = throws v e
      weaker starves = starves

module _ {A : Type 0} where
  pub Sound-lift : (w : World) → IsValid w → (o : Outcome A) → Sound w Any (lift o)
  unfolding lift
  Sound-lift w v (ok a) = Sound-pure w v a tt
  Sound-lift w v (raised e) = Sound-throw w v e

module _ {A B : Type 0} {Q : Cells → A → Type 0} {R : Cells → B → Type 0} where
  through :
      {w : World} {r : Run A} {f : A → M B}
      → Ends w Q r
      → ((a : A) (u : World) → IsValid u → Extends w.cell u.cell → Q u.cell a → Sound u R (f a))
      → Ends w R (and_then r f)
  through (returns {a} {u} v e q) k = Ends-Extends e (k a u v e q).runs
  through (throws v e) k = throws v e
  through starves k = starves

  pub Sound-bind :
      {w : World} {m : M A} {f : A → M B}
      → Sound w Q m
      → ((a : A) (u : World) → IsValid u → Extends w.cell u.cell → Q u.cell a → Sound u R (f a))
      → Sound w R (m >>= f)
  unfolding ◌>>=◌
  Sound-bind g k = record { runs = through g.runs k }

  pub Sound-then :
      {w : World} {m : M A} {n : M B}
      → Sound w Q m
      → ((u : World) → IsValid u → Extends w.cell u.cell → Sound u R n)
      → Sound w R (m >> n)
  unfolding ◌>>◌
  Sound-then g k = Sound-bind g λ a u v e q. k u v e

-- An object put at an address.
module _ (w : World) (v : IsValid w) (p : Ptr) (o : Object) where
  abbrev put : Cells
  put = update w.cell p o

  put-entry :
      (q : Ptr) (o' : Object) → put q ≡ some o' → ((q ≡ p) × (o' ≡ o)) ⊎ (w.cell q ≡ some o')
  put-entry q o' h = ground arith

  put-IsValid :
      (n : Ptr)
      → w.next ≤ n
      → p < n
      → Extends w.cell put
      → Fits put o
      → IsValid (record w { cell = put; next = n })
  put-IsValid n h k e fits = record {
    used = λ q o' x. elim (put-entry q o' x) [
      | inl (y, z) ↦ omega (arith, y)
      | inr y ↦ omega (arith, v.used q o' y)
    ];
    objects = λ q o' x. elim (put-entry q o' x) [
      | inl (y, z) ↦ subst (λ t. Fits put t) (sym z) fits
      | inr y ↦ Fits-mono e o' (v.objects q o' y)
    ];
    current = OrNull-mono (e.keeps contexts) w.current v.current;
  }

  put-same : put p ≡ some o
  put-same = rw (==_refl p) refl

  store-Extends : Points w.cell (sort_of o) p → Extends w.cell put
  store-Extends (old, x, y) = record {
    keeps = λ s q (o', a, b). elim (Bool-cases (q == p)) [
      | inl t ↦ (o, rw (t) refl, sort_again t x y a b)
      | inr f ↦ (o', rw (f) a, b)
    ];
  }
    where
      sort_again :
          {q : Ptr} {s : Sort} {old o' : Object}
          → (q == p) ≡ true
          → w.cell p ≡ some old
          → sort_of old ≡ sort_of o
          → w.cell q ≡ some o'
          → sort_of o' ≡ s
          → sort_of o ≡ s
      sort_again {q} t x y a b = one ((==_iff q p).0 t) x y a b
        where
          one :
              {q : Ptr} {s : Sort} {old o' : Object}
              → q ≡ p
              → w.cell p ≡ some old
              → sort_of old ≡ sort_of o
              → w.cell q ≡ some o'
              → sort_of o' ≡ s
              → sort_of o ≡ s
          one e x y a b = cc

module _ (w : World) (v : IsValid w) (o : Object) (fits : Fits w.cell o) where
  free : w.cell w.next ≡ none
  free = elim (Option-cases (w.cell w.next)) [
    | inl e ↦ e
    | inr (o', e) ↦ absurd (omega (arith, v.used w.next o' e))
  ]

  alloc-Extends : Extends w.cell (put w v w.next o)
  alloc-Extends = record { keeps = λ s p h. (h.0, ground (arith, v.used p h.0 h.1), h.2) }

  pub Sound-alloc : Sound w (λ f p. Points f (sort_of o) p) (alloc o)
  unfolding alloc
  Sound-alloc = record {
    runs =
        returns
          (put-IsValid w v w.next o (w.next + 1) (omega arith) (omega arith) alloc-Extends
            (Fits-mono alloc-Extends o fits))
          alloc-Extends (o, put-same w v w.next o, refl);
  }

  pub Sound-store : (p : Ptr) → Points w.cell (sort_of o) p → Sound w Any (store p o)
  unfolding store
  Sound-store p h =
      let e = store-Extends w v p o h in
      record {
        runs =
            returns
              (put-IsValid w v p o w.next (omega arith) (v.used p h.0 h.1) e (Fits-mono e o fits)) e
              tt;
      }
