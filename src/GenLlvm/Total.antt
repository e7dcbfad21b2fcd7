-- ===== src/GenLlvm/Total.antt =====
-- Runs of the generator that give a value from every state of the builder.
use casterisk.Prelude.{◌≡◌, refl, Bool, true, false, if◌then◌else◌}
use casterisk.Outcome.{Outcome, ok}
use casterisk.GenLlvm.Builder.{Gen, ◌>>=◌, pure, lift, call}

module _ {S A : Type 0} where
  -- The run gives a value.
  pub record Total (m : Gen S A) : Type 0 where
    pub runs : (s : S) → (r : A × S) × (m s ≡ ok r)

  pub Total-pure : (a : A) → Total (pure {S = S} a)
  unfolding pure
  Total-pure a = record { runs = λ s. ((a, s), refl) }

  pub Total-call : (f : S → A × S) → Total (call f)
  unfolding call
  Total-call f = record { runs = λ s. (f s, refl) }

  pub Total-if : (b : Bool) {m n : Gen S A} → Total m → Total n → Total (if b then m else n)
  Total-if true g h = g
  Total-if false g h = h

module _ {S A B : Type 0} where
  pub Total-bind :
      {m : Gen S A} {f : A → Gen S B} → Total m → ((a : A) → Total (f a)) → Total (m >>= f)
  unfolding ◌>>=◌
  Total-bind {m = m} {f = f} g h = record {
    runs = λ s. let r = g.runs s in let q = (h r.0.0).runs r.0.1 in (q.0, rw (r.1, ◌>>=◌) q.1);
  }

  -- A value that is lifted goes on in the rest.
  pub Total-lift :
      {o : Outcome A} {a : A} (f : A → Gen S B) → o ≡ ok a → Total (f a) → Total (lift o >>= f)
  unfolding ◌>>=◌ lift
  Total-lift f e h = record { runs = λ s. let q = h.runs s in (q.0, rw (e, ◌>>=◌, lift) q.1) }
