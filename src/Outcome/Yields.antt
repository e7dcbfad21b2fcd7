-- ===== src/Outcome/Yields.antt =====
-- A property of the value of a fallible step, if it has one.
use casterisk.Prelude.{◌≡◌, Bool, true, false, Option, none, some, refl}
use casterisk.Outcome.{Fault, Outcome, ok, raised, ◌>>=◌, ◌>>◌, assert, at, unchecked}

pub data Yields {ℓ} {A : Type ℓ} (P : A → Type 0) : Outcome A → Type ℓ where
  holds : {a : A} → P a → Yields P (ok a)
  fails : {e : Fault} → Yields P (raised e)

module _ {ℓ κ} {A : Type ℓ} {B : Type κ} {P : A → Type 0} {Q : B → Type 0} where
  pub Yields-bind :
      {o : Outcome A} {f : A → Outcome B}
      → Yields P o
      → ((a : A) → P a → Yields Q (f a))
      → Yields Q (o >>= f)
  Yields-bind (holds p) k = k _ p
  Yields-bind fails k = fails

module _ {κ} {B : Type κ} {Q : B → Type 0} where
  pub Yields-assert : (b : Bool) {o : Outcome B} → Yields Q o → Yields Q (assert b >> o)
  Yields-assert true y = y
  Yields-assert false y = fails

  pub Yields-at : (o : Option B) → ((b : B) → o ≡ some b → Q b) → Yields Q (at o)
  Yields-at none h = fails
  Yields-at (some b) h = holds (h b refl)

  pub Yields-unchecked : (o : Option B) → ((b : B) → o ≡ some b → Q b) → Yields Q (unchecked o)
  Yields-unchecked none h = fails
  Yields-unchecked (some b) h = holds (h b refl)

  pub Yields-mono :
      {P : B → Type 0} {o : Outcome B} → Yields P o → ((b : B) → P b → Q b) → Yields Q o
  Yields-mono (holds p) f = holds (f _ p)
  Yields-mono fails f = fails
