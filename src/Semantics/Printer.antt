-- ===== src/Semantics/Printer.antt =====
-- The writes of `dump` to a `FmtStream`. What is written goes to the device at once: it may come in other
-- pieces than the buffer of the stream would make.
use casterisk.Prelude.{[], ◌∷◌, Option, none, some, Text}
use casterisk.Outcome.{Fault, undefined, Outcome, ok, raised}
use casterisk.Semantics.Graph.{Ptr, Object, World}
use casterisk.Io.FmtDevice.{FmtDevice, write}
use casterisk.Io.Manipulators.{Indent, manipulate}

-- The end of a run, with the device that is left.
pub data Printed (A : Type 0) : Type 0 where
  printed : A → FmtDevice → Printed A
  failed : Fault → FmtDevice → Printed A
  starves : Printed A

abbrev pub P : Type 0 → Type 0
P A = FmtDevice → Printed A

abbrev pub next_of : {A B : Type 0} → Printed A → (A → P B) → Printed B
next_of (printed a d) f = f a d
next_of (failed e d) f = failed e d
next_of starves f = starves

module _ {A B : Type 0} where
  infixl 5 ◌>>=◌ ◌>>◌
  unfoldable pub ◌>>=◌ : P A → (A → P B) → P B
  (m >>= f) d = next_of (m d) f

  unfoldable pub ◌>>◌ : P A → P B → P B
  unfolding ◌>>=◌
  m >> k = m >>= λ _. k

module _ {A : Type 0} where
  unfoldable pub pure : A → P A
  pure a d = printed a d

  unfoldable pub throw : Fault → P A
  throw e d = failed e d

  unfoldable pub lift : Outcome A → P A
  unfolding pure throw
  lift (ok a) = pure a
  lift (raised e) = throw e

  -- A pointer or a container that is read without a test.
  unfoldable pub deref : Option A → P A
  unfolding pure throw
  deref none = throw undefined
  deref (some a) = pure a

-- `out << s`; without bytes nothing reaches the device.
unfoldable pub put : Text → P (Unit {0})
unfolding write
put [] d = printed tt d
put (c ∷ s) d = printed tt (write d (c ∷ s)).0

abbrev pub after_manip : FmtDevice → Outcome FmtDevice → Printed (Unit {0})
after_manip d (ok e) = printed tt e
after_manip d (raised f) = failed f d

-- `out << indent`
unfoldable pub manip : Indent → P (Unit {0})
unfolding manipulate
manip i d = after_manip d (manipulate i d)

-- The object at an address.
unfoldable pub look : World → Ptr → P Object
unfolding deref
look w p = deref (w.cell p)
