-- ===== src/Semantics/Dump/Ended/Rules.antt =====
-- Writes to a stream that end.
use casterisk.Prelude.{
  ◌≡◌, refl, Bool, true, false, if◌then◌else◌, Option, none, some, Text, [], ◌∷◌,
}
use casterisk.Outcome.{Fault, Outcome, ok, raised}
use casterisk.Io.FmtDevice.{FmtDevice}
use casterisk.Io.Manipulators.{Indent, manipulate}
use casterisk.Semantics.PrimaryUnion.{
  PrimaryUnion, uint8, uint16, uint32, uint64, int8, int16, int32, int64, float, double, string,
}
use casterisk.Semantics.Graph.{Ptr, World, Object}
use casterisk.Semantics.Printer.{
  Printed, printed, failed, starves, P, next_of, after_manip, ◌>>=◌, ◌>>◌, pure, throw, lift, deref,
  put, manip, look,
}
use casterisk.Outcome.Yields.{Yields, holds, fails}
use casterisk.Semantics.Dump.{Fractions, dump_constant}

-- Returned or thrown.
pub data IsEnd {A : Type 0} : Printed A → Type 0 where
  returned : {a : A} {d : FmtDevice} → IsEnd (printed a d)
  thrown : {e : Fault} {d : FmtDevice} → IsEnd (failed e d)

pub IsEnd-starves : {A : Type 0} {r : Printed A} → IsEnd r → ¬ (r ≡ starves)
IsEnd-starves returned e = cc
IsEnd-starves thrown e = cc

pub record Ends {A : Type 0} (m : P A) : Type 0 where
  pub runs : (d : FmtDevice) → IsEnd (m d)

module _ {A : Type 0} where
  pub Ends-pure : (a : A) → Ends (pure a)
  unfolding pure
  Ends-pure a = record { runs = λ d. returned }

  pub Ends-throw : (e : Fault) → Ends {A = A} (throw e)
  unfolding throw
  Ends-throw e = record { runs = λ d. thrown }

  pub Ends-if : (b : Bool) {x y : P A} → Ends x → Ends y → Ends (if b then x else y)
  Ends-if true g h = g
  Ends-if false g h = h

module _ {A B : Type 0} where
  pub IsEnd-next :
      {r : Printed A} {f : A → P B} → IsEnd r → ((a : A) → Ends (f a)) → IsEnd (next_of r f)
  IsEnd-next (returned {a} {d}) k = (k a).runs d
  IsEnd-next thrown k = thrown

  pub Ends-bind : {m : P A} {f : A → P B} → Ends m → ((a : A) → Ends (f a)) → Ends (m >>= f)
  unfolding ◌>>=◌
  Ends-bind h k = record { runs = λ d. IsEnd-next (h.runs d) k }

  pub Ends-then : {m : P A} {k : P B} → Ends m → Ends k → Ends (m >> k)
  unfolding ◌>>◌
  Ends-then h k = Ends-bind h λ a. k

  -- The rest may use where the value came from.
  pub Ends-deref :
      (o : Option A) {f : A → P B} → ((a : A) → o ≡ some a → Ends (f a)) → Ends (deref o >>= f)
  unfolding deref ◌>>=◌ throw pure
  Ends-deref none k = record { runs = λ d. thrown }
  Ends-deref (some a) k = k a refl

  pub Ends-lift :
      {Q : A → Type 0} {o : Outcome A} {f : A → P B}
      → Yields Q o
      → ((a : A) → Q a → Ends (f a))
      → Ends (lift o >>= f)
  unfolding lift ◌>>=◌ throw pure
  Ends-lift fails k = record { runs = λ d. thrown }
  Ends-lift (holds {a} q) k = k a q

pub Ends-look :
    {A : Type 0} (w : World) (p : Ptr) {f : Object → P A}
    → ((o : Object) → w.cell p ≡ some o → Ends (f o))
    → Ends (look w p >>= f)
unfolding look
Ends-look w p k = Ends-deref (w.cell p) k

pub Ends-put : (s : Text) → Ends (put s)
unfolding put
Ends-put [] = record { runs = λ d. returned }
Ends-put (c ∷ s) = record { runs = λ d. returned }

pub IsEnd-after_manip : (d : FmtDevice) (o : Outcome FmtDevice) → IsEnd (after_manip d o)
IsEnd-after_manip d (ok e) = returned
IsEnd-after_manip d (raised f) = thrown

pub Ends-manip : (i : Indent) → Ends (manip i)
unfolding manip
Ends-manip i = record { runs = λ d. IsEnd-after_manip d (manipulate i d) }

pub ruleset ended = (Ends-pure, Ends-throw, Ends-then, Ends-put, Ends-manip)

pub Ends-dump_constant : (F : Fractions) (v : PrimaryUnion) → Ends (dump_constant F v)
unfolding dump_constant
Ends-dump_constant F (uint8 v) = search ended
Ends-dump_constant F (uint16 v) = search ended
Ends-dump_constant F (uint32 v) = search ended
Ends-dump_constant F (uint64 v) = search ended
Ends-dump_constant F (int8 v) = search ended
Ends-dump_constant F (int16 v) = search ended
Ends-dump_constant F (int32 v) = search ended
Ends-dump_constant F (int64 v) = search ended
Ends-dump_constant F (float v) = search ended
Ends-dump_constant F (double v) = search ended
Ends-dump_constant F (string v) = search ended depth 8
