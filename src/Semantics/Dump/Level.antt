-- ===== src/Semantics/Dump/Level.antt =====
-- `dump` leaves the set-up of the device as it was.
use casterisk.Prelude.{
  ℕ, zero, suc, ◌≡◌, ◌∙◌, ap, refl, Bool, true, false, if◌then◌else◌, List, [], ◌∷◌, ◌++◌, Option,
  none, some, Text, map, codes, length, ◌==◌,
}
use casterisk.Prelude.Int.{ℤ, pos, ◌+ℤ◌, ◌-ℤ◌, +ℤ_cancel}
use casterisk.Outcome.{Fault, Outcome, ok, raised}
use casterisk.Io.FmtDevice.{FmtDevice, LineLoop, write, write_rest, add_indent, sub_indent}
use casterisk.Io.Manipulators.{add_indent_manip, sub_indent_manip, manipulate}
use casterisk.Semantics.PrimaryUnion.{
  PrimaryUnion, uint8, uint16, uint32, uint64, int8, int16, int32, int64, float, double, string,
}
use casterisk.Semantics.Graph.{
  Ptr, World, Context, FunctionProto, user, bin_op, unary_op, if_else_op, Object, constant, symbol,
  ret_expr, functional_expr, context, module_expr,
}
use casterisk.Semantics.Printer.{
  Printed, printed, failed, starves, P, next_of, ◌>>=◌, ◌>>◌, pure, throw, lift, deref, put, manip,
  look,
}
use casterisk.Semantics.Clone.{dependencies}
use casterisk.Semantics.Dump.{
  Fractions, dump_constant, contains, dump_at, dump_list, dump_functional, define, deps_loop,
  deps_and_define, dump_deps, dump_names, dump_context, dump_object, dump,
}

-- The set-up of a device: its indentation, the symbol for it, and the delimiter of lines.
pub record SetUp : Type 0 where
  pub indent : ℤ
  pub symbol : Text
  pub delim : ℕ

abbrev pub set_up : FmtDevice → SetUp
set_up d = record { indent = d.indent; symbol = d.indent_symbol; delim = d.line_delim }

abbrev deeper : ℤ → SetUp → SetUp
deeper n u = record u { indent = u.indent +ℤ n }

abbrev shallower : ℤ → SetUp → SetUp
shallower n u = record u { indent = u.indent -ℤ n }

abbrev at_indent : SetUp → ℤ → SetUp
at_indent u i = record u { indent = i }

-- A run that returned has left this set-up.
pub data Leaves {A : Type 0} (u : SetUp) : Printed A → Type 0 where
  leaves : {a : A} {d : FmtDevice} → set_up d ≡ u → Leaves u (printed a d)
  leaves_failed : {e : Fault} {d : FmtDevice} → Leaves u (failed e d)
  leaves_starves : Leaves u starves

record From {A : Type 0} (u v : SetUp) (m : P A) : Type 0 where
  runs : (d : FmtDevice) → set_up d ≡ u → Leaves v (m d)

module _ {A : Type 0} {u : SetUp} where
  From-pure : (a : A) → From u u (pure a)
  unfolding pure
  From-pure a = record { runs = λ d h. leaves h }

  From-throw : {v : SetUp} (e : Fault) → From {A = A} u v (throw e)
  unfolding throw
  From-throw e = record { runs = λ d h. leaves_failed }

  From-lift : (o : Outcome A) → From u u (lift o)
  unfolding lift
  From-lift (ok a) = From-pure a
  From-lift (raised e) = From-throw e

  From-deref : (o : Option A) → From u u (deref o)
  unfolding deref
  From-deref none = From-throw _
  From-deref (some a) = From-pure a

  From-if : (b : Bool) {x y : P A} → From u u x → From u u y → From u u (if b then x else y)
  From-if true g h = g
  From-if false g h = h

module _ {A B : Type 0} {v w : SetUp} where
  onwards :
      {r : Printed A} {f : A → P B}
      → Leaves v r
      → ((a : A) → From v w (f a))
      → Leaves w (next_of r f)
  onwards (leaves {a} {d} h) k = (k a).runs d h
  onwards leaves_failed k = leaves_failed
  onwards leaves_starves k = leaves_starves

  From-bind :
      {u : SetUp} {m : P A} {f : A → P B}
      → From u v m
      → ((a : A) → From v w (f a))
      → From u w (m >>= f)
  unfolding ◌>>=◌
  From-bind g k = record { runs = λ d h. onwards (g.runs d h) k }

  From-then : {u : SetUp} {m : P A} {k : P B} → From u v m → From v w k → From u w (m >> k)
  unfolding ◌>>◌
  From-then g k = From-bind g λ a. k

if-set_up :
    (b : Bool) (x y : FmtDevice) {u : SetUp}
    → set_up x ≡ u
    → set_up y ≡ u
    → set_up (if b then x else y) ≡ u
if-set_up true x y g h = g
if-set_up false x y g h = h

write_rest-set_up : (d : FmtDevice) (s : Text) (l : LineLoop) → set_up (write_rest d s l) ≡ set_up d
unfolding write_rest
write_rest-set_up d s l = if-set_up (l.last_beg == length s) _ _ refl refl

write-set_up : (d : FmtDevice) (s : Text) → set_up (write d s).0 ≡ set_up d
unfolding write
write-set_up d s = write_rest-set_up d s _

module _ {u : SetUp} where
  From-put : (s : Text) → From u u (put s)
  unfolding put
  From-put [] = record { runs = λ d h. leaves h }
  From-put (c ∷ s) = record { runs = λ d h. leaves (write-set_up d (c ∷ s) ∙ h) }

  From-look : (w : World) (p : Ptr) → From u u (look w p)
  unfolding look
  From-look w p = From-deref (w.cell p)

  From-add : (n : ℤ) → From u (deeper n u) (manip (add_indent_manip n))
  unfolding manip manipulate add_indent
  From-add n = record { runs = λ d h. leaves (ap (deeper n) h) }

  From-sub : (n : ℤ) → From (deeper n u) u (manip (sub_indent_manip n))
  unfolding manip manipulate sub_indent
  From-sub n = record {
    runs = λ d h. leaves (ap (shallower n) h ∙ ap (at_indent u) (+ℤ_cancel u.indent n));
  }

module _ {A B : Type 0} {u : SetUp} where
  From-bind_same :
      {m : P A} {f : A → P B} → From u u m → ((a : A) → From u u (f a)) → From u u (m >>= f)
  From-bind_same g k = From-bind g k

  From-then_same : {m : P A} {k : P B} → From u u m → From u u k → From u u (m >> k)
  From-then_same g k = From-then g k

ruleset level = (
  From-pure, From-throw, From-deref, From-if, From-bind_same, From-then_same, From-put, From-look,
)

module _ {u : SetUp} where
  From-dump_constant : (F : Fractions) (v : PrimaryUnion) → From u u (dump_constant F v)
  unfolding dump_constant
  From-dump_constant F (uint8 v) = search level
  From-dump_constant F (uint16 v) = search level
  From-dump_constant F (uint32 v) = search level
  From-dump_constant F (uint64 v) = search level
  From-dump_constant F (int8 v) = search level
  From-dump_constant F (int16 v) = search level
  From-dump_constant F (int32 v) = search level
  From-dump_constant F (int64 v) = search level
  From-dump_constant F (float v) = search level
  From-dump_constant F (double v) = search level
  From-dump_constant F (string v) = search level depth 8

module _ (F : Fractions) (w : World) (rec : Ptr → P (Unit {0}))
    (g : (u : SetUp) (p : Ptr) → From u u (rec p)) where
  module _ {u : SetUp} where
    From-dump_at : (p : Option Ptr) → From u u (dump_at F w rec p)
    unfolding dump_at
    From-dump_at p = From-bind (From-deref p) λ q. g u q

    From-dump_list :
        (sep : Text) (first : Bool) (ps : List (Option Ptr))
        → From u u (dump_list F w rec sep first ps)
    unfolding dump_list
    From-dump_list sep first [] = From-pure tt
    From-dump_list sep true (p ∷ ps) = From-then (From-dump_at p) (From-dump_list sep false ps)
    From-dump_list sep false (p ∷ ps) =
        From-then (From-put sep) (From-then (From-dump_at p) (From-dump_list sep false ps))

    From-dump_functional :
        (func : FunctionProto) (ps : List (Option Ptr)) → From u u (dump_functional F w rec func ps)
    unfolding dump_functional
    From-dump_functional (user uf) ps = search (level, From-dump_list) depth 16
    From-dump_functional (bin_op bop) (a ∷ (b ∷ [])) = search (level, From-dump_at) depth 16
    From-dump_functional (bin_op bop) [] = From-throw _
    From-dump_functional (bin_op bop) (a ∷ []) = From-throw _
    From-dump_functional (bin_op bop) (a ∷ (b ∷ (c ∷ cs))) = From-throw _
    From-dump_functional (unary_op uop) (a ∷ []) = search (level, From-dump_at) depth 16
    From-dump_functional (unary_op uop) [] = From-throw _
    From-dump_functional (unary_op uop) (a ∷ (b ∷ bs)) = From-throw _
    From-dump_functional if_else_op (a ∷ (b ∷ (c ∷ []))) = search (level, From-dump_at) depth 20
    From-dump_functional if_else_op [] = From-throw _
    From-dump_functional if_else_op (a ∷ []) = From-throw _
    From-dump_functional if_else_op (a ∷ (b ∷ [])) = From-throw _
    From-dump_functional if_else_op (a ∷ (b ∷ (c ∷ (d ∷ ds)))) = From-throw _

    From-define : (p : Ptr) (dumped : List Ptr) (o : Object) → From u u (define F w rec p dumped o)
    unfolding define
    From-define p dumped (symbol name rhs) = search (level, From-dump_at, g) depth 20
    From-define p dumped _ = From-pure dumped

    From-deps_loop :
        (deps : Ptr → List Ptr → P (List Ptr))
        → ((p : Ptr) (dumped : List Ptr) → From u u (deps p dumped))
        → (ds dumped : List Ptr) → From u u (deps_loop F w rec deps ds dumped)
    unfolding deps_loop
    From-deps_loop deps h [] dumped = From-pure dumped
    From-deps_loop deps h (d ∷ ds) dumped =
        From-bind (h d dumped) λ more. From-deps_loop deps h ds more

    From-deps_and_define :
        (deps : Ptr → List Ptr → P (List Ptr))
        → ((p : Ptr) (dumped : List Ptr) → From u u (deps p dumped))
        → (p : Ptr) (o : Object) (ds dumped : List Ptr)
        → From u u (deps_and_define F w rec deps p o ds dumped)
    From-deps_and_define deps h p o [] dumped = From-pure dumped
    From-deps_and_define deps h p o (d ∷ ds) dumped =
        From-bind (From-deps_loop deps h (d ∷ ds) dumped) λ more. From-define p more o

    From-dump_deps :
        (fuel : ℕ) (p : Ptr) (dumped : List Ptr) → From u u (dump_deps F w rec fuel p dumped)
    unfolding dump_deps
    From-dump_deps zero p dumped = record { runs = λ d h. leaves_starves }
    From-dump_deps (suc fuel) p dumped = From-if (contains p dumped) (From-pure dumped) (
        From-bind (From-look w p) λ o.
          From-bind (From-lift (dependencies o))
            λ ds. From-deps_and_define (dump_deps F w rec fuel) (From-dump_deps fuel) p o ds dumped)

    From-dump_names : (l r : Text) (ps : List Ptr) → From u u (dump_names F w rec l r ps)
    unfolding dump_names
    From-dump_names l r [] = From-pure tt
    From-dump_names l r (p ∷ ps) =
        From-then (From-put l)
          (From-then (From-dump_list (codes ",") true (map some (p ∷ ps))) (From-put r))

  From-dump_context : {u : SetUp} (fuel : ℕ) (c : Context) → From u u (dump_context F w rec fuel c)
  unfolding dump_context
  From-dump_context {u} fuel c = From-then (From-dump_names (codes "[") (codes "] ") c.captures) (
      From-then (From-dump_names (codes "(") (codes ") ") c.params) (
        From-then (From-put (codes "{")) (
          From-then (From-put (10 ∷ [])) (
            From-then (From-add (pos 2)) (
              From-bind (From-deref c.ret_expr) λ r.
                From-then (From-dump_deps fuel r (c.params ++ c.captures)) (
                  From-then (g (deeper (pos 2) u) r) (
                    From-then (From-put (codes ";")) (
                      From-then (From-put (10 ∷ []))
                        (From-then (From-sub (pos 2)) (From-put (codes "}")))))))))))

  From-dump_object : {u : SetUp} (fuel : ℕ) (o : Object) → From u u (dump_object F w rec fuel o)
  unfolding dump_object
  From-dump_object fuel (constant v) = From-dump_constant F v
  From-dump_object fuel (symbol name rhs) = From-put name
  From-dump_object fuel (ret_expr rhs) = From-then (From-put (codes "ret ")) (From-dump_at rhs)
  From-dump_object fuel (functional_expr func opnds) = From-dump_functional func opnds
  From-dump_object fuel (context c) = From-dump_context fuel c
  From-dump_object fuel (module_expr ctx) = From-dump_at ctx

From-dump :
    (F : Fractions) (w : World) {u : SetUp} (fuel : ℕ) (p : Ptr) → From u u (dump F w fuel p)
unfolding dump
From-dump F w zero p = record { runs = λ d h. leaves_starves }
From-dump F w (suc fuel) p =
    From-bind (From-look w p)
      λ o. From-dump_object F w (dump F w fuel) (λ u q. From-dump F w fuel q) fuel o

-- A dump of any expression that returns leaves the indentation, its symbol and the delimiter of lines of
-- the device as it found them.
pub dump-Leaves :
    (F : Fractions) (w : World) (fuel : ℕ) (p : Ptr) (d : FmtDevice)
    → Leaves (set_up d) (dump F w fuel p d)
dump-Leaves F w fuel p d = (From-dump F w fuel p).runs d refl
