-- ===== src/Semantics/Dump/Fuel.antt =====
-- More fuel for `dump` gives the same text.
use casterisk.Prelude.{
  ℕ, zero, suc, ◌+◌, ◌≡◌, refl, sym, ap, arith, ◌∙◌, Bool, true, false, if◌then◌else◌, List, [],
  ◌∷◌, ◌++◌, Option, some, Text, map, codes,
}
use casterisk.Prelude.Int.{pos}
use casterisk.Io.FmtDevice.{FmtDevice}
use casterisk.Io.Manipulators.{add_indent_manip, sub_indent_manip}
use casterisk.Semantics.Op.{binop_to_string, unaryop_to_string}
use casterisk.Semantics.Graph.{
  Ptr, World, Context, FunctionProto, user, bin_op, unary_op, if_else_op, Object, constant, symbol,
  ret_expr, functional_expr, context, module_expr, name_of,
}
use casterisk.Semantics.Printer.{
  Printed, printed, failed, starves, P, next_of, ◌>>=◌, ◌>>◌, pure, lift, deref, put, manip, look,
}
use casterisk.Semantics.Clone.{dependencies}
use casterisk.Semantics.Dump.{
  Fractions, dump_constant, contains, dump_at, dump_list, dump_functional, define, deps_loop,
  deps_and_define, dump_deps, dump_names, dump_context, dump_object, dump,
}

-- The second run ends like the first one, unless that starves.
pub data Extends {A : Type 0} : Printed A → Printed A → Type 0 where
  from_starves : {r : Printed A} → Extends starves r
  same : {r : Printed A} → Extends r r

record More {A : Type 0} (m n : P A) : Type 0 where
  runs : (d : FmtDevice) → Extends (m d) (n d)

module _ {A : Type 0} where
  More-same : (m : P A) → More m m
  More-same m = record { runs = λ d. same }

  More-if :
      (b : Bool) (x : P A) {y z : P A} → More y z → More (if b then x else y) (if b then x else z)
  More-if true x h = More-same x
  More-if false x h = h

module _ {A B : Type 0} where
  Extends-next :
      {r s : Printed A} {f g : A → P B}
      → Extends r s
      → ((a : A) → More (f a) (g a))
      → Extends (next_of r f) (next_of s g)
  Extends-next from_starves k = from_starves
  Extends-next (same {r = printed a d}) k = (k a).runs d
  Extends-next (same {r = failed e d}) k = same
  Extends-next (same {r = starves}) k = same

  More-bind :
      {m n : P A} {f g : A → P B}
      → More m n
      → ((a : A) → More (f a) (g a))
      → More (m >>= f) (n >>= g)
  unfolding ◌>>=◌
  More-bind h k = record { runs = λ d. Extends-next (h.runs d) k }

  More-then : {m n : P A} {k l : P B} → More m n → More k l → More (m >> k) (n >> l)
  unfolding ◌>>◌
  More-then h k = More-bind h λ a. k

  -- Behind what is the same in both runs.
  More-after : (m : P A) {f g : A → P B} → ((a : A) → More (f a) (g a)) → More (m >>= f) (m >>= g)
  More-after m k = More-bind (More-same m) k

  More-behind : (m : P A) {k l : P B} → More k l → More (m >> k) (m >> l)
  More-behind m k = More-then (More-same m) k

-- `rec` and `more` are dumps of the expression at an address, the second one with more fuel.
module _ (F : Fractions) (w : World) (rec more : Ptr → P (Unit {0}))
    (g : (p : Ptr) → More (rec p) (more p)) where
  More-dump_at : (p : Option Ptr) → More (dump_at F w rec p) (dump_at F w more p)
  unfolding dump_at
  More-dump_at p = More-after (deref p) g

  More-dump_list :
      (sep : Text) (first : Bool) (ps : List (Option Ptr))
      → More (dump_list F w rec sep first ps) (dump_list F w more sep first ps)
  unfolding dump_list
  More-dump_list sep first [] = More-same (pure tt)
  More-dump_list sep true (p ∷ ps) = More-then (More-dump_at p) (More-dump_list sep false ps)
  More-dump_list sep false (p ∷ ps) =
      More-behind (put sep) (More-then (More-dump_at p) (More-dump_list sep false ps))

  More-dump_functional :
      (func : FunctionProto) (ps : List (Option Ptr))
      → More (dump_functional F w rec func ps) (dump_functional F w more func ps)
  unfolding dump_functional
  More-dump_functional (user uf) ps = More-after (deref uf) λ p. More-after (look w p) λ o.
      More-behind (put (name_of o)) (
        More-behind (put (codes "("))
          (More-then (More-dump_list (codes ", ") true ps) (More-same (put (codes ")")))))
  More-dump_functional (bin_op bop) (a ∷ (b ∷ [])) = More-then (More-dump_at a) (
      More-behind (put (codes " "))
        (More-behind (put (binop_to_string bop)) (More-behind (put (codes " ")) (More-dump_at b))))
  More-dump_functional (bin_op bop) [] = More-same _
  More-dump_functional (bin_op bop) (a ∷ []) = More-same _
  More-dump_functional (bin_op bop) (a ∷ (b ∷ (c ∷ cs))) = More-same _
  More-dump_functional (unary_op uop) (a ∷ []) =
      More-behind (put (unaryop_to_string uop)) (More-dump_at a)
  More-dump_functional (unary_op uop) [] = More-same _
  More-dump_functional (unary_op uop) (a ∷ (b ∷ bs)) = More-same _
  More-dump_functional if_else_op (a ∷ (b ∷ (c ∷ []))) = More-behind (put (codes "if(")) (
      More-then (More-dump_at a) (
        More-behind (put (codes ") "))
          (More-then (More-dump_at b) (More-behind (put (codes " else ")) (More-dump_at c)))))
  More-dump_functional if_else_op [] = More-same _
  More-dump_functional if_else_op (a ∷ []) = More-same _
  More-dump_functional if_else_op (a ∷ (b ∷ [])) = More-same _
  More-dump_functional if_else_op (a ∷ (b ∷ (c ∷ (d ∷ ds)))) = More-same _

  More-define :
      (p : Ptr) (dumped : List Ptr) (o : Object)
      → More (define F w rec p dumped o) (define F w more p dumped o)
  unfolding define
  More-define p dumped (symbol name rhs) = More-then (g p) (
      More-behind (put (codes " = ")) (
        More-then (More-dump_at rhs)
          (More-same (do put (codes ";"); put (10 ∷ []); pure (p ∷ dumped)))))
  More-define p dumped _ = More-same (pure dumped)

  module _ (deps further : Ptr → List Ptr → P (List Ptr))
      (h : (p : Ptr) (dumped : List Ptr) → More (deps p dumped) (further p dumped)) where
    More-deps_loop :
        (ds dumped : List Ptr)
        → More (deps_loop F w rec deps ds dumped) (deps_loop F w more further ds dumped)
    unfolding deps_loop
    More-deps_loop [] dumped = More-same (pure dumped)
    More-deps_loop (d ∷ ds) dumped = More-bind (h d dumped) (More-deps_loop ds)

    More-deps_and_define :
        (p : Ptr) (o : Object) (ds dumped : List Ptr)
        → More
            (deps_and_define F w rec deps p o ds dumped)
            (deps_and_define F w more further p o ds dumped)
    More-deps_and_define p o [] dumped = More-same (pure dumped)
    More-deps_and_define p o (d ∷ ds) dumped =
        More-bind (More-deps_loop (d ∷ ds) dumped) λ also. More-define p also o

  More-dump_deps :
      (fuel : ℕ) (p : Ptr) (dumped : List Ptr)
      → More (dump_deps F w rec fuel p dumped) (dump_deps F w more (suc fuel) p dumped)
  unfolding dump_deps
  More-dump_deps zero p dumped = record { runs = λ d. from_starves }
  More-dump_deps (suc fuel) p dumped = More-if (contains p dumped) (pure dumped) (
      More-after (look w p) λ o. More-after (lift (dependencies o)) λ ds.
        More-deps_and_define (dump_deps F w rec fuel) (dump_deps F w more (suc fuel))
          (More-dump_deps fuel) p o ds dumped)

  More-dump_names :
      (l r : Text) (ps : List Ptr) → More (dump_names F w rec l r ps) (dump_names F w more l r ps)
  unfolding dump_names
  More-dump_names l r [] = More-same (pure tt)
  More-dump_names l r (p ∷ ps) =
      More-behind (put l)
        (More-then (More-dump_list (codes ",") true (map some (p ∷ ps))) (More-same (put r)))

  More-dump_context :
      (fuel : ℕ) (c : Context)
      → More (dump_context F w rec fuel c) (dump_context F w more (suc fuel) c)
  unfolding dump_context
  More-dump_context fuel c = More-then (More-dump_names (codes "[") (codes "] ") c.captures) (
      More-then (More-dump_names (codes "(") (codes ") ") c.params) (
        More-behind (put (codes "{")) (
          More-behind (put (10 ∷ [])) (
            More-behind (manip (add_indent_manip (pos 2))) (
              More-after (deref c.ret_expr) λ r.
                More-then (More-dump_deps fuel r (c.params ++ c.captures)) (
                  More-then (g r) (
                    More-same (do
                      put (codes ";")
                      put (10 ∷ [])
                      manip (sub_indent_manip (pos 2))
                      put (codes "}")))))))))

  More-dump_object :
      (fuel : ℕ) (o : Object)
      → More (dump_object F w rec fuel o) (dump_object F w more (suc fuel) o)
  unfolding dump_object
  More-dump_object fuel (constant v) = More-same (dump_constant F v)
  More-dump_object fuel (symbol name rhs) = More-same (put name)
  More-dump_object fuel (ret_expr rhs) = More-behind (put (codes "ret ")) (More-dump_at rhs)
  More-dump_object fuel (functional_expr func opnds) = More-dump_functional func opnds
  More-dump_object fuel (context c) = More-dump_context fuel c
  More-dump_object fuel (module_expr ctx) = More-dump_at ctx

More-dump :
    (F : Fractions) (w : World) (fuel : ℕ) (p : Ptr)
    → More (dump F w fuel p) (dump F w (suc fuel) p)
unfolding dump
More-dump F w zero p = record { runs = λ d. from_starves }
More-dump F w (suc fuel) p =
    More-after (look w p)
      (More-dump_object F w (dump F w fuel) (dump F w (suc fuel)) (More-dump F w fuel) fuel)

Extends-starves : {A : Type 0} {r s : Printed A} → Extends r s → ¬ (r ≡ starves) → s ≡ r
Extends-starves from_starves n = absurd (n refl)
Extends-starves same n = refl

-- A dump that has enough fuel to return or to throw ends in the same way, with the same text, with any more
-- fuel.
pub dump-more_fuel :
    (F : Fractions) (w : World) (fuel extra : ℕ) (p : Ptr) (d : FmtDevice)
    → ¬ (dump F w fuel p d ≡ starves)
    → dump F w (extra + fuel) p d ≡ dump F w fuel p d
dump-more_fuel F w fuel zero p d n =
    let e : zero + fuel ≡ fuel = omega arith in ap (λ k. dump F w k p d) e
dump-more_fuel F w fuel (suc extra) p d n =
    let e : suc extra + fuel ≡ suc (extra + fuel) = omega arith in
    let h = dump-more_fuel F w fuel extra p d n in
    ap (λ k. dump F w k p d) e
    ∙ Extends-starves ((More-dump F w (extra + fuel) p).runs d) (λ q. n (sym h ∙ q))
    ∙ h
