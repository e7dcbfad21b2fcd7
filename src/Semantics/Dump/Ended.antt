-- ===== src/Semantics/Dump/Ended.antt =====
-- A dump of expressions that are not circular ends.
pub mod Rules
use casterisk.Prelude.{
  ℕ, zero, suc, ◌+◌, ◌<◌, ◌≤◌, ◌≡◌, refl, Bool, true, false, if◌then◌else◌, List, [], ◌∷◌, ◌++◌,
  Option, none, some, Text, map, codes, arith,
}
use casterisk.Prelude.Int.{pos}
use casterisk.Outcome.{Fault, Outcome, ok, raised}
use casterisk.Io.FmtDevice.{FmtDevice}
use casterisk.Io.Manipulators.{Indent, manipulate, add_indent_manip, sub_indent_manip}
use casterisk.Semantics.PrimaryUnion.{
  PrimaryUnion, uint8, uint16, uint32, uint64, int8, int16, int32, int64, float, double, string,
}
use casterisk.Semantics.Op.{binop_to_string, unaryop_to_string}
use casterisk.Semantics.Graph.{
  Ptr, World, Context, FunctionProto, user, bin_op, unary_op, if_else_op, Object, constant, symbol,
  ret_expr, functional_expr, context, module_expr, name_of,
}
use casterisk.Semantics.Printer.{
  Printed, printed, failed, starves, P, next_of, after_manip, ◌>>=◌, ◌>>◌, pure, throw, lift, deref,
  put, manip, look,
}
use casterisk.Outcome.Yields.{Yields, holds, fails}
use casterisk.Semantics.Dump.Fuel.{dump-more_fuel}
use casterisk.Semantics.Dump.Ranked.{
  parts, Low, low_some, Ranked, Low-raise, Low-head, Low-tail, Low-value, Low-split, LowList,
  dependencies-Low,
}
use casterisk.Semantics.Dump.{
  Fractions, dump_constant, contains, dump_at, dump_list, dump_functional, define, deps_loop,
  deps_and_define, dump_deps, dump_names, dump_context, dump_object, dump,
}
use casterisk.Semantics.Dump.Ended.Rules.{
  IsEnd, IsEnd-starves, Ends, Ends-pure, Ends-throw, Ends-if, IsEnd-next, Ends-bind, Ends-then,
  Ends-deref, Ends-lift, Ends-look, Ends-put, IsEnd-after_manip, Ends-manip, ended,
  Ends-dump_constant,
}

-- `rec` ends on addresses of a rank below `n`.
module _ (F : Fractions) (w : World) (rank : Ptr → ℕ) (ranked : Ranked rank w) (n : ℕ)
    (rec : Ptr → P (Unit {0})) (g : (p : Ptr) → rank p < n → Ends (rec p)) where
  Ends-dump_at : (p : Option Ptr) → Low rank n (p ∷ []) → Ends (dump_at F w rec p)
  unfolding dump_at
  Ends-dump_at p h = Ends-deref p λ q e. g q (Low-value p q h e)

  Ends-dump_list :
      (sep : Text) (first : Bool) (ps : List (Option Ptr))
      → Low rank n ps
      → Ends (dump_list F w rec sep first ps)
  unfolding dump_list
  Ends-dump_list sep first [] h = Ends-pure tt
  Ends-dump_list sep true (p ∷ ps) h =
      Ends-then (Ends-dump_at p (Low-head h)) (Ends-dump_list sep false ps (Low-tail h))
  Ends-dump_list sep false (p ∷ ps) h =
      Ends-then (Ends-put sep)
        (Ends-then (Ends-dump_at p (Low-head h)) (Ends-dump_list sep false ps (Low-tail h)))

  Ends-dump_functional :
      (func : FunctionProto) (ps : List (Option Ptr))
      → Low rank n ps
      → Ends (dump_functional F w rec func ps)
  unfolding dump_functional
  Ends-dump_functional (user uf) ps h = Ends-deref uf λ p e. Ends-look w p λ o e'.
      Ends-then (Ends-put (name_of o)) (
        Ends-then (Ends-put (codes "("))
          (Ends-then (Ends-dump_list (codes ", ") true ps h) (Ends-put (codes ")"))))
  Ends-dump_functional (bin_op bop) (a ∷ (b ∷ [])) h = Ends-then (Ends-dump_at a (Low-head h)) (
      Ends-then (Ends-put (codes " ")) (
        Ends-then (Ends-put (binop_to_string bop))
          (Ends-then (Ends-put (codes " ")) (Ends-dump_at b (Low-tail h)))))
  Ends-dump_functional (bin_op bop) [] h = Ends-throw _
  Ends-dump_functional (bin_op bop) (a ∷ []) h = Ends-throw _
  Ends-dump_functional (bin_op bop) (a ∷ (b ∷ (c ∷ cs))) h = Ends-throw _
  Ends-dump_functional (unary_op uop) (a ∷ []) h =
      Ends-then (Ends-put (unaryop_to_string uop)) (Ends-dump_at a h)
  Ends-dump_functional (unary_op uop) [] h = Ends-throw _
  Ends-dump_functional (unary_op uop) (a ∷ (b ∷ bs)) h = Ends-throw _
  Ends-dump_functional if_else_op (a ∷ (b ∷ (c ∷ []))) h = Ends-then (Ends-put (codes "if(")) (
      Ends-then (Ends-dump_at a (Low-head h)) (
        Ends-then (Ends-put (codes ") ")) (
          Ends-then (Ends-dump_at b (Low-head (Low-tail h)))
            (Ends-then (Ends-put (codes " else ")) (Ends-dump_at c (Low-tail (Low-tail h)))))))
  Ends-dump_functional if_else_op [] h = Ends-throw _
  Ends-dump_functional if_else_op (a ∷ []) h = Ends-throw _
  Ends-dump_functional if_else_op (a ∷ (b ∷ [])) h = Ends-throw _
  Ends-dump_functional if_else_op (a ∷ (b ∷ (c ∷ (d ∷ ds)))) h = Ends-throw _

  Ends-define :
      (p : Ptr) (dumped : List Ptr) (o : Object)
      → rank p < n
      → Low rank n (parts o)
      → Ends (define F w rec p dumped o)
  unfolding define
  Ends-define p dumped (symbol name rhs) lt h = Ends-then (g p lt) (
      Ends-then (Ends-put (codes " = ")) (
        Ends-then (Ends-dump_at rhs h) (
          Ends-then (Ends-put (codes ";"))
            (Ends-then (Ends-put (10 ∷ [])) (Ends-pure (p ∷ dumped))))))
  Ends-define p dumped _ lt h = Ends-pure dumped

  Ends-deps_loop :
      (m : ℕ) (deps : Ptr → List Ptr → P (List Ptr))
      → ((p : Ptr) (dumped : List Ptr) → rank p < m → Ends (deps p dumped))
      → (ds dumped : List Ptr) → LowList rank m ds
      → Ends (deps_loop F w rec deps ds dumped)
  unfolding deps_loop
  Ends-deps_loop m deps k [] dumped h = Ends-pure dumped
  Ends-deps_loop m deps k (d ∷ ds) dumped (low_some lt h) =
      Ends-bind (k d dumped lt) λ also. Ends-deps_loop m deps k ds also h

  Ends-deps_and_define :
      (m : ℕ) (deps : Ptr → List Ptr → P (List Ptr))
      → ((p : Ptr) (dumped : List Ptr) → rank p < m → Ends (deps p dumped))
      → (p : Ptr) (o : Object) (ds dumped : List Ptr) → rank p < n
      → Low rank n (parts o)
      → LowList rank m ds
      → Ends (deps_and_define F w rec deps p o ds dumped)
  Ends-deps_and_define m deps k p o [] dumped lt l h = Ends-pure dumped
  Ends-deps_and_define m deps k p o (d ∷ ds) dumped lt l h =
      Ends-bind (Ends-deps_loop m deps k (d ∷ ds) dumped h) λ also. Ends-define p also o lt l

  Ends-dump_deps :
      (fuel : ℕ) (p : Ptr) (dumped : List Ptr)
      → fuel ≤ n
      → rank p < fuel
      → Ends (dump_deps F w rec fuel p dumped)
  unfolding dump_deps
  Ends-dump_deps zero p dumped le lt = absurd (omega arith)
  Ends-dump_deps (suc fuel) p dumped le lt = Ends-if (contains p dumped) (Ends-pure dumped) (
      Ends-look w p λ o e.
        let low : Low rank fuel (parts o) = Low-raise (omega arith) (ranked p o e) in
        Ends-lift (dependencies-Low rank fuel o low) λ ds h.
          Ends-deps_and_define fuel (dump_deps F w rec fuel)
            (λ q also l. Ends-dump_deps fuel q also (omega arith) l) p o ds dumped (omega arith)
            (Low-raise (omega arith) low) h)

  Ends-dump_names :
      (l r : Text) (ps : List Ptr) → LowList rank n ps → Ends (dump_names F w rec l r ps)
  unfolding dump_names
  Ends-dump_names l r [] h = Ends-pure tt
  Ends-dump_names l r (p ∷ ps) h =
      Ends-then (Ends-put l)
        (Ends-then (Ends-dump_list (codes ",") true (map some (p ∷ ps)) h) (Ends-put r))

  Ends-dump_context :
      (c : Context) → Low rank n (parts (context c)) → Ends (dump_context F w rec n c)
  unfolding dump_context
  Ends-dump_context c h =
      let (ps, cs) = Low-split c.params c.captures (Low-tail h) in
      Ends-then (Ends-dump_names (codes "[") (codes "] ") c.captures cs) (
        Ends-then (Ends-dump_names (codes "(") (codes ") ") c.params ps) (
          Ends-then (Ends-put (codes "{")) (
            Ends-then (Ends-put (10 ∷ [])) (
              Ends-then (Ends-manip (add_indent_manip (pos 2))) (
                Ends-deref c.ret_expr λ r e.
                  let lt = Low-value c.ret_expr r (Low-head h) e in
                  Ends-then (Ends-dump_deps n r (c.params ++ c.captures) (omega arith) lt) (
                    Ends-then (g r lt) (
                      Ends-then (Ends-put (codes ";")) (
                        Ends-then (Ends-put (10 ∷ [])) (
                          Ends-then (Ends-manip (sub_indent_manip (pos 2)))
                            (Ends-put (codes "}")))))))))))

  Ends-dump_object : (o : Object) → Low rank n (parts o) → Ends (dump_object F w rec n o)
  unfolding dump_object
  Ends-dump_object (constant v) h = Ends-dump_constant F v
  Ends-dump_object (symbol name rhs) h = Ends-put name
  Ends-dump_object (ret_expr rhs) h = Ends-then (Ends-put (codes "ret ")) (Ends-dump_at rhs h)
  Ends-dump_object (functional_expr func opnds) h = Ends-dump_functional func opnds (Low-tail h)
  Ends-dump_object (context c) h = Ends-dump_context c h
  Ends-dump_object (module_expr ctx) h = Ends-dump_at ctx h

Ends-dump :
    (F : Fractions) (w : World) (rank : Ptr → ℕ)
    → Ranked rank w
    → (fuel : ℕ) (p : Ptr) → rank p < fuel
    → Ends (dump F w fuel p)
unfolding dump
Ends-dump F w rank ranked zero p lt = absurd (omega arith)
Ends-dump F w rank ranked (suc fuel) p lt = Ends-look w p λ o e.
    Ends-dump_object F w rank ranked fuel (dump F w fuel) (Ends-dump F w rank ranked fuel) o
      (Low-raise (omega arith) (ranked p o e))

-- When each expression has a rank above those that it points to, a dump with more fuel than the rank of
-- the expression returns or throws, whatever the device, and ends in the same way, with the same text,
-- with any more fuel.
pub dump-IsEnd :
    (F : Fractions) (w : World) (rank : Ptr → ℕ)
    → Ranked rank w
    → (fuel extra : ℕ) (p : Ptr) (d : FmtDevice) → rank p < fuel
    → IsEnd (dump F w fuel p d) × (dump F w (extra + fuel) p d ≡ dump F w fuel p d)
dump-IsEnd F w rank ranked fuel extra p d lt =
    let end = (Ends-dump F w rank ranked fuel p lt).runs d in
    (end, dump-more_fuel F w fuel extra p d (IsEnd-starves end))
