-- ===== src/GenLlvm/Restores/Calls.antt =====
-- The translation of a call comes back to the function that it began in.
use casterisk.Prelude.{
  ℕ, ◌≡◌, refl, List, ◌∷◌, codes, Option, none, some, Text, Bool, true, false, if◌then◌else◌, ◌==◌,
  Bool-cases, inl, inr, ==_iff,
}
use casterisk.Semantics.Graph.{Ptr, Context}
use casterisk.Semantics.Graph.Framed.{Framed-load_context}
use casterisk.Typing.Safe.{Kept-refl}
use casterisk.Typing.Infer.Keeps.{Safe-get_typed_context}
use casterisk.GenLlvm.Builder.{Llvm}
use casterisk.GenLlvm.UnaryOps.{UnaryBuilder}
use casterisk.GenLlvm.Session.{
  DriverBuilder, Session, D, build, deref, each, for_each, change, set_curr_func, set_ctx_func,
  pure, ◌>>=◌,
}
use casterisk.GenLlvm.Types.{Inference}
use casterisk.GenLlvm.Contexts.{
  create_function, or_define, or_generate, translate_at, store_capture, define_context,
  translate_context_def, erase, fill_function, generate_function, call_context,
  translate_context_call,
}
use casterisk.GenLlvm.Steady.{
  Absent, At, ends_made, From, Steady, From-pure, From-bind, From-then, From-known, From-ask,
  From-weaken,
}
use casterisk.GenLlvm.Steady.Rules.{
  steady, Steady-pure, Steady-throw, Steady-deref, Steady-if, Steady-bind, Steady-then, Steady-each,
  Steady-for_each, Steady-for_index, Steady-on_types, Steady-on_exprs, Steady-build, Steady-ask,
  Steady-emit, Steady-set_storage,
}
use casterisk.GenLlvm.Restores.Parts.{
  Steady-get_type, Steady-captured, Steady-translate_type, Steady-returned_rhs,
  Steady-get_ctx_struct_mem, Steady-function_or_fail, Steady-bind_capture, Steady-bind_param,
  Steady-param_type,
}

clash : {A : Type 0} (g : ℕ → Option A) {p q : ℕ} {h : A} → q ≡ p → g p ≡ none → g q ≡ some h → ⊥
clash g x e d = cc

function_stays :
    {A : Type 0} (g : ℕ → Option A) (p : ℕ) (f : A) (q : ℕ) (h : A)
    → g p ≡ none
    → g q ≡ some h
    → (if q == p then some f else g q) ≡ some h
function_stays g p f q h e d = elim (Bool-cases (q == p)) [
  | inl t ↦ absurd (clash g ((==_iff q p).0 t) e d)
  | inr t ↦ rw (t) d
]

-- The driver has no function for the context `a`, if one is named.
abbrev pub Has : {L : Llvm} {K : DriverBuilder L} → Option Ptr → Session L K → Type 0
Has a s = Absent s.typed_ctx_func a

-- The steps that change what is known of the driver.
module _ {L : Llvm} {K : DriverBuilder L} {n : Ptr} where
  pub From-set_curr_func :
      {a : Option Ptr} (f : Option K.Func)
      → From {L = L} {K = K} n (Has a) (At f a) (set_curr_func f)
  unfolding set_curr_func change
  From-set_curr_func f = record {
    runs = λ s w h p.
        ends_made
          (record {
            kept = Kept-refl n s.typer w;
            functions = λ p f e. e;
            structures = λ p v e. (v, e);
          })
          (record { function = refl; absent = p });
  }

  pub From-set_ctx_func :
      (p : Ptr) (f : K.Func) → From {L = L} {K = K} n (Has (some p)) (Has none) (set_ctx_func p f)
  unfolding set_ctx_func change
  From-set_ctx_func p f = record {
    runs = λ s w h at.
        ends_made
          (record {
            kept = Kept-refl n s.typer w;
            functions = λ q g e. function_stays s.typed_ctx_func p f q g at e;
            structures = λ p v e. (v, e);
          })
          tt;
  }

module _ {L : Llvm} {K : DriverBuilder L} {n : Ptr} {a : Option Ptr} {A : Type 0}
    {m : D L K A} where
  pub From-Has : Steady n a m → From n (Has a) (Has a) m
  From-Has g = record {
    runs = λ s w h p.
        (From-weaken (λ u q. q) (λ u q. q.absent) (g.at s.curr_func)).runs s w h
          (record { function = refl; absent = p });
  }

module _ {L : Llvm} {K : DriverBuilder L} {n : Ptr} where
  pub From-create_function :
      (a : Option Ptr) (ft : K.FuncType) (name : Text)
      → From {L = L} {K = K} n (Has a) (Has a) (create_function ft name)
  unfolding create_function
  From-create_function a ft name = From-bind (From-Has (Steady-build _)) λ f.
      From-bind (From-Has (Steady-function_or_fail f)) λ func.
        From-then (From-Has (Steady-build (K.create_block (codes "catk_begin") (some func)))) (
          From-then
            (From-weaken {P = Has a} {Q = At (some func) a} (λ s p. p) (λ s p. p.absent)
              (From-set_curr_func (some func)))
            (From-pure func))

module _ {L : Llvm} {K : DriverBuilder L} {n : Ptr} (B : UnaryBuilder L) (I : Inference) (fuel : ℕ)
    (rec : Ptr → D L K (Option L.Value)) (g : (p : Ptr) → Steady n none (rec p)) where
  pub Steady-translate_at : (p : Option Ptr) → Steady n none (translate_at B I fuel rec p)
  unfolding translate_at
  Steady-translate_at none = Steady-throw _
  Steady-translate_at (some p) = g p

  pub Steady-store_capture :
      (ty : L.LlvmType) (p : L.Value) (i : ℕ) (scap : Ptr)
      → Steady n none (store_capture B I fuel rec ty p i scap)
  unfolding store_capture
  Steady-store_capture ty p i scap =
      search (steady, Steady-captured, Steady-translate_at, Steady-get_ctx_struct_mem) depth 16

  pub Steady-or_define :
      {m : D L K L.Value} (v : Option L.Value) → Steady n none m → Steady n none (or_define m v)
  Steady-or_define none h = h
  Steady-or_define (some v) h = Steady-pure v

  pub Steady-define_context :
      (p : Ptr) (c : Context) → Steady n none (define_context B I fuel rec p c)
  unfolding define_context
  Steady-define_context p c =
      search (steady, Steady-get_type, Steady-translate_type, Steady-store_capture) depth 24

  pub Steady-translate_context_def :
      (p : Ptr) → Steady n none (translate_context_def B I fuel rec p)
  unfolding translate_context_def
  Steady-translate_context_def p = Steady-bind (Steady-on_exprs (Framed-load_context p)) λ c.
      Steady-if c.is_immediate (Steady-pure none) (
        Steady-bind (Steady-ask _) λ v.
          Steady-bind (Steady-or_define v (Steady-define_context p c)) λ r. Steady-pure (some r))

  pub Steady-erase : (ps : List Ptr) → Steady {L = L} {K = K} n none (for_each erase ps)
  unfolding erase
  Steady-erase ps = Steady-for_each (λ p. Steady-set_storage p none) ps

  pub Steady-fill_function :
      (func : K.Func) (callee sctx : Ptr)
      → Steady n none (fill_function B I fuel rec func callee sctx)
  unfolding fill_function
  Steady-fill_function func callee sctx =
      Steady-bind (Steady-ask (λ s. K.get_entry_block func s.builder)) λ block.
        Steady-then (Steady-emit (K.set_insert_point block)) (
          Steady-bind (Steady-on_exprs (Framed-load_context callee)) λ c.
            Steady-then (Steady-for_index (Steady-bind_capture func) 0 c.captures) (
              Steady-bind (Steady-on_exprs (Framed-load_context sctx)) λ d.
                Steady-then (Steady-for_index (Steady-bind_param func) 0 d.params) (
                  Steady-bind (Steady-on_exprs (Framed-load_context sctx)) λ d.
                    Steady-bind (Steady-returned_rhs d) λ rhs.
                      Steady-bind (Steady-translate_at rhs) λ res.
                        Steady-then (Steady-emit (K.create_ret res)) (
                          Steady-bind (Steady-on_exprs (Framed-load_context sctx)) λ d.
                            Steady-then (Steady-erase d.captures)
                              (Steady-then (Steady-erase d.params) (Steady-erase d.locals))))))

  pub From-generate_function :
      (name : Text) (callee : Ptr) (v : Option L.Value) (sctx : Ptr) (c : Option K.Func)
      → From n (At c (some sctx)) (At c none) (generate_function B I fuel rec name callee v sctx c)
  unfolding generate_function
  From-generate_function name callee v sctx c =
      From-bind ((Steady-get_type I (some sctx)).at c) λ t.
        From-bind ((Steady-translate_type I fuel t).at c) λ rty.
          From-bind ((Steady-deref v).at c) λ x.
            From-bind ((Steady-on_exprs (Framed-load_context sctx)).at c) λ d.
              From-bind ((Steady-each (Steady-param_type I fuel) d.params).at c) λ tys.
                From-bind
                  (From-weaken {P = Has (some sctx)} (λ s p. p.absent) (λ s p. p)
                    (From-create_function (some sctx) _ name))
                  λ func. From-then (From-set_ctx_func sctx func) (
                    From-bind (From-Has {a = none} (Steady-ask (λ s. K.get_insert_block s.builder)))
                      λ block. From-then (From-set_curr_func (some func)) (
                        From-then ((Steady-fill_function func callee sctx).at (some func)) (
                          From-then ((Steady-emit (K.set_insert_point block)).at (some func)) (
                            From-then
                              (From-weaken {P = Has none} (λ s p. p.absent) (λ s p. p)
                                (From-set_curr_func c))
                              (From-pure func)))))

  pub found_or_made :
      (name : Text) (callee : Ptr) (v : Option L.Value) (sctx : Ptr) (c : Option K.Func)
      (found : Option K.Func)
      → From n
          (λ s. At c none s × (s.typed_ctx_func sctx ≡ found))
          (At c none)
          (or_generate (generate_function B I fuel rec name callee v sctx c) found)
  found_or_made name callee v sctx c (some f) = From-weaken (λ s p. p.0) (λ s p. p) (From-pure f)
  found_or_made name callee v sctx c none =
      From-weaken (λ s p. record { function = p.0.function; absent = p.1 }) (λ s p. p)
        (From-generate_function name callee v sctx c)

  pub From-if :
      {P Q : Session L K → Type 0} (b : Bool) {x y : D L K (Option L.Value)}
      → From n P Q x
      → From n P Q y
      → From n P Q (if b then x else y)
  From-if true g h = g
  From-if false g h = h

  pub Steady-last :
      (v : Option L.Value) (opnds : List (Option L.Value)) (func : K.Func)
      → Steady {L = L} {K = K} n none (do
        v ← deref v
        args ← each deref opnds
        r ← build (K.create_call func (v ∷ args))
        pure (some r))
  Steady-last v opnds func = search steady depth 12

  pub From-call_context :
      (name : Text) (callee : Ptr) (v : Option L.Value) (s_opnds : List (Option Ptr))
      (opnds : List (Option L.Value)) (c : Option K.Func)
      → From n (At c none) (At c none) (call_context B I fuel rec name callee v s_opnds opnds c)
  unfolding call_context
  From-call_context name callee v s_opnds opnds c =
      From-bind ((Steady-on_exprs (Framed-load_context callee)).at c) λ d.
        From-if d.is_immediate ((Steady-bind (Steady-returned_rhs d) Steady-translate_at).at c) (
          From-bind ((Steady-each (Steady-get_type I) s_opnds).at c) λ tys.
            From-bind
              ((Steady-on_types
                  (Safe-get_typed_context n I.print_address I.clone_fuel callee tys)).at
                c)
              λ sctx.
                From-ask (λ s. s.typed_ctx_func sctx)
                  λ found.
                    From-bind (found_or_made name callee v sctx c found)
                      λ func. (Steady-last v opnds func).at c)

  pub Steady-translate_context_call :
      (name : Text) (callee : Ptr) (v : Option L.Value) (s_opnds : List (Option Ptr))
      (opnds : List (Option L.Value))
      → Steady n none (translate_context_call B I fuel rec name callee v s_opnds opnds)
  unfolding translate_context_call
  Steady-translate_context_call name callee v s_opnds opnds = record {
    at = λ c.
        From-known (call_context B I fuel rec name callee v s_opnds opnds) (λ s. s.curr_func) c
          (λ s p. p.function) (From-call_context name callee v s_opnds opnds c);
  }
