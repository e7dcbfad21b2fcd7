-- ===== src/GenLlvm/Again.antt =====
-- What the driver gives for a symbol or a context that it has met before.
use casterisk.Prelude.{
  ℕ, ◌≡◌, ◌∙◌, sym, ap, subst, refl, [], Option, none, some, Text, false, ==_refl,
}
use casterisk.Semantics.Graph.{Ptr, Context, context, load, load_context, as_context}
use casterisk.Typing.Typer as Typer
use casterisk.GenLlvm.Builder.{Llvm}
use casterisk.GenLlvm.UnaryOps.{UnaryBuilder}
use casterisk.GenLlvm.Session.{
  DriverBuilder, Session, Made, made, failed, starves, D, next_of, ◌>>=◌, ◌>>◌, pure, deref, build,
  emit, change, ask, set_storage, set_ctx_struct, on_exprs, on_types, for_index,
}
use casterisk.GenLlvm.Types.{Inference, get_type, translate_type}
use casterisk.GenLlvm.Contexts.{
  store_capture, translate_at, or_define, define_context, translate_context_def,
}
use casterisk.GenLlvm.Values.{make_storage, or_make_storage, translate_symbol}

module _ {L : Llvm} {K : DriverBuilder L} where
  -- The steps of a run that returned.
  invert :
      {A B : Type 0} (r : Made L K A) {f : A → D L K B} {b : B} {u : Session L K}
      → next_of r f ≡ made b u
      → (x : A) × (t : Session L K) × (r ≡ made x t) × (f x t ≡ made b u)
  invert (made x t) e = (x, t, refl, e)
  invert (failed f t) e = absurd cc
  invert starves e = absurd cc

  same_state : {A : Type 0} {x y : A} {s t : Session L K} → made x s ≡ made y t → s ≡ t
  same_state e = cc

  same_value : {A : Type 0} {x y : A} {s t : Session L K} → made x s ≡ made y t → x ≡ y
  same_value e = cc

  -- The place of the symbol is known.
  abbrev Places : Ptr → L.Value → Session L K → Type 0
  Places p v s = s.symbol_storage p ≡ some v

module _ {L : Llvm} {K : DriverBuilder L} (B : UnaryBuilder L) (I : Inference) (fuel : ℕ)
    (rec : Ptr → D L K (Option L.Value)) where
  make_storage-Places :
      (p : Ptr) (name : Text) (rhs : Option Ptr) (s : Session L K) (v : L.Value) (u : Session L K)
      → make_storage B I fuel rec p name rhs s ≡ made v u
      → Places p v u
  unfolding make_storage ◌>>=◌ ◌>>◌ build set_storage emit change pure
  make_storage-Places p name rhs s v u e =
      let (r, t, a, b) = invert (translate_at B I fuel rec rhs s) e in
      let (w, x, c, d) = invert (deref r t) b in
      subst (λ y. Places p v y) (same_state d) (rw (==_refl p) (ap some (same_value d)))

  or_make_storage-Places :
      (p : Ptr) (name : Text) (rhs : Option Ptr) (found : Option L.Value) (s : Session L K)
      (v : L.Value) (u : Session L K)
      → s.symbol_storage p ≡ found
      → or_make_storage B I fuel rec p name rhs found s ≡ made v u
      → Places p v u
  unfolding pure
  or_make_storage-Places p name rhs none s v u h e = make_storage-Places p name rhs s v u e
  or_make_storage-Places p name rhs (some x) s v u h e =
      subst (λ y. Places p v y) (same_state e) (h ∙ ap some (same_value e))

-- Once a symbol has been translated, it is translated again, with any fuel and whatever becomes of its
-- right-hand side, by one load from the place that it then has; the right-hand side is not evaluated
-- again, and nothing but the builder changes.
pub translate_symbol-again :
    (L : Llvm) (K : DriverBuilder L) (B : UnaryBuilder L) (I : Inference) (fuel fuel' : ℕ)
    (rec rec' : Ptr → D L K (Option L.Value)) (p : Ptr) (name : Text) (rhs : Option Ptr)
    (s : Session L K) (r : Option L.Value) (u : Session L K)
    → translate_symbol B I fuel rec p name rhs s ≡ made r u
    → (v : L.Value) × (u.symbol_storage p ≡ some v)
      × (translate_symbol B I fuel' rec' p name rhs u ≡ (
          let l = B.create_load (K.get_pointer_element_type (L.type_of v)) v u.builder in
          made (some l.0) (record u { builder = l.1 })))
unfolding translate_symbol ask ◌>>=◌ build pure
translate_symbol-again L K B I fuel fuel' rec rec' p name rhs s r u e =
    let (v, t, a, b) = invert (or_make_storage B I fuel rec p name rhs (s.symbol_storage p) s) e in
    let h : Places p v u =
      subst (λ y. Places p v y) (same_state b)
        (or_make_storage-Places B I fuel rec p name rhs (s.symbol_storage p) s v t refl a) in
    (v, h, rw (h) refl)

module _ {L : Llvm} {K : DriverBuilder L} (B : UnaryBuilder L) (I : Inference) (fuel : ℕ)
    (rec : Ptr → D L K (Option L.Value)) where
  -- The last steps of a definition.
  entered-loads :
      (sctx : Ptr) (ty : L.LlvmType) (p : L.Value) (s : Session L K) (r : L.Value) (u : Session L K)
      → (set_ctx_struct sctx p >> build (B.create_load ty p)) s ≡ made r u
      → (b : L.State) × (r ≡ (B.create_load ty p b).0) × (u.slazy_ctx_struct sctx ≡ some p)
  unfolding ◌>>=◌ ◌>>◌ build set_ctx_struct change
  entered-loads sctx ty p s r u e = (
    s.builder,
    sym (same_value e),
    subst (λ y. y.slazy_ctx_struct sctx ≡ some p) (same_state e) (rw (==_refl sctx) refl),
  )

  define_context-loads :
      (sctx : Ptr) (c : Context) (s : Session L K) (r : L.Value) (u : Session L K)
      → define_context B I fuel rec sctx c s ≡ made r u
      → (p : L.Value) × (ty : L.LlvmType) × (b : L.State) × (r ≡ (B.create_load ty p b).0)
        × (u.slazy_ctx_struct sctx ≡ some p)
  unfolding define_context ◌>>=◌ ◌>>◌ build
  define_context-loads sctx c s r u e =
      let (t, s1, a1, e1) = invert (get_type I (some sctx) s) e in
      let (ty, s2, a2, e2) = invert (translate_type I fuel t s1) e1 in
      let p = (K.create_alloca ty [] s2.builder).0 in
      let s3 : Session L K = record s2 { builder = (K.create_alloca ty [] s2.builder).1 } in
      let (x, s4, a4, e4) =
        invert (for_index (store_capture B I fuel rec ty p) 0 c.captures s3)
          {f = λ x. set_ctx_struct sctx p >> build (B.create_load ty p)} e2 in
      let (b, q, y) = entered-loads sctx ty p s4 r u e4 in (p, ty, b, q, y)

load_context-made :
    {L : Llvm} {K : DriverBuilder L} (s : Session L K) (p : Ptr) (c : Context)
    → s.typer.exprs.cell p ≡ some (context c)
    → on_exprs (load_context p) s ≡ made c s
unfolding on_exprs on_types Typer.on_exprs load_context load as_context
load_context-made s p c h = rw (h, load) refl

-- What a context that is not immediate is translated to.
not_immediate :
    {L : Llvm} {K : DriverBuilder L} (B : UnaryBuilder L) (I : Inference) (fuel : ℕ)
    (rec : Ptr → D L K (Option L.Value)) (sctx : Ptr) (c : Context) (s : Session L K)
    → s.typer.exprs.cell sctx ≡ some (context c)
    → c.is_immediate ≡ false
    → translate_context_def B I fuel rec sctx s
      ≡ next_of
          (or_define (define_context B I fuel rec sctx c) (s.slazy_ctx_struct sctx) s)
          (λ v t. made (some v) t)
unfolding translate_context_def ask ◌>>=◌ pure
not_immediate B I fuel rec sctx c s h i = rw (load_context-made s sctx c h, i) refl

-- A context that is not immediate is translated, where its structure is not made yet, to what is loaded
-- from the place of its structure; translated again, it gives the place itself, and nothing is loaded.
pub translate_context_def-again :
    (L : Llvm) (K : DriverBuilder L) (B : UnaryBuilder L) (I : Inference) (fuel : ℕ)
    (rec : Ptr → D L K (Option L.Value)) (sctx : Ptr) (c d : Context) (s : Session L K)
    (r : Option L.Value) (u : Session L K)
    → s.typer.exprs.cell sctx ≡ some (context c)
    → c.is_immediate ≡ false
    → s.slazy_ctx_struct sctx ≡ none
    → translate_context_def B I fuel rec sctx s ≡ made r u
    → u.typer.exprs.cell sctx ≡ some (context d)
    → d.is_immediate ≡ false
    → (p : L.Value) × (ty : L.LlvmType) × (b : L.State) × (r ≡ some (B.create_load ty p b).0)
      × (translate_context_def B I fuel rec sctx u ≡ made (some p) u)
unfolding pure
translate_context_def-again L K B I fuel rec sctx c d s r u h i n e h' i' =
    let e' : next_of (or_define (define_context B I fuel rec sctx c) (s.slazy_ctx_struct sctx) s)
          (λ v t. made (some v) t)
        ≡ made r u =
      sym (not_immediate B I fuel rec sctx c s h i) ∙ e in
    let e'' : next_of (define_context B I fuel rec sctx c s) (λ v t. made (some v) t) ≡ made r u =
      subst
        (λ f.
          next_of (or_define (define_context B I fuel rec sctx c) f s) (λ v t. made (some v) t)
          ≡ made r u)
        n e' in
    let (v, t, a, b) = invert (define_context B I fuel rec sctx c s) e'' in
    let (p, ty, st, x, y) = define_context-loads B I fuel rec sctx c s v t a in
    let y' : u.slazy_ctx_struct sctx ≡ some p =
      subst (λ w. w.slazy_ctx_struct sctx ≡ some p) (same_state b) y in
    (
      p,
      ty,
      st,
      sym (same_value b) ∙ ap some x,
      not_immediate B I fuel rec sctx d u h' i' ∙ rw (y') refl,
    )
