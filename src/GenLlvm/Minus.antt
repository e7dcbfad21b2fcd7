-- ===== src/GenLlvm/Minus.antt =====
-- The sign of a number, in src/catk/behavior/gen_llvm/value.cpp.
use casterisk.Prelude.{ℕ, zero, suc, ◌≡◌, refl, sym, ap, ◌∙◌, List, [], ◌∷◌, Option, some}
use casterisk.Outcome.{raised, internal_bug}
use casterisk.Semantics.Graph as Graph
use casterisk.Semantics.Graph.{Ptr, Object, functional_expr, unary_op}
use casterisk.Semantics.Op.{uop_sub}
use casterisk.Typing.Types.{CatkType}
use casterisk.Typing.Typer as Typer
use casterisk.Typing.Typer.{load_type}
use casterisk.GenLlvm.Builder.{Llvm, Gen, throw}
use casterisk.GenLlvm.UnaryOps.{UnaryBuilder, translate_unary_op}
use casterisk.GenLlvm.Session.{
  DriverBuilder, Session, Made, made, failed, starves, D, next_of, ◌>>=◌, on_types, on_exprs, gen,
}
use casterisk.GenLlvm.Types.{Inference, get_type, translate_type}
use casterisk.GenLlvm.Values.{
  translate_opnds, translate_function, translate_object, translate_value,
}

module _ {L : Llvm} {K : DriverBuilder L} where
  -- No run gives a value.
  record Refuses {A : Type 0} (m : D L K A) : Type 0 where
    runs : (s t : Session L K) (a : A) → ¬ (m s ≡ made a t)

  module _ {A B : Type 0} where
    next_of-made :
        (r : Made L K A) {f : A → D L K B} (b : B) (t : Session L K)
        → ((a : A) → Refuses (f a))
        → ¬ (next_of r f ≡ made b t)
    next_of-made (made a s) b t h e = (h a).runs s t b e
    next_of-made (failed f s) b t h e = cc
    next_of-made starves b t h e = cc

    Refuses-bind : (m : D L K A) {f : A → D L K B} → ((a : A) → Refuses (f a)) → Refuses (m >>= f)
    unfolding ◌>>=◌
    Refuses-bind m h = record { runs = λ s t b e. next_of-made (m s) b t h e }

  Refuses-gen :
      {A : Type 0} (m : Gen L.State A)
      → ((s : L.State) → m s ≡ raised internal_bug)
      → Refuses (gen {K = K} m)
  unfolding gen
  Refuses-gen m h = record {
    runs = λ s t a e.
        let q : gen {K = K} m s ≡ failed internal_bug s = rw (h s.builder) refl in
        let k : failed internal_bug s ≡ made a t = sym q ∙ e in cc;
  }

module _ (L : Llvm) (K : DriverBuilder L) (B : UnaryBuilder L) (I : Inference) where
  minus-raised :
      (vs : List (Option L.Value)) (s : L.State)
      → translate_unary_op L B uop_sub vs s ≡ raised internal_bug
  unfolding translate_unary_op throw
  minus-raised [] s = refl
  minus-raised (v ∷ []) s = refl
  minus-raised (v ∷ (w ∷ vs)) s = refl

  Refuses-function :
      (fuel : ℕ) (rec : Ptr → D L K (Option L.Value)) (t : CatkType) (ty : L.LlvmType)
      (opnds : List (Option Ptr))
      → Refuses (translate_function B I fuel rec t ty (unary_op uop_sub) opnds)
  unfolding translate_function
  Refuses-function fuel rec t ty opnds =
      Refuses-bind (translate_opnds B I fuel rec opnds)
        λ vs. Refuses-gen (translate_unary_op L B uop_sub vs) (minus-raised vs)

  Refuses-object :
      (fuel : ℕ) (rec : Ptr → D L K (Option L.Value)) (p : Ptr) (opnds : List (Option Ptr))
      → Refuses (translate_object B I fuel rec p (functional_expr (unary_op uop_sub) opnds))
  unfolding translate_object
  Refuses-object fuel rec p opnds = Refuses-bind (get_type I (some p)) λ t.
      Refuses-bind (translate_type I fuel t)
        λ ty. Refuses-bind (on_types (load_type t)) λ c. Refuses-function fuel rec c ty opnds

  -- No run of the driver on -x gives a value: whatever the operand, the state of the driver and the fuel.
  pub translate_value-minus :
      (fuel : ℕ) (p : Ptr) (opnds : List (Option Ptr)) (s t : Session L K) (v : Option L.Value)
      → s.typer.exprs.cell p ≡ some (functional_expr (unary_op uop_sub) opnds)
      → ¬ (translate_value B I fuel p s ≡ made v t)
  unfolding translate_value ◌>>=◌ on_exprs on_types Typer.on_exprs Graph.load
  translate_value-minus zero p opnds s t v h e = cc
  translate_value-minus (suc fuel) p opnds s t v h e =
      let q : on_exprs (Graph.load p) s ≡ made (functional_expr (unary_op uop_sub) opnds) s =
        rw (on_exprs, on_types, Typer.on_exprs, Graph.load, h) refl in
      let whole =
        ap (λ r. next_of r λ o. translate_object B I fuel (translate_value B I fuel) p o) q in
      (Refuses-object fuel (translate_value B I fuel) p opnds).runs s t v (sym whole ∙ e)
