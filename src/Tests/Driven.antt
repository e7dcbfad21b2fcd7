-- ===== src/Tests/Driven.antt =====
-- Runs of the code generator on small graphs.
use casterisk.Prelude.{
  ℕ, suc, ◌+◌, ◌-◌, ◌≡◌, refl, ◌==◌, if◌then◌else◌, [], length, Option, none, some, codes, false,
  ◌∷◌,
}
use casterisk.Prelude.Int.{pos}
use casterisk.Semantics.PrimaryUnion.{int8}
use casterisk.Semantics.Graph.{
  run, World, Context, context, symbol, constant, empty_context, functional_expr, unary_op,
}
use casterisk.Semantics.Op.{uop_sub}
use casterisk.Outcome.{Fault, internal_bug}
use casterisk.GenLlvm.Minus.{translate_value-minus}
use casterisk.Semantics.FromAst.Expr.{expr_from_ast}
use casterisk.Semantics.Clone.{deep_clone}
use casterisk.Semantics.PrimaryType.{uint16, is_float, is_signed_int}
use casterisk.Typing.OpCast.{bop_cast}
use casterisk.Typing.Infer as Infer
use casterisk.GenLlvm.Session.{DriverBuilder, Session, Made, made, failed, starves}
use casterisk.GenLlvm.Builder.{translate_primary}
use casterisk.GenLlvm.CTypes.{c_uint16, get_llvm_type, get_llvm_type-primary}
use casterisk.GenLlvm.Types.{Inference}
use casterisk.GenLlvm.Contexts.{rhs_of_ret, translate_context_def}
use casterisk.GenLlvm.Values.{
  translate_value, translate_symbol, new_driver, handle_module, gen_llvm_mod,
}
use casterisk.GenLlvm.Steady.{EndsIn}
use casterisk.GenLlvm.Restores.{translate_value-Grows, gen_llvm_mod-Grows}
use casterisk.GenLlvm.Again.{translate_symbol-again, translate_context_def-again}
use casterisk.Tests.Graphs.{built}
use casterisk.Tests.Inferred.{fresh_typer, address}
use casterisk.Tests.Typed.{counter, counter_unary, no_types-IsInterned}

-- A value is its type, a pointer 1000 more than what it leads to, and the state counts the calls.
abbrev counter_driver : DriverBuilder counter
counter_driver = record {
  Func = ℕ;
  Block = ℕ;
  FuncType = ℕ;
  new_module = λ n. n;
  identified_struct_types = λ n. [];
  get_void_ty = 0;
  get_function_type = λ r ps. length ps;
  function_as_type = λ f. f;
  get_pointer_to = λ t. 1000 + t;
  get_pointer_element_type = λ t. t - 1000;
  get_struct_element_type = λ t i. some i;
  create_struct = λ ts name n. (500 + length ts, suc n);
  get_or_insert_function = λ name t n. (some n, suc n);
  get_arg = λ f i. i;
  get_entry_block = λ f n. f;
  create_block = λ name f n. (n, suc n);
  get_insert_block = λ n. 0;
  get_insert_point = λ n. (0, n);
  set_insert_point = λ b n. n;
  create_alloca = λ t name n. (1000 + t, suc n);
  create_store = λ v p n. suc n;
  create_struct_gep = λ t p i n. (p, suc n);
  create_bit_or_pointer_cast = λ v t n. (t, n);
  create_extract_value = λ v i n. (i, suc n);
  create_call = λ f vs n. (f, suc n);
  create_ret = λ v n. suc n;
  create_cond_br = λ c a b n. suc n;
  create_br = λ b n. suc n;
}

abbrev inference : Inference
inference = record { print_address = address; clone_fuel = 10; type_fuel = 30 }

abbrev session : World → Session counter counter_driver
session w = new_driver counter_unary inference (fresh_typer w) 0

translate_value-Grows_example :
    EndsIn built.next
      (session built)
      (λ u. u.curr_func ≡ none)
      (translate_value counter_unary inference 20 10 (session built))
translate_value-Grows_example =
    translate_value-Grows counter counter_driver counter_unary inference 20 10 (session built)
      no_types-IsInterned

abbrev calls : {A : Type 0} → Made counter counter_driver A → Option ℕ
calls (made a u) = some u.builder
calls _ = none

-- The generator gets through a module in which a lambda is called.
calls-sample : calls (handle_module counter_unary inference 30 12 (session built)) ≡ some 39
unfolding handle_module translate_value Infer.get_type run expr_from_ast deep_clone bop_cast
    rhs_of_ret is_float is_signed_int
calls-sample = refl

-- The symbol at 0 has the constant at 1 for its right-hand side; the context at 2 has nothing in it.
abbrev small : World
small = record {
  cell = λ p.
      if p == 0
      then some (symbol (codes "a") (some 1))
      else if p == 1
      then some (constant (int8 (pos 1)))
      else if p == 2
      then some (context (record empty_context { is_immediate = false; id = codes "ctx1" }))
      else none;
  next = 3;
  current = none;
}

abbrev on_small : Session counter counter_driver
on_small = session small

abbrev given : Made counter counter_driver (Option ℕ) → Option ℕ
given (made a u) = a
given _ = none

abbrev state : Made counter counter_driver (Option ℕ) → Session counter counter_driver
state (made a u) = u
state _ = on_small

abbrev first_use : Made counter counter_driver (Option ℕ)
first_use =
    translate_symbol counter_unary inference 5 (translate_value counter_unary inference 5) 0
      (codes "a") (some 1) on_small

translate_symbol-again_example :
    (v : ℕ) × ((state first_use).symbol_storage 0 ≡ some v)
    × (translate_symbol counter_unary inference 0
          (λ p s. starves)
          0
          (codes "a")
          (some 1)
          (state first_use)
        ≡ (let l = counter_unary.create_load (v - 1000) v (state first_use).builder in
            made (some l.0) (record (state first_use) { builder = l.1 })))
unfolding translate_symbol translate_value Infer.get_type
translate_symbol-again_example =
    translate_symbol-again counter counter_driver counter_unary inference 5 0
      (translate_value counter_unary inference 5) (λ p s. starves) 0 (codes "a") (some 1) on_small
      (given first_use) (state first_use) refl

abbrev definition : Made counter counter_driver (Option ℕ)
definition =
    translate_context_def counter_unary inference 5 (translate_value counter_unary inference 5) 2
      on_small

translate_context_def-again_example :
    (p : ℕ) × (ty : ℕ) × (b : ℕ) × (given definition ≡ some (counter_unary.create_load ty p b).0)
    × (translate_context_def counter_unary inference 5
          (translate_value counter_unary inference 5)
          2
          (state definition)
        ≡ made (some p) (state definition))
unfolding translate_context_def translate_value Infer.get_type
translate_context_def-again_example =
    let c : Context = record empty_context { is_immediate = false; id = codes "ctx1" } in
    translate_context_def-again counter counter_driver counter_unary inference 5
      (translate_value counter_unary inference 5) 2 c c on_small (given definition)
      (state definition) refl refl refl refl refl refl

gen_llvm_mod-Grows_example :
    EndsIn built.next
      (session built)
      (λ u. Unit {0})
      (gen_llvm_mod counter_unary inference 30 12 (fresh_typer built) 0)
gen_llvm_mod-Grows_example =
    gen_llvm_mod-Grows counter counter_driver counter_unary inference 30 12 (fresh_typer built) 0
      no_types-IsInterned

get_llvm_type-primary_example :
    get_llvm_type counter counter_driver c_uint16 ≡ translate_primary counter uint16
get_llvm_type-primary_example = get_llvm_type-primary counter counter_driver uint16 c_uint16 refl

-- The constant at 1, with a sign at 0.
abbrev negated : World
negated = record {
  cell = λ p.
      if p == 0
      then some (functional_expr (unary_op uop_sub) (some 1 ∷ []))
      else if p == 1
      then some (constant (int8 (pos 1)))
      else none;
  next = 2;
  current = none;
}

translate_value-minus_example : ¬ (
    translate_value counter_unary inference 20 0 (session negated)
    ≡ made (some 8) (session negated))
translate_value-minus_example =
    translate_value-minus counter counter_driver counter_unary inference 20 0 (some 1 ∷ [])
      (session negated) (session negated) (some 8) refl

abbrev fault : Made counter counter_driver (Option ℕ) → Option Fault
fault (failed e u) = some e
fault _ = none

-- The run comes to the switch on the operator.
negated-fault :
    fault (translate_value counter_unary inference 20 0 (session negated)) ≡ some internal_bug
unfolding translate_value Infer.get_type
negated-fault = refl
