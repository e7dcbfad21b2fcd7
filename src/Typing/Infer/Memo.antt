-- ===== src/Typing/Infer/Memo.antt =====
-- What `get_type` remembers.
use casterisk.Prelude.{subst, ℕ, zero, suc, ◌≡◌, refl, Option, none, some, Text, ==_refl}
use casterisk.Typing.Types.{TypePtr, undecided, stored}
use casterisk.Semantics.Graph.{Ptr}
use casterisk.Typing.Typer.{
  next_of, Typer, Typed, gives, refuses, starves, T, ◌>>=◌, ◌>>◌, pure, typed_as, set_type,
}
use casterisk.Typing.Infer.{visit_at, keep_type, get_or_visit, get_type}

-- A type that is given is the one that `expr_type` then has for the expression; nothing is asked of
-- another end.
abbrev Remembered : Ptr → Typed TypePtr → Type 0
Remembered p (gives undecided u) = Unit {0}
Remembered p (gives (stored t) u) = u.expr_type p ≡ some (stored t)
Remembered p (refuses e u) = Unit {0}
Remembered p starves = Unit {0}

keep_type-Remembered : (p : Ptr) (t : TypePtr) (s : Typer) → Remembered p (keep_type p t s)
unfolding keep_type set_type ◌>>◌ pure
keep_type-Remembered p undecided s = tt
keep_type-Remembered p (stored t) s = rw (==_refl p) refl

next-Remembered : (p : Ptr) (r : Typed TypePtr) → Remembered p (next_of r (keep_type p))
next-Remembered p (gives t u) = keep_type-Remembered p t u
next-Remembered p (refuses e u) = tt
next-Remembered p starves = tt

known : (p : Ptr) (s : Typer) (t : TypePtr) → s.expr_type p ≡ some t → Remembered p (gives t s)
known p s undecided e = tt
known p s (stored t) e = e

get_or_visit-Remembered :
    (p : Ptr) (visit : T TypePtr) (s : Typer) (t : Option TypePtr)
    → s.expr_type p ≡ t
    → Remembered p (get_or_visit p visit t s)
unfolding get_or_visit ◌>>=◌ ◌>>◌ pure set_type
get_or_visit-Remembered p visit s (some t) e = known p s t e
get_or_visit-Remembered p visit s none e = next-Remembered p (visit _)

get_type-Remembered :
    (print_address : TypePtr → Text) (clone_fuel fuel : ℕ) (p : Ptr) (s : Typer)
    → Remembered p (get_type print_address clone_fuel fuel p s)
unfolding get_type ◌>>=◌ typed_as
get_type-Remembered print_address clone_fuel zero p s = tt
get_type-Remembered print_address clone_fuel (suc fuel) p s =
    get_or_visit-Remembered p
      (visit_at print_address clone_fuel (get_type print_address clone_fuel fuel) p) s
      (s.expr_type p) refl

get_type-known :
    (print_address : TypePtr → Text) (clone_fuel fuel : ℕ) (p : Ptr) (s : Typer) (t : TypePtr)
    → s.expr_type p ≡ some t
    → get_type print_address clone_fuel (suc fuel) p s ≡ gives t s
unfolding get_type ◌>>=◌ typed_as get_or_visit pure
get_type-known print_address clone_fuel fuel p s t e =
    rw (get_type, ◌>>=◌, typed_as, e, get_or_visit, pure) refl

-- Once `get_type` has given a type of the store for an expression, it gives this type again at once,
-- whatever the fuel, and changes nothing.
pub get_type-again :
    (print_address : TypePtr → Text) (clone_fuel fuel later : ℕ) (p : Ptr) (s u : Typer) (t : ℕ)
    → get_type print_address clone_fuel fuel p s ≡ gives (stored t) u
    → get_type print_address clone_fuel (suc later) p u ≡ gives (stored t) u
get_type-again print_address clone_fuel fuel later p s u t e =
    get_type-known print_address clone_fuel later p u (stored t)
      (subst (λ r. Remembered p r) e (get_type-Remembered print_address clone_fuel fuel p s))
