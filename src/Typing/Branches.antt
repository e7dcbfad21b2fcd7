-- ===== src/Typing/Branches.antt =====
-- src/catk/type.cpp: the type of an if-else, of the types of its branches.
use casterisk.Prelude.{
  ℕ, subst, arith, ◌≡◌, ◌↔◌, refl, sym, ap, [], ◌∷◌, Bool-cases, inl, inr, ◌==◌, ==_iff,
}
use casterisk.Outcome.{Outcome, ok, raised, rule_violation}
use casterisk.Typing.Types.{TypePtr, undecided, stored}
use casterisk.Typing.Typer.{Typer, Typed, gives, refuses, ◌>>=◌, lift, pure, throw}
use casterisk.Typing.Operands.{join_branches, type_of_if_else}

-- The undecided type lies below every type, and no two others are comparable.
pub data Below : TypePtr → TypePtr → Type 0 where
  below_all : {t : TypePtr} → Below undecided t
  below_same : {t : TypePtr} → Below t t

-- The least type above both.
pub record IsJoin (t1 t2 t : TypePtr) : Type 0 where
  pub left : Below t1 t
  pub right : Below t2 t
  pub least : (u : TypePtr) → Below t1 u → Below t2 u → Below t u

Below-antisym : {s t : TypePtr} → Below s t → Below t s → s ≡ t
Below-antisym below_all below_all = refl
Below-antisym below_all below_same = refl
Below-antisym below_same h = refl

IsJoin-unique : {t1 t2 s t : TypePtr} → IsJoin t1 t2 s → IsJoin t1 t2 t → s ≡ t
IsJoin-unique g h = Below-antisym (g.least _ h.left h.right) (h.least _ g.left g.right)

-- The join, or the error where there is none.
data Joined (t1 t2 : TypePtr) : Outcome TypePtr → Type 0 where
  joined : {t : TypePtr} → IsJoin t1 t2 t → Joined t1 t2 (ok t)
  apart : ((t : TypePtr) → ¬ IsJoin t1 t2 t) → Joined t1 t2 (raised rule_violation)

Below-equal : {s t : TypePtr} → s ≡ t → Below s t
Below-equal {s} {t} e = rw (sym e) below_same

Below-stored : (p q : ℕ) (t : TypePtr) → Below (stored p) t → Below (stored q) t → p ≡ q
Below-stored p q t below_same below_same = refl

join_branches-Joined : (t1 t2 : TypePtr) → Joined t1 t2 (join_branches t1 t2)
join_branches-Joined undecided undecided =
    joined (record { left = below_all; right = below_all; least = λ u g h. below_all })
join_branches-Joined undecided (stored q) =
    joined (record { left = below_all; right = below_same; least = λ u g h. h })
join_branches-Joined (stored p) undecided =
    joined (record { left = below_same; right = below_all; least = λ u g h. g })
join_branches-Joined (stored p) (stored q) = elim (Bool-cases (p == q)) [
  | inl e ↦
      let same : p ≡ q = (==_iff p q).0 e in
      rw e (
        joined (record {
          left = below_same;
          right = Below-equal (ap stored (sym same));
          least = λ u g h. g;
        }))
  | inr e ↦ rw e (apart λ t j. absurd (ground (arith, Below-stored p q t j.left j.right)))
]

abbrev Ends : TypePtr → TypePtr → Typer → Typed TypePtr → Type 0
Ends t1 t2 s r =
    ((t : TypePtr) → (r ≡ gives t s) ↔ IsJoin t1 t2 t)
    × ((r ≡ refuses rule_violation s) ↔ ((t : TypePtr) → ¬ IsJoin t1 t2 t))

lift-Ends :
    (t1 t2 : TypePtr) (o : Outcome TypePtr) (s : Typer) → Joined t1 t2 o → Ends t1 t2 s (lift o s)
unfolding lift pure throw
lift-Ends t1 t2 (ok u) s (joined j) = (
  λ t. (
    λ e. let same : u ≡ t = cc in subst (λ x. IsJoin t1 t2 x) same j,
    λ k. ap (λ v. gives v s) (IsJoin-unique j k),
  ),
  (λ e. absurd cc, λ n. absurd (n u j)),
)
lift-Ends t1 t2 (raised e) s (apart n) =
    (λ t. (λ e. absurd cc, λ k. absurd (n t k)), (λ e. n, λ m. refl))

-- Inference gives an if-else the type t exactly when t is the least type above the types of its branches,
-- where the undecided type lies below all and no others are comparable, and ends in a rule violation exactly
-- when there is no such type; it changes nothing.
pub type_of_if_else-IsJoin :
    (c t1 t2 : TypePtr) (s : Typer)
    → ((t : TypePtr) → (type_of_if_else (c ∷ (t1 ∷ (t2 ∷ []))) s ≡ gives t s) ↔ IsJoin t1 t2 t)
      × ((type_of_if_else (c ∷ (t1 ∷ (t2 ∷ []))) s ≡ refuses rule_violation s)
          ↔ ((t : TypePtr) → ¬ IsJoin t1 t2 t))
unfolding type_of_if_else ◌>>=◌ lift pure
type_of_if_else-IsJoin c t1 t2 s =
    lift-Ends t1 t2 (join_branches t1 t2) s (join_branches-Joined t1 t2)
