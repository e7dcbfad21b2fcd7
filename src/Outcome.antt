-- ===== src/Outcome.antt =====
-- src/catk/utils.{hpp,cpp} and src/catk/error/rule_violation.hpp: how a function of the compiler
-- fails. A C++ exception is a value here; its message is left out.
pub mod Yields
use casterisk.Prelude.{Bool, Option, none, some, if◌then◌else◌}

-- `internal_bug` is `InternalBug`, what `rt_assert` throws; `rule_violation` is `RuleViolation`;
-- `out_of_range` and `bad_cast` are what `at` and a conversion of the libraries throw;
-- `bad_variant_access` is what `std::get` throws, and `bad_typeid` what `typeid` throws of an object
-- behind a null pointer. `assert_failed` is an `assert` that does not hold,
-- and `undefined` is a step that C++ gives no meaning, such as reading through a null pointer.
pub data Fault : Type 0 where
  internal_bug rule_violation out_of_range bad_cast bad_variant_access : Fault
  bad_typeid assert_failed undefined : Fault

pub data Outcome {ℓ} (A : Type ℓ) : Type ℓ where
  ok : A → Outcome A
  raised : Fault → Outcome A

infixl 5 ◌>>=◌ ◌>>◌
abbrev pub ◌>>=◌ {ℓ κ} : {A : Type ℓ} {B : Type κ} → Outcome A → (A → Outcome B) → Outcome B
ok a >>= f = f a
raised e >>= f = raised e

abbrev pub ◌>>◌ {ℓ} : {B : Type ℓ} → Outcome (Unit {0}) → Outcome B → Outcome B
m >> k = m >>= λ _. k

-- `rt_assert_internal`, of the condition alone.
abbrev pub rt_assert : Bool → Outcome (Unit {0})
rt_assert b = if b then ok tt else raised internal_bug

-- `assert`
abbrev pub assert : Bool → Outcome (Unit {0})
assert b = if b then ok tt else raised assert_failed

-- `at` of a container: the element, or `std::out_of_range`.
abbrev pub at {ℓ} : {A : Type ℓ} → Option A → Outcome A
at none = raised out_of_range
at (some a) = ok a

-- `[]` and `back` of a container, and `*p`: nothing is checked.
abbrev pub unchecked {ℓ} : {A : Type ℓ} → Option A → Outcome A
unchecked none = raised undefined
unchecked (some a) = ok a
