-- ===== src/Typing/Types.antt =====
-- src/catk/type/type.hpp: the types of expressions, and the texts that identify them.
pub mod Intern
pub mod Instances
use casterisk.Prelude.{
  ℕ, Bool, true, false, List, [], ◌∷◌, ◌++◌, Option, none, some, Text, codes, decimal,
}
use casterisk.Outcome.{Outcome, ok, raised, rt_assert, bad_variant_access, ◌>>=◌, ◌>>◌}
use casterisk.Semantics.PrimaryType as PrimaryType
use casterisk.Semantics.PrimaryType.{PrimaryType, ordinal, pt_end}
use casterisk.Semantics.Graph.{Ptr}

-- A `Type*`: the object that `get_undecided` holds, or one of the store of types.
pub data TypePtr : Type 0 where
  undecided : TypePtr
  stored : ℕ → TypePtr

-- `Type::Content`
pub data Content : Type 0 where
  struct_type : (name : Text) (members : List TypePtr) → Content
  primary : PrimaryType → Content
  pointer_elem : TypePtr → Content
  lazy_context : Ptr → Content

pub record CatkType : Type 0 where
  pub is_mutable : Bool
  pub is_undecided : Bool
  pub id : Text
  pub content : Content

-- The object that `get_undecided` holds.
abbrev pub undecided_type : CatkType
undecided_type = record {
  is_mutable = false;
  is_undecided = true;
  id = codes "(undecided)";
  content = primary pt_end;
}

abbrev pub is_pointer : CatkType → Bool
is_pointer t = elim t.content [ pointer_elem p ↦ true | _ ↦ false ]

abbrev pub is_primary : CatkType → Bool
is_primary t = elim t.content [ primary p ↦ true | _ ↦ false ]

abbrev pub is_struct : CatkType → Bool
is_struct t = elim t.content [ struct_type name members ↦ true | _ ↦ false ]

abbrev pub is_lazy_context : CatkType → Bool
is_lazy_context t = elim t.content [ lazy_context c ↦ true | _ ↦ false ]

-- `as_primary`, a `std::get`.
abbrev pub as_primary : CatkType → Outcome PrimaryType
as_primary t = elim t.content [ primary p ↦ ok p | _ ↦ raised bad_variant_access ]

-- `is_unsigned_int`, `is_int`, `is_signed_int` and `is_float` of a type: a test on its primary type.
abbrev pub primary_test : (PrimaryType → Bool) → CatkType → Outcome Bool
primary_test test t = do rt_assert (is_primary t); v ← as_primary t; ok (test v)

abbrev pub is_unsigned_int : CatkType → Outcome Bool
is_unsigned_int t = primary_test PrimaryType.is_unsigned_int t

abbrev pub is_int : CatkType → Outcome Bool
is_int t = primary_test PrimaryType.is_int t

abbrev pub is_signed_int : CatkType → Outcome Bool
is_signed_int t = primary_test PrimaryType.is_signed_int t

abbrev pub is_float : CatkType → Outcome Bool
is_float t = primary_test PrimaryType.is_float t

abbrev pub get_pointer_elem_ty : CatkType → Outcome TypePtr
get_pointer_elem_ty t = do
  rt_assert (is_pointer t)
  elim t.content [ pointer_elem p ↦ ok p | _ ↦ raised bad_variant_access ]

abbrev pub get_lazy_context : CatkType → Outcome Ptr
get_lazy_context t = do
  rt_assert (is_lazy_context t)
  elim t.content [ lazy_context c ↦ ok c | _ ↦ raised bad_variant_access ]

-- `print_address` writes the address of a type, as the formatting library does; `context_id` is
-- `get_id` of a context.
abbrev pub serialize_type_id :
    (print_address : TypePtr → Text) (context_id : Ptr → Outcome Text) → Content → Outcome Text
serialize_type_id print_address context_id (struct_type name members) = ok name
serialize_type_id print_address context_id (primary pt) = ok (decimal (ordinal pt) ++ codes "_pmt")
serialize_type_id print_address context_id (pointer_elem t) = ok (print_address t ++ codes "_ptr")
serialize_type_id print_address context_id (lazy_context c) = context_id c

-- The identifiers of the operands' types, with commas between them; `param_tys` is what has been
-- written.
abbrev pub join_ids : Text → List Text → Text
join_ids param_tys [] = param_tys
join_ids [] (i ∷ is) = join_ids i is
join_ids (c ∷ cs) (i ∷ is) = join_ids ((c ∷ cs) ++ codes "," ++ i) is

-- A context with the types of its operands.
abbrev pub serialize_instance : (context_id : Text) → List Text → Text
serialize_instance context_id tys = context_id ++ codes "(" ++ join_ids [] tys ++ codes ")"
