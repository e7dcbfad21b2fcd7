-- ===== src/Typing/Types/Intern.antt =====
-- src/catk/type/context.hpp: the table of types. A type is made once for an identifier.
use casterisk.Prelude.{
  ℕ, suc, ◌<◌, ◌≡◌, ◌↔◌, ◌⊎◌, refl, sym, ◌∙◌, ap, subst, false, ◌==◌, ==_refl, List, Option, none,
  some, Text, text_eq, text_eq_refl, text_eq_iff, text_eq→eq, Bool-cases, if◌then◌else◌, arith,
  Option-cases, inl, inr,
}
use casterisk.Table.{find, insert, find-insert}
use casterisk.Typing.Types.{TypePtr, stored, Content, CatkType}

-- The store of types, and the map `internal_`.
pub record TypeTable : Type 0 where
  pub types : ℕ → Option CatkType
  pub next : ℕ
  pub internal : List (Text × ℕ)

-- `DB::alloc<Type>`
abbrev pub alloc_type : CatkType → TypeTable → TypeTable
alloc_type t s = record s {
  types = λ p. if p == s.next then some t else s.types p;
  next = suc s.next;
}

-- `getType`, with the identifier that is read from the content.
unfoldable pub get_type : Text → Content → TypeTable → TypePtr × TypeTable
unfolding find insert
get_type id content s = elim (find id s.internal) [
  | some p ↦ (stored p, s)
  | none ↦ (
    stored s.next,
    record (alloc_type
        (record { is_mutable = false; is_undecided = false; id = id; content = content }) s) {
          internal = insert id s.next s.internal;
        },
  )
]

-- Every entry of the map leads to a type of the store that has the key of the entry for its
-- identifier.
pub record IsInterned (s : TypeTable) : Type 0 where
  pub below : (id : Text) (p : ℕ) → find id s.internal ≡ some p → p < s.next
  pub named :
      (id : Text) (p : ℕ)
      → find id s.internal ≡ some p
      → (t : CatkType) × (s.types p ≡ some t) × (t.id ≡ id)

-- The table once `get_type` has made a type for `id`.
module _ (id : Text) (content : Content) (s : TypeTable) (w : IsInterned s) where
  abbrev made : TypeTable
  made =
      record (alloc_type
        (record { is_mutable = false; is_undecided = false; id = id; content = content }) s) {
          internal = insert id s.next s.internal;
        }

  made-find :
      (j : Text) → find j made.internal ≡ (if text_eq id j then some s.next else find j s.internal)
  made-find j = find-insert id j s.next s.internal

  made-below : (j : Text) (p : ℕ) → find j made.internal ≡ some p → p < suc s.next
  made-below j p h = ground (arith, made-find j, w.below j p)

  -- An entry of the new map is the new one, or one of the map before.
  made-entry :
      (j : Text) (p : ℕ)
      → find j made.internal ≡ some p
      → ((j ≡ id) × (p ≡ s.next)) ⊎ (find j s.internal ≡ some p)
  made-entry j p h = ground (arith, made-find j, text_eq_iff id j)

  made-same :
      made.types s.next
      ≡ some (record { is_mutable = false; is_undecided = false; id = id; content = content })
  made-same = rw (==_refl s.next) refl

  -- The types of the store stay.
  made-types : (p : ℕ) → p < s.next → made.types p ≡ s.types p
  made-types p h = ground arith

  made-named :
      (j : Text) (p : ℕ)
      → find j made.internal ≡ some p
      → (t : CatkType) × (made.types p ≡ some t) × (t.id ≡ j)
  made-named j p h = elim (made-entry j p h) [
    | inl (e, f) ↦ (_, ap (λ q. made.types q) f ∙ made-same, sym e)
    | inr g ↦ let n = w.named j p g in (n.0, made-types p (w.below j p g) ∙ n.1, n.2)
  ]

  made-IsInterned : IsInterned made
  made-IsInterned = record { below = made-below; named = made-named }

-- `getType` keeps the table in order, and adds to the store at most.
pub get_type-IsInterned :
    (id : Text) (content : Content) (s : TypeTable)
    → IsInterned s
    → IsInterned (get_type id content s).1
unfolding get_type
get_type-IsInterned id content s w = elim (Option-cases (find id s.internal)) [
  | inl e ↦ rw (e, get_type) (made-IsInterned id content s w)
  | inr (p, e) ↦ rw (e, get_type) w
]

-- The table, once `getType` has given a type for `id`, has the entry of it.
get_type-find :
    (id : Text) (content : Content) (s : TypeTable)
    → (p : ℕ) × ((get_type id content s).0 ≡ stored p)
      × (find id (get_type id content s).1.internal ≡ some p)
unfolding get_type
get_type-find id content s = elim (Option-cases (find id s.internal)) [
  | inl e ↦
      rw (e, get_type)
        (s.next, refl, find-insert id id s.next s.internal ∙ rw (text_eq_refl id) refl)
  | inr (p, e) ↦ rw (e, get_type) (p, refl, e)
]

one-id :
    {o : Option CatkType} {t u : CatkType} {i j : Text}
    → o ≡ some t
    → t.id ≡ i
    → o ≡ some u
    → u.id ≡ j
    → i ≡ j
one-id e f g h = cc

-- A table in order gives two identifiers one type only when they are one.
IsInterned-injective :
    (s : TypeTable)
    → IsInterned s
    → (i j : Text) (p : ℕ) → find i s.internal ≡ some p
    → find j s.internal ≡ some p
    → i ≡ j
IsInterned-injective s w i j p h k =
    let a = w.named i p h in let b = w.named j p k in one-id a.1 a.2 b.1 b.2

get_type-again :
    (id : Text) (content : Content) (s : TypeTable) (p : ℕ)
    → find id s.internal ≡ some p
    → get_type id content s ≡ (stored p, s)
unfolding get_type
get_type-again id content s p e = rw (e, get_type) refl

found-before :
    (i j : Text) (p : ℕ) (s : TypeTable)
    → find j s.internal ≡ none
    → find i s.internal ≡ some p
    → find i (insert j s.next s.internal) ≡ some p
found-before i j p s e h = elim (Bool-cases (text_eq j i)) [
  | inl t ↦ absurd (absent-present (text_eq→eq j i t) e h)
  | inr f ↦ find-insert j i s.next s.internal ∙ rw (f) h
]
  where
    absent-present : j ≡ i → find j s.internal ≡ none → find i s.internal ≡ some p → ⊥
    absent-present q e h = cc

-- An entry of the map stays.
get_type-keeps :
    (j : Text) (content : Content) (s : TypeTable) (i : Text) (p : ℕ)
    → find i s.internal ≡ some p
    → find i (get_type j content s).1.internal ≡ some p
unfolding get_type
get_type-keeps j content s i p h = elim (Option-cases (find j s.internal)) [
  | inl e ↦ rw (e, get_type) (found-before i j p s e h)
  | inr (q, e) ↦ rw (e, get_type) h
]

stored-injective : {p q : ℕ} → stored p ≡ stored q → p ≡ q
stored-injective e = cc

-- In a table of types that is in order, `getType` called twice gives one type exactly when the two
-- identifiers are one text.
pub get_type_same_iff :
    (i j : Text) (c d : Content) (s : TypeTable)
    → IsInterned s
    → let first = get_type i c s in (first.0 ≡ (get_type j d first.1).0) ↔ (i ≡ j)
get_type_same_iff i j c d s w =
    let first = get_type i c s in
    let a = get_type-find i c s in
    let b = get_type-find j d first.1 in
    let k = get_type-keeps j d first.1 i a.0 a.2 in
    (
      λ e.
          IsInterned-injective (get_type j d first.1).1
            (get_type-IsInterned j d first.1 (get_type-IsInterned i c s w)) i j b.0
            (subst (λ p. find i (get_type j d first.1).1.internal ≡ some p)
              (stored-injective (sym a.1 ∙ e ∙ b.1)) k)
            b.2,
      λ e.
          a.1
          ∙ sym (
              ap (λ r. r.0)
                (get_type-again j d first.1 a.0
                  (subst (λ t. find t first.1.internal ≡ some a.0) e a.2))),
    )
