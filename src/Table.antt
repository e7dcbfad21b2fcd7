-- ===== src/Table.antt =====
-- The `std::unordered_map`s of the program whose keys are texts, as association lists: a later entry
-- for a key stands in place of the earlier one.
use casterisk.Prelude.{
  ◌≡◌, refl, ap, Bool, true, false, List, [], ◌∷◌, Option, none, some, Text, text_eq, text_eq_iff,
  if◌then◌else◌, arith, All, Bool-cases, inl, inr, subst,
}

module _ {ℓ} {V : Type ℓ} where
  -- `find`
  unfoldable pub find : Text → List (Text × V) → Option V
  find k [] = none
  find k ((j, v) ∷ m) = if text_eq j k then some v else find k m

  -- `m[k] = v`
  unfoldable pub insert : Text → V → List (Text × V) → List (Text × V)
  insert k v [] = (k, v) ∷ []
  insert k v ((j, w) ∷ m) = if text_eq j k then (k, v) ∷ m else (j, w) ∷ insert k v m

  pub find-insert :
      (k j : Text) (v : V) (m : List (Text × V))
      → find j (insert k v m) ≡ (if text_eq k j then some v else find j m)
  unfolding find insert
  find-insert k j v [] = refl
  find-insert k j v ((i, w) ∷ m) =
      ground (arith, text_eq_iff k j, text_eq_iff i k, text_eq_iff i j, find-insert k j v m)

module _ {ℓ κ} {V : Type ℓ} (P : V → Type κ) where
  abbrev value : V → Option V → V
  value w none = w
  value w (some v) = v

  -- What all values have, a value that is found has, and an insertion of such a value keeps it.
  pub find-All :
      (k : Text) (m : List (Text × V)) {v : V} → All (λ e. P e.1) m → find k m ≡ some v → P v
  unfolding find
  find-All k [] h e = absurd (cc)
  find-All k ((j, w) ∷ m) h e = elim (Bool-cases (text_eq j k)) [
    | inl t ↦ subst P (ap (value w) (found w (find k m) t e)) h.0
    | inr f ↦ find-All k m h.1 (missed w (find k m) f e)
  ]
    where
      found :
          {b : Bool} {v : V} (w : V) (o : Option V)
          → b ≡ true
          → (if b then some w else o) ≡ some v
          → some w ≡ some v
      found w o t e = ground arith

      missed :
          {b : Bool} {v : V} (w : V) (o : Option V)
          → b ≡ false
          → (if b then some w else o) ≡ some v
          → o ≡ some v
      missed w o f e = ground arith

  pub insert-All :
      (k : Text) (v : V) (m : List (Text × V))
      → P v
      → All (λ e. P e.1) m
      → All (λ e. P e.1) (insert k v m)
  unfolding insert
  insert-All k v [] p h = (p, tt)
  insert-All k v ((j, w) ∷ m) p h = elim (Bool-cases (text_eq j k)) [
    | inl t ↦ rw (t, insert) (p, h.1)
    | inr f ↦ rw (f, insert) (h.0, insert-All k v m p h.1)
  ]
