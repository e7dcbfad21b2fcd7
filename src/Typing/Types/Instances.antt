-- ===== src/Typing/Types/Instances.antt =====
-- The identifiers of the instances of a context: what they keep apart.
use mathlib.Core.List.{append_cancel_left, append_cancel_right}
use casterisk.Prelude.{
  ℕ, ◌≡◌, ◌≢◌, refl, sym, ap, ◌∙◌, Bool, true, false, ◌==◌, if◌then◌else◌, not, ◌&&◌, List, [], ◌∷◌,
  ◌++◌, Text, codes, All, append_assoc, append-nil, arith,
}
use casterisk.Typing.Types.{join_ids, serialize_instance}

-- An identifier that is not empty and has no comma in it.
abbrev pub IsPlainId : Text → Type 0
IsPlainId i = (i ≢ []) × All (λ c. c ≢ 44) i

-- The fields between commas, of which the first begins with `field`.
unfoldable fields : Text → Text → List Text
fields field [] = field ∷ []
fields field (c ∷ cs) =
    let rest = fields [] cs in
    let longer = fields (field ++ c ∷ []) cs in if c == 44 then field ∷ rest else longer

unfoldable split : Text → List Text
unfolding fields
split [] = []
split (c ∷ cs) = fields [] (c ∷ cs)

-- What follows the first identifier.
behind : List Text → Text
behind [] = []
behind (i ∷ is) = 44 ∷ (i ++ behind is)

not_comma : (c : ℕ) → c ≢ 44 → (c == 44) ≡ false
not_comma c h = ground arith

fields-append :
    (field i rest : Text)
    → All (λ c. c ≢ 44) i
    → fields field (i ++ rest) ≡ fields (field ++ i) rest
unfolding fields
fields-append field [] rest h = ap (λ f. fields f rest) (sym (append-nil field))
fields-append field (c ∷ cs) rest h =
    rw (not_comma c h.0, fields)
      (fields-append (field ++ c ∷ []) cs rest h.1
        ∙ ap (λ f. fields f rest) (append_assoc field (c ∷ []) cs))

fields-behind : (i : Text) (is : List Text) → All IsPlainId is → fields i (behind is) ≡ i ∷ is
unfolding fields behind
fields-behind i [] h = refl
fields-behind i (j ∷ is) h =
    ap (λ t. i ∷ t) (fields-append [] j (behind is) h.0.1 ∙ fields-behind j is h.1)

join_ids-behind :
    (c : ℕ) (cs : Text) (is : List Text) → join_ids (c ∷ cs) is ≡ (c ∷ cs) ++ behind is
unfolding behind
join_ids-behind c cs [] = sym (append-nil (c ∷ cs))
join_ids-behind c cs (i ∷ is) =
    join_ids-behind c (cs ++ codes "," ++ i) is
    ∙ ap (λ t. c ∷ t)
        (append_assoc (cs ++ codes ",") i (behind is)
          ∙ append_assoc cs (codes ",") (i ++ behind is))

split-join_ids : (is : List Text) → All IsPlainId is → split (join_ids [] is) ≡ is
unfolding split
split-join_ids [] h = refl
split-join_ids ([] ∷ is) h = absurd (h.0.0 refl)
split-join_ids ((c ∷ cs) ∷ is) h =
    ap split (join_ids-behind c cs is)
    ∙ fields-append [] (c ∷ cs) (behind is) h.0.1
    ∙ fields-behind (c ∷ cs) is h.1

-- A test for plain identifiers.
abbrev has_no_comma : Text → Bool
has_no_comma [] = true
has_no_comma (c ∷ cs) = not (c == 44) && has_no_comma cs

abbrev pub is_plain_id : Text → Bool
is_plain_id [] = false
is_plain_id (c ∷ cs) = has_no_comma (c ∷ cs)

has_no_comma-All : (i : Text) → has_no_comma i ≡ true → All (λ c. c ≢ 44) i
has_no_comma-All [] h = tt
has_no_comma-All (c ∷ cs) h = (ground arith, has_no_comma-All cs (ground arith))

pub is_plain_id-IsPlainId : (i : Text) → is_plain_id i ≡ true → IsPlainId i
is_plain_id-IsPlainId [] h = absurd (cc)
is_plain_id-IsPlainId (c ∷ cs) h = (λ e. cc, has_no_comma-All (c ∷ cs) h)

-- For a context, two lists of types with plain identifiers are serialized alike only when they have
-- the same identifiers, one by one.
pub serialize_instance-injective :
    (context_id : Text) (is js : List Text)
    → All IsPlainId is
    → All IsPlainId js
    → serialize_instance context_id is ≡ serialize_instance context_id js
    → is ≡ js
serialize_instance-injective context_id is js h k e =
    sym (split-join_ids is h)
    ∙ ap split (
        append_cancel_left (context_id ++ codes "(") (join_ids [] is) (join_ids [] js)
          (append_cancel_right _ _ (codes ")") e))
    ∙ split-join_ids js k
