-- ===== src/Syntax/Pegtl.antt =====
-- The rules of the parser library that src/catk/syntax/expr.hpp is written with, as data, and what the library
-- says of matching them. Matching itself is a parameter.
use casterisk.Prelude.{ℕ, ◌≡◌, ◌==◌, ◌||◌, Bool, false, if◌then◌else◌, List, [], ◌∷◌, Text}

-- The structures that are named before they are defined.
pub data Forward : Type 0 where
  expr lambda_literal : Forward

-- `seq` and `sor` of more than two rules are nested to the right.
pub data Peg : Type 0 where
  one not_one : List ℕ → Peg
  str keyword : Text → Peg
  any digit xdigit space eof identifier : Peg
  seq sor : Peg → Peg → Peg
  star plus opt must at : Peg → Peg
  list_of : (element separator : Peg) → Peg
  until : (end body : Peg) → Peg
  if_then_else : (test yes no : Peg) → Peg
  forward : Forward → Peg

-- `pad` of a rule with spaces, `list` with a padding, and `if_must`.
abbrev pub space_pad : Peg → Peg
space_pad r = seq (star space) (seq r (star space))

abbrev pub padded_list : Peg → Peg → Peg
padded_list r s = list_of r (space_pad s)

abbrev pub if_must : Peg → Peg → Peg
if_must r s = seq r (must s)

-- What matching a rule on a text ends in: the text that is left, a failure behind which another rule may be
-- tried, or an exception.
pub data Match : Type 0 where
  matched : (rest : Text) → Match
  failure : Match
  parse_error : Match

abbrev pub and_match : Match → (Text → Match) → Match
and_match (matched s) f = f s
and_match failure f = failure
and_match parse_error f = parse_error

abbrev pub or_match : Match → Match → Match
or_match failure n = n
or_match m n = m

abbrev pub no_failure : Match → Match
no_failure failure = parse_error
no_failure m = m

abbrev pub is_one_of : ℕ → List ℕ → Bool
is_one_of c [] = false
is_one_of c (d ∷ ds) = c == d || is_one_of c ds

abbrev pub match_one : List ℕ → Text → Match
match_one cs [] = failure
match_one cs (c ∷ s) = if is_one_of c cs then matched s else failure

abbrev pub match_str : Text → Text → Match
match_str [] s = matched s
match_str (t ∷ ts) [] = failure
match_str (t ∷ ts) (c ∷ s) = let rest = match_str ts s in if c == t then rest else failure

-- The characters of `std::isspace`.
abbrev pub spaces : List ℕ
spaces = 32 ∷ (10 ∷ (13 ∷ (9 ∷ (11 ∷ (12 ∷ [])))))

-- The library: what a rule does on a text, of which the named facts are documented.
pub record Pegtl : Type 0 where
  pub parse : Peg → Text → Match
  pub on_one : (cs : List ℕ) (s : Text) → parse (one cs) s ≡ match_one cs s
  pub on_str : (t s : Text) → parse (str t) s ≡ match_str t s
  pub on_space : (s : Text) → parse space s ≡ match_one spaces s
  pub on_seq : (a b : Peg) (s : Text) → parse (seq a b) s ≡ and_match (parse a s) (parse b)
  pub on_sor : (a b : Peg) (s : Text) → parse (sor a b) s ≡ or_match (parse a s) (parse b s)
  pub on_must : (a : Peg) (s : Text) → parse (must a) s ≡ no_failure (parse a s)
  pub on_star : (a : Peg) (s : Text) → parse a s ≡ failure → parse (star a) s ≡ matched s
