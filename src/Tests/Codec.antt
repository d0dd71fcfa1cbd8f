-- ===== src/Tests/Codec.antt =====
-- Stand-ins for what the OAuth endpoints call: texts as their code points, bytes as texts of letters,
-- and a clock's numbers in unary.
use Prim.Native.Char.{Char, char, code, IsLt, IsScalar}
use Prim.Native.Nat.{compare, Ordering}
use specmcp.Prelude.{
  ℕ, zero, suc, String, ◌≡◌, refl, ap, ◌∙◌, Option, none, some, [], ◌∷◌, eqb, if◌then◌else◌, arith,
  ◌+◌,
}
use specmcp.Json.{Json, num}
use specmcp.Auth.State.{Bytes}
use specmcp.Auth.Tokens.{Parsed, value, bad_value, bad_type, Python}

abbrev pub Both : Ordering → Ordering → Type 0
Both Ordering.lt o = IsLt o
Both o p = ⊥

abbrev pub Scalar : Ordering → Ordering → Ordering → Type 0
Scalar Ordering.lt o p = Unit
Scalar Ordering.eq o p = Both o p
Scalar Ordering.gt o p = Both o p

abbrev pub lt_of : (o : Ordering) → Option (IsLt o)
lt_of Ordering.lt = some tt
lt_of Ordering.eq = none
lt_of Ordering.gt = none

abbrev pub both_of : (o p : Ordering) → Option (Both o p)
both_of Ordering.lt p = lt_of p
both_of Ordering.eq p = none
both_of Ordering.gt p = none

abbrev pub scalar_of : (o p q : Ordering) → Option (Scalar o p q)
scalar_of Ordering.lt p q = some tt
scalar_of Ordering.eq p q = both_of p q
scalar_of Ordering.gt p q = both_of p q

lt_of_lem : (o : Ordering) (h : IsLt o) → lt_of o ≡ some h
lt_of_lem Ordering.lt h = refl
lt_of_lem Ordering.eq h = elim h [ ]
lt_of_lem Ordering.gt h = elim h [ ]

both_of_lem : (o p : Ordering) (h : Both o p) → both_of o p ≡ some h
both_of_lem Ordering.lt p h = lt_of_lem p h
both_of_lem Ordering.eq p h = elim h [ ]
both_of_lem Ordering.gt p h = elim h [ ]

scalar_of_lem : (o p q : Ordering) (h : Scalar o p q) → scalar_of o p q ≡ some h
scalar_of_lem Ordering.lt p q h = refl
scalar_of_lem Ordering.eq p q h = both_of_lem p q h
scalar_of_lem Ordering.gt p q h = both_of_lem p q h

abbrev pub as_char : (n : ℕ) → Option (IsScalar n) → Option Char
as_char n none = none
as_char n (some h) = some (char n h)

abbrev pub to_char : ℕ → Option Char
to_char n = as_char n (scalar_of (compare n 55296) (compare 57343 n) (compare n 1114112))

pub to_char-code : (c : Char) → to_char (code c) ≡ some c
to_char-code (char n h) =
    ap (as_char n) (scalar_of_lem (compare n 55296) (compare 57343 n) (compare n 1114112) h)

abbrev pub codes : String → Bytes
codes String.[] = []
codes (String.◌∷◌ c s) = code c ∷ codes s

abbrev pub put_char : Option Char → Option String → Option String
put_char (some c) (some s) = some (String.◌∷◌ c s)
put_char c s = none

abbrev pub from_codes : Bytes → Option String
from_codes [] = some String.[]
from_codes (n ∷ bs) = put_char (to_char n) (from_codes bs)

pub from_codes-codes : (s : String) → from_codes (codes s) ≡ some s
from_codes-codes String.[] = refl
from_codes-codes (String.◌∷◌ c s) = rw (to_char-code c, from_codes-codes s) refl

-- n times the letter a, and then b
abbrev pub letters : ℕ → String → String
letters zero s = String.◌∷◌ "b" s
letters (suc n) s = String.◌∷◌ "a" (letters n s)

abbrev pub to_letters : Bytes → String
to_letters [] = String.[]
to_letters (n ∷ bs) = letters n (to_letters bs)

abbrev pub put_byte : ℕ → Option Bytes → Option Bytes
put_byte n (some bs) = some (n ∷ bs)
put_byte n none = none

abbrev pub from_letters : ℕ → String → Option Bytes
from_letters n String.[] = some []
from_letters n (String.◌∷◌ c s) =
    let more = from_letters (suc n) s in
    let end = put_byte n (from_letters 0 s) in if eqb (code c) b'a' then more else end

from_letters-letters :
    (m n : ℕ) (s : String) → from_letters m (letters n s) ≡ put_byte (m + n) (from_letters 0 s)
from_letters-letters m zero s = ap (λ (n : ℕ). put_byte n (from_letters 0 s)) (omega arith)
from_letters-letters m (suc n) s =
    from_letters-letters (suc m) n s ∙ ap (λ (k : ℕ). put_byte k (from_letters 0 s)) (omega arith)

pub from_letters-to_letters : (bs : Bytes) → from_letters 0 (to_letters bs) ≡ some bs
from_letters-to_letters [] = refl
from_letters-to_letters (n ∷ bs) =
    from_letters-letters 0 n (to_letters bs)
    ∙ ap (λ (k : ℕ). put_byte k (from_letters 0 (to_letters bs))) {y = n} (omega arith)
    ∙ rw (from_letters-to_letters bs) refl

abbrev pub read_letters : String → Option Bytes
read_letters = from_letters 0

abbrev pub one_number : Option Bytes → Parsed ℕ
one_number (some (n ∷ [])) = value n
one_number o = bad_value

abbrev pub unary : Json → Parsed ℕ
unary (num s) = one_number (from_letters 0 s)
unary v = bad_type

pub unary_lem : (t : ℕ) → unary (num (to_letters (t ∷ []))) ≡ value t
unary_lem t = ap one_number (from_letters-to_letters (t ∷ []))

abbrev pub python : Python
python = record {
  float = unary;
  print = λ t. to_letters (t ∷ []);
  nested_text = λ v. "";
  float_print = unary_lem;
}
