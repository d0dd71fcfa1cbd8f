-- ===== src/Dispatch/Quote.antt =====
-- `urllib.parse.quote(text, safe="")`: the bytes of the text in UTF-8, each a character that needs
-- no quoting or `%XX`.
use Prim.Native.String.{String, [], ◌∷◌}
use Prim.Native.Char.{Char, code}
use specmcp.Prelude.{
  ℕ, ◌+◌, ◌/◌, ◌%◌, ◌≡◌, refl, Bool, true, false, ◌&&◌, ◌||◌, eqb, leb, ltb, arith, if◌then◌else◌,
  Bool-cases, inl, inr,
}
use specmcp.Prelude.Digits.{digit, is_digit-digit}
use specmcp.Prelude.Text.{all_chars}

-- A letter, a digit or one of "_.-~".
abbrev pub is_unreserved : Char → Bool
is_unreserved c =
    let n = code c in
    (leb b'A' n && leb n b'Z')
    || ((leb b'a' n && leb n b'z')
        || ((leb b'0' n && leb n b'9')
            || (eqb n b'_' || (eqb n b'.' || (eqb n b'-' || eqb n b'~')))))

abbrev hex_letter : ℕ → Char
hex_letter n =
    if eqb n 10
    then "A"
    else if eqb n 11
    then "B"
    else if eqb n 12
    then "C"
    else if eqb n 13
    then "D"
    else if eqb n 14
    then "E"
    else "F"

abbrev hex_digit : ℕ → Char
hex_digit n = if ltb n 10 then digit n else hex_letter n

-- "%{:02X}".format(byte), before the rest
unfoldable pub quote_byte : ℕ → String → String
quote_byte byte rest = "%" ∷ (hex_digit (byte / 16) ∷ (hex_digit (byte % 16) ∷ rest))

-- The bytes of a character that is not unreserved.
unfoldable pub quote_code : ℕ → String → String
unfolding quote_byte
quote_code n rest =
    if ltb n 128
    then quote_byte n rest
    else if ltb n 2048
    then quote_byte (192 + n / 64) (quote_byte (128 + n % 64) rest)
    else if ltb n 65536
    then quote_byte (224 + n / 4096)
        (quote_byte (128 + n / 64 % 64) (quote_byte (128 + n % 64) rest))
    else quote_byte (240 + n / 262144) (
        quote_byte (128 + n / 4096 % 64)
          (quote_byte (128 + n / 64 % 64) (quote_byte (128 + n % 64) rest)))

unfoldable pub quote : String → String
unfolding quote_code
quote [] = []
quote (c ∷ s) = let rest = quote s in if is_unreserved c then c ∷ rest else quote_code (code c) rest

-- urllib.parse.quote_plus: a space is `+`.
unfoldable pub quote_plus : String → String
unfolding quote_code
quote_plus [] = []
quote_plus (c ∷ s) =
    let rest = quote_plus s in
    if eqb (code c) 32
    then "+" ∷ rest
    else if is_unreserved c
    then c ∷ rest
    else quote_code (code c) rest

-- A character that a quoted text may have.
abbrev pub is_quoted : Char → Bool
is_quoted c = is_unreserved c || eqb (code c) b'%'

quoted_if :
    (b : Bool) (c d : Char)
    → is_quoted c ≡ true
    → is_quoted d ≡ true
    → is_quoted (if b then c else d) ≡ true
quoted_if true c d h k = h
quoted_if false c d h k = k

is_quoted-digit : (n : ℕ) → is_quoted (digit n) ≡ true
is_quoted-digit n = ground (arith, is_digit-digit n)

is_quoted-hex_digit : (n : ℕ) → is_quoted (hex_digit n) ≡ true
is_quoted-hex_digit n = quoted_if (ltb n 10) (digit n) (hex_letter n) (is_quoted-digit n) (
    quoted_if (eqb n 10) "A" _ refl (
      quoted_if (eqb n 11) "B" _ refl (
        quoted_if (eqb n 12) "C" _ refl
          (quoted_if (eqb n 13) "D" _ refl (quoted_if (eqb n 14) "E" "F" refl refl)))))

quoted-byte :
    (n : ℕ) (s : String)
    → all_chars is_quoted s ≡ true
    → all_chars is_quoted (quote_byte n s) ≡ true
unfolding quote_byte
quoted-byte n s h = rw (is_quoted-hex_digit (n / 16), is_quoted-hex_digit (n % 16), h) refl

quoted-code :
    (n : ℕ) (s : String)
    → all_chars is_quoted s ≡ true
    → all_chars is_quoted (quote_code n s) ≡ true
unfolding quote_code
quoted-code n s h =
    let last = quote_byte (128 + n % 64) s in
    let last_safe = quoted-byte (128 + n % 64) s h in
    let middle = quote_byte (128 + n / 64 % 64) last in
    let middle_safe = quoted-byte (128 + n / 64 % 64) last last_safe in
    let early = quote_byte (128 + n / 4096 % 64) middle in
    let early_safe = quoted-byte (128 + n / 4096 % 64) middle middle_safe in
    elim (Bool-cases (ltb n 128)) [
      | inl one ↦ rw (one, quote_code) (quoted-byte n s h)
      | inr more ↦
          rw (more, quote_code)
            (elim (Bool-cases (ltb n 2048)) [
              | inl two ↦ rw two (quoted-byte (192 + n / 64) last last_safe)
              | inr further ↦ rw further (elim (Bool-cases (ltb n 65536)) [
                | inl three ↦ rw three (quoted-byte (224 + n / 4096) middle middle_safe)
                | inr four ↦ rw four (quoted-byte (240 + n / 262144) early early_safe)
              ])
            ])
    ]

-- A quoted text has no other characters.
pub all_quoted : (s : String) → all_chars is_quoted (quote s) ≡ true
unfolding quote
all_quoted [] = refl
all_quoted (c ∷ s) = elim (Bool-cases (is_unreserved c)) [
  | inl plain ↦ rw plain (rw plain (all_quoted s))
  | inr other ↦ rw other (quoted-code (code c) (quote s) (all_quoted s))
]
