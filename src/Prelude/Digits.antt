-- ===== src/Prelude/Digits.antt =====
-- Decimal text of a natural number, Python's `str(n)`, and its reading back.
use Prim.Native.Nat.{ℕ, zero, suc, ◌+◌, ◌-◌, ◌*◌, ◌/◌, ◌%◌, ◌<◌}
use Prim.Native.Char.{Char, code}
use Prim.Native.String.{String, [], ◌∷◌, ◌++◌}
use mathlib.Core.Path.{◌≡◌, refl, sym, ap, ◌∙◌}
use mathlib.Core.Logic.{inl, inr}
use mathlib.Core.Bool.{Bool, true, ◌&&◌}
use native.Mathlib.Omega.{arith}
use text.Mathlib.TextLemmas.{nil-append, cons-append}
use specmcp.Prelude.Tests.{leb, ltb, if◌then◌else◌, Bool-cases}

unfoldable pub digit : ℕ → Char
digit zero = "0"
digit (suc zero) = "1"
digit (suc (suc zero)) = "2"
digit (suc (suc (suc zero))) = "3"
digit (suc (suc (suc (suc zero)))) = "4"
digit (suc (suc (suc (suc (suc zero))))) = "5"
digit (suc (suc (suc (suc (suc (suc zero)))))) = "6"
digit (suc (suc (suc (suc (suc (suc (suc zero))))))) = "7"
digit (suc (suc (suc (suc (suc (suc (suc (suc zero)))))))) = "8"
digit _ = "9"

abbrev pub is_digit : Char → Bool
is_digit c = leb b'0' (code c) && leb (code c) b'9'

code-digit : (d : ℕ) → d < 10 → code (digit d) ≡ d + 48
unfolding digit
code-digit zero h = refl
code-digit (suc zero) h = refl
code-digit (suc (suc zero)) h = refl
code-digit (suc (suc (suc zero))) h = refl
code-digit (suc (suc (suc (suc zero)))) h = refl
code-digit (suc (suc (suc (suc (suc zero))))) h = refl
code-digit (suc (suc (suc (suc (suc (suc zero)))))) h = refl
code-digit (suc (suc (suc (suc (suc (suc (suc zero))))))) h = refl
code-digit (suc (suc (suc (suc (suc (suc (suc (suc zero)))))))) h = refl
code-digit (suc (suc (suc (suc (suc (suc (suc (suc (suc zero))))))))) h = refl
code-digit (suc (suc (suc (suc (suc (suc (suc (suc (suc (suc n)))))))))) h = absurd (omega arith)

pub is_digit-digit : (d : ℕ) → is_digit (digit d) ≡ true
unfolding digit
is_digit-digit zero = refl
is_digit-digit (suc zero) = refl
is_digit-digit (suc (suc zero)) = refl
is_digit-digit (suc (suc (suc zero))) = refl
is_digit-digit (suc (suc (suc (suc zero)))) = refl
is_digit-digit (suc (suc (suc (suc (suc zero))))) = refl
is_digit-digit (suc (suc (suc (suc (suc (suc zero)))))) = refl
is_digit-digit (suc (suc (suc (suc (suc (suc (suc zero))))))) = refl
is_digit-digit (suc (suc (suc (suc (suc (suc (suc (suc zero)))))))) = refl
is_digit-digit _ = refl

unfoldable pub show_from : ℕ → ℕ → String
show_from zero n = []
show_from (suc f) n =
    let front = show_from f (n / 10) in
    if ltb n 10 then digit n ∷ [] else front ++ (digit (n % 10) ∷ [])

unfoldable pub show : ℕ → String
unfolding show_from digit
show n = show_from (suc n) n

-- The number that a text of digits stands for, after `acc`.
read : ℕ → String → ℕ
read acc [] = acc
read acc (c ∷ s) = read (acc * 10 + (code c - 48)) s

read-append : (acc : ℕ) (s t : String) → read acc (s ++ t) ≡ read (read acc s) t
unfolding read
read-append acc [] t = rw nil-append refl
read-append acc (c ∷ s) t = rw cons-append (read-append (acc * 10 + (code c - 48)) s t)

read-show_from : (f n : ℕ) → n < f → read 0 (show_from f n) ≡ n
unfolding show_from read
read-show_from zero n h = absurd (omega arith)
read-show_from (suc f) n h = elim (Bool-cases (ltb n 10)) [
  | inl small ↦ rw small (ground (arith, code-digit n))
  | inr large ↦
      rw (large, read-append, read-show_from f (n / 10) (ground arith))
        (omega (arith, code-digit (n % 10) (omega arith)))
]

-- Different numbers have different decimal texts.
pub show_injective : (m n : ℕ) → show m ≡ show n → m ≡ n
unfolding show
show_injective m n e =
    sym (read-show_from (suc m) m (omega arith))
    ∙ ap (read 0) e
    ∙ read-show_from (suc n) n (omega arith)
