-- ===== src/Prelude/Suffix.antt =====
-- `f"{name}_{n}"`, the text by which both pipeline stages tell equal names apart.
use Prim.Native.Nat.{ℕ, zero, suc, ◌/◌, ◌%◌}
use Prim.Native.Char.{Char}
use Prim.Native.String.{String, [], ◌∷◌, ◌++◌}
use mathlib.Core.Path.{◌≡◌, refl, sym, ap, ◌∙◌}
use mathlib.Core.Logic.{◌≢◌, inl, inr}
use mathlib.Core.Bool.{true, false}
use native.Mathlib.Omega.{arith}
use text.Mathlib.TextLemmas.{
  nil-append, cons-append, append_cancel_left, append-nil, cons-ne-nil, head-eq_of_cons-eq,
  tail-eq_of_cons-eq,
}
use specmcp.Prelude.Tests.{ltb, Bool-cases}
use specmcp.Prelude.Digits.{show, show_injective, digit, is_digit, show_from, is_digit-digit}
use specmcp.Prelude.Text.{all_chars, all_chars-append}

unfoldable pub suffixed : String → ℕ → String
suffixed name n = name ++ ("_" ++ show n)

pub suffixed_injective : (s : String) (m n : ℕ) → suffixed s m ≡ suffixed s n → m ≡ n
unfolding suffixed
suffixed_injective s m n e =
    show_injective m n (append_cancel_left "_" (show m) (show n) (append_cancel_left s _ _ e))

all_digits-show_from : (f n : ℕ) → all_chars is_digit (show_from f n) ≡ true
unfolding show_from
all_digits-show_from zero n = refl
all_digits-show_from (suc f) n = elim (Bool-cases (ltb n 10)) [
  | inl small ↦ rw small (ground (arith, is_digit-digit n))
  | inr large ↦
      rw (large, all_chars-append is_digit (show_from f (n / 10)) (digit (n % 10) ∷ []))
        (ground (arith, all_digits-show_from f (n / 10), is_digit-digit (n % 10)))
]

all_digits-show : (n : ℕ) → all_chars is_digit (show n) ≡ true
unfolding show
all_digits-show n = all_digits-show_from (suc n) n

underscore : (e : String) → all_chars is_digit ("_" ++ e) ≡ false
underscore e = rw all_chars-append refl

-- A text of digits does not hold an underscore.
no_underscore : (t d e : String) → all_chars is_digit d ≡ true → d ≢ t ++ ("_" ++ e)
no_underscore t d e h p =
    ground (arith, ap (all_chars is_digit) p, all_chars-append is_digit t ("_" ++ e), underscore e)

underscore-append : (d : String) → "_" ++ d ≡ "_" ∷ d
underscore-append d = cons-append "_" "" d ∙ ap (λ (t : String). "_" ∷ t) (nil-append d)

-- Dropping a first character on the left where the right side begins with the underscore.
drop_first :
    (c : Char) (t d e : String) → "" ++ ("_" ++ d) ≡ (c ∷ t) ++ ("_" ++ e) → d ≡ t ++ ("_" ++ e)
drop_first c t d e p =
    tail-eq_of_cons-eq
      (sym (underscore-append d) ∙ sym (nil-append ("_" ++ d)) ∙ p ∙ cons-append c t ("_" ++ e))

split_unique :
    (s t d e : String)
    → all_chars is_digit d ≡ true
    → all_chars is_digit e ≡ true
    → s ++ ("_" ++ d) ≡ t ++ ("_" ++ e)
    → s ≡ t
split_unique [] [] d e h k p = refl
split_unique [] (c ∷ t) d e h k p = absurd (no_underscore t d e h (drop_first c t d e p))
split_unique (c ∷ s) [] d e h k p = absurd (no_underscore s e d k (drop_first c s e d (sym p)))
split_unique (c ∷ s) (x ∷ t) d e h k p =
    let q : c ∷ (s ++ ("_" ++ d)) ≡ x ∷ (t ++ ("_" ++ e)) =
      sym (cons-append c s _) ∙ p ∙ cons-append x t _ in
    cc (head-eq_of_cons-eq q, split_unique s t d e h k (tail-eq_of_cons-eq q))

-- Suffixed names are equal only if the names and the numbers are.
pub suffixed-eq : (s t : String) (m n : ℕ) → suffixed s m ≡ suffixed t n → (s ≡ t) × (m ≡ n)
unfolding suffixed
suffixed-eq s t m n p =
    let same : s ≡ t =
      split_unique s t (show m) (show n) (all_digits-show m) (all_digits-show n) p in
    (same, suffixed_injective t m n (rw same at p))

-- A suffix makes a name another one.
pub suffixed-ne : (s : String) (n : ℕ) → suffixed s n ≢ s
unfolding suffixed
suffixed-ne s n p =
    let gone : "_" ∷ show n ≡ "" =
      sym (underscore-append (show n))
      ∙ append_cancel_left s ("_" ++ show n) "" (p ∙ sym (append-nil s)) in
    cons-ne-nil "_" (show n) gone
