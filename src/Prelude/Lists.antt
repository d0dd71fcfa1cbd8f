-- ===== src/Prelude/Lists.antt =====
-- Lists with native lengths, Boolean searches and predicates by recursion.
use Prim.Native.Nat.{ℕ, suc, ◌+◌}
use Prim.Native.String.{String}
use mathlib.Core.Path.{◌≡◌, refl}
use mathlib.Core.Logic.{◌⊎◌}
use mathlib.Core.Bool.{Bool, true, false, ◌&&◌, ◌||◌}
use mathlib.Core.List.{List, [], ◌∷◌, ◌++◌}
use native.Mathlib.Omega.{arith}
use text.Mathlib.Text.{◌==◌}
use text.Mathlib.TextEquality.{eq_iff}

module _ {ℓ} {A : Type ℓ} where
  abbrev pub length : List A → ℕ
  length [] = 0
  length (x ∷ xs) = suc (length xs)

  abbrev pub any : (A → Bool) → List A → Bool
  any p [] = false
  any p (x ∷ xs) = p x || any p xs

  abbrev pub all : (A → Bool) → List A → Bool
  all p [] = true
  all p (x ∷ xs) = p x && all p xs

  -- `xs` is empty, Python's `not xs`.
  abbrev pub is_empty : List A → Bool
  is_empty [] = true
  is_empty (x ∷ xs) = false

  pub length-append : (xs ys : List A) → length (xs ++ ys) ≡ length xs + length ys
  length-append [] ys = omega arith
  length-append (x ∷ xs) ys = omega (arith, length-append xs ys)

module _ {ℓ κ} {A : Type ℓ} (P : A → Type κ) where
  abbrev pub All : List A → Type κ
  All [] = Unit
  All (x ∷ xs) = P x × All xs

  pub All-append : (xs ys : List A) → All xs → All ys → All (xs ++ ys)
  All-append [] ys h k = k
  All-append (x ∷ xs) ys (p, h) k = (p, All-append xs ys h k)

-- `k in xs` on a list of texts.
abbrev pub elem : String → List String → Bool
elem k [] = false
elem k (x ∷ xs) = (x == k) || elem k xs

-- No text stands twice in the list.
abbrev pub Distinct : List String → Type 0
Distinct [] = Unit
Distinct (x ∷ xs) = (elem x xs ≡ false) × Distinct xs

pub elem-append : (k : String) (xs ys : List String) → elem k (xs ++ ys) ≡ (elem k xs || elem k ys)
elem-append k [] ys = refl
elem-append k (x ∷ xs) ys = ground (arith, elem-append k xs ys)

pub elem_of_eq : (k x : String) (xs : List String) → x ≡ k → elem k (x ∷ xs) ≡ true
elem_of_eq k x xs h = ground (arith, eq_iff x k)

pub elem-cons_iff :
    (k x : String) (xs : List String) → elem k (x ∷ xs) ≡ true → (x ≡ k) ⊎ (elem k xs ≡ true)
elem-cons_iff k x xs h = ground (arith, eq_iff x k)

pub elem_later : (k x : String) (xs : List String) → elem k xs ≡ true → elem k (x ∷ xs) ≡ true
elem_later k x xs h = ground arith

-- A test that all texts of a list pass.
pub all_elem :
    (p : String → Bool) (xs : List String) (k : String)
    → all p xs ≡ true
    → elem k xs ≡ true
    → p k ≡ true
all_elem p [] k h member = cc
all_elem p (x ∷ xs) k h member = ground (arith, eq_iff x k, all_elem p xs k)
