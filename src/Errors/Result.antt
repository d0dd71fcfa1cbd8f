-- ===== src/Errors/Result.antt =====
-- A computation that may raise.
use specmcp.Prelude.{
  String, ℕ, ◌≡◌, refl, subst, Option, List, [], ◌∷◌, Bool, true, false, if◌then◌else◌,
}

-- The exceptions that the modelled code raises or lets through, with the attributes that callers
-- read. `python_error` is any exception of Python or pydantic on a value of the wrong type.
pub data Error : Type 0 where
  normalize dispatch auth_config auth transient python_error : Error
  argument_validation : String → Error
  auth_required : Option String → Error
  token_refresh : Option ℕ → Error
  upstream_client : ℕ → String → Error
  upstream_server : ℕ → Error
  response_too_large : ℕ → ℕ → Error

pub data Result {ℓ} (A : Type ℓ) : Type ℓ where
  ok : A → Result A
  err : Error → Result A

infixl 5 ◌>>=◌
unfoldable pub ◌>>=◌ {ℓ κ} : {A : Type ℓ} {B : Type κ} → Result A → (A → Result B) → Result B
ok value >>= next = next value
err raised >>= next = err raised

module _ {ℓ κ} {A : Type ℓ} {B : Type κ} where
  -- What a chain that returns says of its first part.
  pub >>=-eq-ok :
      (first : Result A) (next : A → Result B) {result : B}
      → (first >>= next) ≡ ok result
      → (value : A) × (first ≡ ok value) × (next value ≡ ok result)
  unfolding ◌>>=◌
  >>=-eq-ok (ok value) next h = (value, refl, h)
  >>=-eq-ok (err raised) next h = cc

pub ok_injective {ℓ} : {A : Type ℓ} {a b : A} → ok a ≡ ok b → a ≡ b
ok_injective h = cc

-- A loop over a list that stops at the first error.
unfoldable pub map_result {ℓ κ} :
    {A : Type ℓ} {B : Type κ} → (A → Result B) → List A → Result (List B)
map_result f [] = ok []
map_result f (x ∷ xs) = f x >>= λ y. map_result f xs >>= λ ys. ok (y ∷ ys)

-- What holds of each value that is returned.
pub record Returns {ℓ κ} {A : Type ℓ} (P : A → Type κ) (m : Result A) : Type (ℓ ⊔ κ) where
  pub at : (a : A) → m ≡ ok a → P a

module _ {ℓ κ} {A : Type ℓ} {P : A → Type κ} where
  pub Returns-ok : (a : A) → P a → Returns P (ok a)
  Returns-ok a h = record { at = λ b e. subst P (ok_injective e) h }

  pub Returns-err : (e : Error) → Returns P (err e)
  Returns-err e = record { at = λ b p. cc }

  pub Returns-if :
      (b : Bool) (m n : Result A)
      → (b ≡ true → Returns P m)
      → (b ≡ false → Returns P n)
      → Returns P (if b then m else n)
  Returns-if true m n h k = h refl
  Returns-if false m n h k = k refl

module _ {ℓ κ μ} {A : Type ℓ} {B : Type κ} {P : B → Type μ} where
  pub Returns-bind :
      (m : Result A) (f : A → Result B)
      → ((a : A) → m ≡ ok a → Returns P (f a))
      → Returns P (m >>= f)
  unfolding ◌>>=◌
  Returns-bind (ok a) f h = h a refl
  Returns-bind (err e) f h = Returns-err e
