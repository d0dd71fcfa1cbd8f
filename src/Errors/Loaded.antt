-- ===== src/Errors/Loaded.antt =====
-- What loading and configuring returns or raises.
use specmcp.Prelude.{◌≡◌, refl, ◌⊎◌, inl, inr}
use specmcp.Errors.{ErrorClass}

-- A value, an error of the taxonomy, or another exception of Python.
pub data Loaded {ℓ} (A : Type ℓ) : Type ℓ where
  loaded : A → Loaded A
  failed : ErrorClass → Loaded A
  other_exception : Loaded A

infixl 5 ◌>>=◌
unfoldable pub ◌>>=◌ {ℓ κ} : {A : Type ℓ} {B : Type κ} → Loaded A → (A → Loaded B) → Loaded B
loaded a >>= f = f a
failed c >>= f = failed c
other_exception >>= f = other_exception

pub >>=-eq-loaded {ℓ κ} :
    {A : Type ℓ} {B : Type κ} (m : Loaded A) (f : A → Loaded B) {b : B}
    → (m >>= f) ≡ loaded b
    → (a : A) × (m ≡ loaded a) × (f a ≡ loaded b)
unfolding ◌>>=◌
>>=-eq-loaded (loaded a) f h = (a, refl, h)
>>=-eq-loaded (failed c) f h = cc
>>=-eq-loaded other_exception f h = cc

pub loaded_injective {ℓ} : {A : Type ℓ} {a b : A} → loaded a ≡ loaded b → a ≡ b
loaded_injective h = cc

pub Loaded-cases {ℓ} :
    {A : Type ℓ} (r : Loaded A)
    → ((a : A) × (r ≡ loaded a)) ⊎ (((c : ErrorClass) × (r ≡ failed c)) ⊎ (r ≡ other_exception))
Loaded-cases (loaded a) = inl (a, refl)
Loaded-cases (failed c) = inr (inl (c, refl))
Loaded-cases other_exception = inr (inr refl)
