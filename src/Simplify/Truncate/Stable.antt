-- ===== src/Simplify/Truncate/Stable.antt =====
-- When truncation changes nothing.
use Prim.Native.String.{count}
use specmcp.Prelude.{
  ℕ, ◌+◌, ◌≤◌, String, ◌≡◌, refl, ap, ap₂, true, false, List, [], ◌∷◌, ◌++◌, Bool-cases, inl, inr,
  arith,
}
use specmcp.Json.{Json, null, bool, num, str, arr, obj, Items, nil, cons, Fields, end, field}
use specmcp.Simplify.Truncate.{
  is_long, cut_text, cut_warning, truncate_in, truncate_items, truncate_fields, warnings_in,
  warnings_items, warnings_fields,
}
use specmcp.Simplify.Truncate.Bounded.{count-cut, cut-cut, short_in, short-truncate_in}

cut_text-cut_text :
    (m : ℕ) (k : String) (v : Json)
    → is_long m k v ≡ true
    → cut_text m (cut_text m v) ≡ cut_text m v
cut_text-cut_text m k (str s) h = let le : m ≤ count s = ground arith in ap str (cut-cut m s le)
cut_text-cut_text m k v h = cc

is_long-cut_text :
    (m : ℕ) (k : String) (v : Json) → is_long m k v ≡ true → is_long m k (cut_text m v) ≡ true
is_long-cut_text m k (str s) h = ground (arith, count-cut m s)
is_long-cut_text m k v h = cc

is_long-truncate_in :
    (m : ℕ) (k : String) (v : Json) → is_long m k v ≡ false → is_long m k (truncate_in m v) ≡ false
unfolding truncate_in
is_long-truncate_in m k (str s) h = h
is_long-truncate_in m k null h = refl
is_long-truncate_in m k _ h = refl

mutual
  unfolding truncate_in

  truncate-truncate_in : (m : ℕ) (v : Json) → truncate_in m (truncate_in m v) ≡ truncate_in m v
  truncate-truncate_in m null = refl
  truncate-truncate_in m (bool b) = refl
  truncate-truncate_in m (num t) = refl
  truncate-truncate_in m (str s) = refl
  truncate-truncate_in m (arr vs) = ap arr (truncate-truncate_items m vs)
  truncate-truncate_in m (obj fs) = ap obj (truncate-truncate_fields m fs)

  truncate-truncate_items :
      (m : ℕ) (vs : Items) → truncate_items m (truncate_items m vs) ≡ truncate_items m vs
  truncate-truncate_items m nil = refl
  truncate-truncate_items m (cons v vs) =
      ap₂ cons (truncate-truncate_in m v) (truncate-truncate_items m vs)

  truncate-truncate_fields :
      (m : ℕ) (fs : Fields) → truncate_fields m (truncate_fields m fs) ≡ truncate_fields m fs
  truncate-truncate_fields m end = refl
  truncate-truncate_fields m (field k v fs) = elim (Bool-cases (is_long m k v)) [
    | inl long ↦ rw long (
        rw (is_long-cut_text m k v long)
          (ap₂ (field k) (cut_text-cut_text m k v long) (truncate-truncate_fields m fs)))
    | inr short ↦ rw short (
        rw (is_long-truncate_in m k v short)
          (ap₂ (field k) (truncate-truncate_in m v) (truncate-truncate_fields m fs)))
  ]

append-eq-nil {ℓ} : {A : Type ℓ} (xs ys : List A) → xs ++ ys ≡ [] → (xs ≡ []) × (ys ≡ [])
append-eq-nil [] ys h = (refl, h)
append-eq-nil (x ∷ xs) ys h = cc

mutual
  unfolding truncate_in warnings_in

  unwarned_in : (m : ℕ) (op : String) (v : Json) → warnings_in m op v ≡ [] → truncate_in m v ≡ v
  unwarned_in m op null h = refl
  unwarned_in m op (bool b) h = refl
  unwarned_in m op (num t) h = refl
  unwarned_in m op (str s) h = refl
  unwarned_in m op (arr vs) h = ap arr (unwarned_items m op vs h)
  unwarned_in m op (obj fs) h = ap obj (unwarned_fields m op fs h)

  unwarned_items :
      (m : ℕ) (op : String) (vs : Items) → warnings_items m op vs ≡ [] → truncate_items m vs ≡ vs
  unwarned_items m op nil h = refl
  unwarned_items m op (cons v vs) h =
      let (first, rest) = append-eq-nil (warnings_in m op v) (warnings_items m op vs) h in
      ap₂ cons (unwarned_in m op v first) (unwarned_items m op vs rest)

  unwarned_fields :
      (m : ℕ) (op : String) (fs : Fields) → warnings_fields m op fs ≡ [] → truncate_fields m fs ≡ fs
  unwarned_fields m op end h = refl
  unwarned_fields m op (field k v fs) h = elim (Bool-cases (is_long m k v)) [
    | inl long ↦ let e : cut_warning m op ∷ warnings_fields m op fs ≡ [] = rw long at h in cc
    | inr short ↦
        let e : warnings_in m op v ++ warnings_fields m op fs ≡ [] = rw short at h in
        let (first, rest) = append-eq-nil (warnings_in m op v) (warnings_fields m op fs) e in
        rw short (ap₂ (field k) (unwarned_in m op v first) (unwarned_fields m op fs rest))
  ]

-- Truncation leaves no description, at any depth, with more than `m` characters and the ellipsis;
-- truncating twice is truncating once; and where no warning is given the schema is as it was.
pub truncate_in_lem :
    (m : ℕ) (op : String) (v : Json)
    → (short_in (m + 1) (truncate_in m v) ≡ true)
      × (truncate_in m (truncate_in m v) ≡ truncate_in m v)
      × (warnings_in m op v ≡ [] → truncate_in m v ≡ v)
truncate_in_lem m op v = (short-truncate_in m v, truncate-truncate_in m v, unwarned_in m op v)
