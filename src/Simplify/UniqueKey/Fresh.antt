-- ===== src/Simplify/UniqueKey/Fresh.antt =====
-- The search for a free key ends: among one more suffixes than there are keys, one is free.
use Prim.Native.String.{◌++◌}
use specmcp.Prelude.{
  ℕ, zero, suc, ◌+◌, ◌≤◌, ◌<◌, String, ◌≡◌, ◌≢◌, refl, sym, ◌∙◌, true, false, List, [], ◌∷◌, ◌==◌,
  eq_iff, arith, if◌then◌else◌, elem, length, Bool-cases, inl, inr,
}
use specmcp.Prelude.Suffix.{suffixed, suffixed_injective}
use specmcp.Simplify.UniqueKey.{first_free, unique_key}

-- A list without a text.
without : String → List String → List String
without k [] = []
without k (x ∷ xs) = let rest = without k xs in if x == k then rest else x ∷ rest

elem-without : (k j : String) (xs : List String) → j ≢ k → elem j (without k xs) ≡ elem j xs
unfolding without
elem-without k j [] h = refl
elem-without k j (x ∷ xs) h = ground (arith, eq_iff x k, eq_iff x j, elem-without k j xs h)

length-without-le : (k : String) (xs : List String) → length (without k xs) ≤ length xs
unfolding without
length-without-le k [] = omega arith
length-without-le k (x ∷ xs) = ground (arith, length-without-le k xs)

length-without :
    (k : String) (xs : List String) → elem k xs ≡ true → length (without k xs) < length xs
unfolding without
length-without k [] h = cc
length-without k (x ∷ xs) h = ground (arith, length-without k xs, length-without-le k xs)

-- The search from a number on does not notice the loss of a name with a lower number.
first_free-without :
    (fuel : ℕ) (existing : List String) (candidate : String) (low i : ℕ)
    → low < i
    → first_free fuel (without (suffixed candidate low) existing) candidate i
      ≡ first_free fuel existing candidate i
unfolding first_free
first_free-without zero existing candidate low i h = refl
first_free-without (suc fuel) existing candidate low i h =
    let other : suffixed candidate i ≢ suffixed candidate low =
      λ e. absurd (omega (arith, suffixed_injective candidate i low e)) in
    rw
      (
        elem-without (suffixed candidate low) (suffixed candidate i) existing other,
        first_free-without fuel existing candidate low (i + 1) (omega arith),
      )
      refl

first_free-ge :
    (fuel : ℕ) (existing : List String) (candidate : String) (i : ℕ)
    → i ≤ first_free fuel existing candidate i
unfolding first_free
first_free-ge zero existing candidate i = omega arith
first_free-ge (suc fuel) existing candidate i =
    ground (arith, first_free-ge fuel existing candidate (i + 1))

first_free-fresh :
    (fuel : ℕ) (existing : List String) (candidate : String) (i : ℕ)
    → length existing < fuel
    → elem (suffixed candidate (first_free fuel existing candidate i)) existing ≡ false
unfolding first_free
first_free-fresh zero existing candidate i h = absurd (omega arith)
first_free-fresh (suc fuel) existing candidate i h =
    elim (Bool-cases (elem (suffixed candidate i) existing)) [
      | inr free ↦ rw free free
      | inl taken ↦
          let k = suffixed candidate i in
          let found = first_free fuel existing candidate (i + 1) in
          let smaller : length (without k existing) < fuel =
            omega (arith, length-without k existing taken) in
          let fresh : elem (suffixed candidate found) (without k existing) ≡ false =
            rw (first_free-without fuel existing candidate i (i + 1) (omega arith)) at
              (first_free-fresh fuel (without k existing) candidate (i + 1) smaller) in
          let apart : suffixed candidate found ≢ k = λ e. absurd (
            omega (
              arith,
              suffixed_injective candidate found i e,
              first_free-ge fuel existing candidate (i + 1),
            )) in
          rw taken (sym (elem-without k (suffixed candidate found) existing apart) ∙ fresh)
    ]

-- The key that is returned is none of the existing ones.
pub unique_key_fresh :
    (name : String) (existing : List String) (suffix : String)
    → elem (unique_key name existing suffix) existing ≡ false
unfolding unique_key
unique_key_fresh name existing suffix = elim (Bool-cases (elem name existing)) [
  | inr free ↦ rw free free
  | inl taken ↦ elim (Bool-cases (elem (name ++ suffix) existing)) [
    | inr free ↦ rw (taken, free) free
    | inl both ↦
        rw (taken, both)
          (first_free-fresh (suc (length existing)) existing (name ++ suffix) 2 (omega arith))
  ]
]
