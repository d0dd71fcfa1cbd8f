-- ===== src/Naming/Unique.antt =====
-- What `_resolve_collisions` gives each occurrence of a name, and when the results differ.
use specmcp.Prelude.{
  eqb, ℕ, zero, suc, ◌+◌, ◌≤◌, String, ◌≡◌, ◌≢◌, refl, sym, ap, ◌∙◌, true, Option, none, some, List,
  [], ◌∷◌, ◌++◌, arith, ◌==◌, eq_iff, if◌then◌else◌, elem, Distinct, length, inl, inr, Bool-cases,
  elem-cons_iff, elem_of_eq, elem_later, eq_refl,
}
use Prim.Native.String
use specmcp.Prelude.Digits.{show}
use specmcp.Prelude.Dict.{Dict, set, get-set}
use specmcp.Prelude.Suffix.{suffixed, suffixed-eq, suffixed-ne}
use specmcp.Naming.{seen_count, decorate, resolve_from, resolve_collisions}

-- How often a name stands in a list.
abbrev pub occurrences : String → List String → ℕ
occurrences name [] = 0
occurrences name (x ∷ xs) = if x == name then suc (occurrences name xs) else occurrences name xs

abbrev pub get_elem? : List String → ℕ → Option String
get_elem? [] i = none
get_elem? (x ∷ xs) zero = some x
get_elem? (x ∷ xs) (suc i) = get_elem? xs i

-- Counting one more occurrence of `name`.
abbrev bump : Dict ℕ → String → Dict ℕ
bump seen name = set seen name (seen_count seen name + 1)

seen_count-bump :
    (seen : Dict ℕ) (name other : String)
    → seen_count (bump seen name) other
      ≡ (if name == other then seen_count seen name + 1 else seen_count seen other)
seen_count-bump seen name other =
    rw (get-set seen name other (seen_count seen name + 1))
      (elim (Bool-cases (name == other)) [ inl e ↦ rw e refl | inr e ↦ rw e refl ])

bump-occurrences :
    (seen : Dict ℕ) (x name : String) (before : List String)
    → seen_count (bump seen x) name + occurrences name before
      ≡ seen_count seen name + occurrences name (x ∷ before)
bump-occurrences seen x name before = rw seen_count-bump (elim (Bool-cases (x == name)) [
  | inl same ↦ let e : x ≡ name = (eq_iff x name).0 same in rw same (rw e (omega arith))
  | inr differ ↦ rw differ refl
])

count_mono :
    (seen : Dict ℕ) (x name : String) (n : ℕ)
    → seen_count (bump seen x) name ≤ n
    → seen_count seen name ≤ n
count_mono seen x name n h = ground (arith, seen_count-bump seen x name, eq_iff x name)

get_elem-resolve_from :
    (seen : Dict ℕ) (before : List String) (name : String) (after : List String)
    → get_elem? (resolve_from seen (before ++ name ∷ after)) (length before)
      ≡ some (decorate (seen_count seen name + occurrences name before) name)
unfolding resolve_from
get_elem-resolve_from seen [] name after = ap (λ (n : ℕ). some (decorate n name)) (omega arith)
get_elem-resolve_from seen (x ∷ before) name after =
    get_elem-resolve_from (bump seen x) before name after
    ∙ ap (λ (n : ℕ). some (decorate n name)) (bump-occurrences seen x name before)

decorate-eq :
    (n : ℕ) (name : String)
    → decorate n name
      ≡ (if eqb n 0 then name else String.◌++◌ name (String.◌++◌ "_" (show (n + 1))))
unfolding suffixed
decorate-eq zero name = refl
decorate-eq (suc n) name = elim (Bool-cases (eqb (suc n) 0)) [
  | inl h ↦ absurd (ground arith)
  | inr h ↦ rw h refl
]

-- At its place in the list, the first occurrence of a name stays as it is, and one that has n earlier
-- ones becomes the name, an underscore and the decimal digits of n + 1, whatever other names there
-- are.
pub resolve_collisions_lem :
    (before : List String) (name : String) (after : List String)
    → get_elem? (resolve_collisions (before ++ name ∷ after)) (length before)
      ≡ some (
          if eqb (occurrences name before) 0
          then name
          else String.◌++◌ name (String.◌++◌ "_" (show (occurrences name before + 1))))
unfolding resolve_collisions
resolve_collisions_lem before name after =
    get_elem-resolve_from [] before name after
    ∙ ap (λ (n : ℕ). some (decorate n name)) (omega arith)
    ∙ ap some (decorate-eq (occurrences name before) name)

-- No candidate is another candidate with a suffix.
abbrev pub NoneSuffixed : List String → Type 0
NoneSuffixed candidates =
    (a b : String) (n : ℕ) → elem a candidates ≡ true → elem b candidates ≡ true → a ≢ suffixed b n

module _ (candidates : List String) (apart : NoneSuffixed candidates) where
  decorate_injective :
      (m n : ℕ) (a b : String)
      → elem a candidates ≡ true
      → elem b candidates ≡ true
      → decorate m a ≡ decorate n b
      → (a ≡ b) × (m ≡ n)
  decorate_injective zero zero a b h k p = (p, refl)
  decorate_injective zero (suc n) a b h k p = absurd (apart a b (suc n + 1) h k p)
  decorate_injective (suc m) zero a b h k p = absurd (apart b a (suc m + 1) k h (sym p))
  decorate_injective (suc m) (suc n) a b h k p =
      let (same, number) = suffixed-eq a b (suc m + 1) (suc n + 1) p in (same, omega arith)

-- Each result is a candidate, decorated by a count from the one seen so far.
resolve_from-origin :
    (seen : Dict ℕ) (names : List String) (x : String)
    → elem x (resolve_from seen names) ≡ true
    → (name : String) × (n : ℕ) × (elem name names ≡ true)
      × (seen_count seen name ≤ n)
      × (x ≡ decorate n name)
unfolding resolve_from
resolve_from-origin seen [] x h = cc
resolve_from-origin seen (y ∷ names) x h = elim (elem-cons_iff x _ _ h) [
  | inl e ↦ (y, seen_count seen y, elem_of_eq y y names refl, omega arith, sym e)
  | inr later ↦
      let (name, n, member, least, e) = resolve_from-origin (bump seen y) names x later in
      (name, n, elem_later name y names member, count_mono seen y name n least, e)
]

resolve_from-Distinct :
    (candidates : List String) (apart : NoneSuffixed candidates) (seen : Dict ℕ)
    (names : List String)
    → ((x : String) → elem x names ≡ true → elem x candidates ≡ true)
    → Distinct (resolve_from seen names)
unfolding resolve_from
resolve_from-Distinct candidates apart seen [] within = tt
resolve_from-Distinct candidates apart seen (y ∷ names) within =
    let first = decorate (seen_count seen y) y in
    let others = resolve_from (bump seen y) names in
    let inner : (x : String) → elem x names ≡ true → elem x candidates ≡ true =
      λ x h. within x (elem_later x y names h) in
    let fresh : elem first others ≡ true → ⊥ = λ again.
      let (name, n, member, least, e) = resolve_from-origin (bump seen y) names first again in
      let (same, number) =
        decorate_injective candidates apart (seen_count seen y) n y name
          (within y (elem_of_eq y y names refl)) (inner name member) e in
      ground (arith, seen_count-bump seen y name, eq_iff y name, ap (seen_count seen) same) in
    (
      elim (Bool-cases (elem first others)) [ inl h ↦ absurd (fresh h) | inr h ↦ h ],
      resolve_from-Distinct candidates apart (bump seen y) names inner,
    )

-- Where no candidate is another one with a suffix, all resolved names differ.
pub resolve_collisions-Distinct :
    (candidates : List String) → NoneSuffixed candidates → Distinct (resolve_collisions candidates)
unfolding resolve_collisions
resolve_collisions-Distinct candidates apart =
    resolve_from-Distinct candidates apart [] candidates (λ x h. h)

-- Where a candidate is already the second form of one that stands twice, that name is given twice.
pub resolve_collisions_clash :
    (name : String) → ¬ Distinct (resolve_collisions (name ∷ name ∷ suffixed name 2 ∷ []))
unfolding resolve_collisions
resolve_collisions_clash name h = ground (
  arith,
  eq_refl name,
  eq_refl (suffixed name 2),
  eq_iff name (suffixed name 2),
  suffixed-ne name 2,
)

length-resolve_from : (seen : Dict ℕ) (xs : List String) → length (resolve_from seen xs) ≡ length xs
unfolding resolve_from
length-resolve_from seen [] = refl
length-resolve_from seen (x ∷ xs) = omega (arith, length-resolve_from (bump seen x) xs)

pub length-resolve_collisions : (xs : List String) → length (resolve_collisions xs) ≡ length xs
unfolding resolve_collisions
length-resolve_collisions xs = length-resolve_from [] xs
