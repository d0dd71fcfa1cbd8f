-- ===== src/Prelude/Dict.antt =====
-- Python's `dict` with text keys: an association list in insertion order. Assigning to a key that
-- is there keeps its place.
use mathlib.Core.Path.{◌≡◌, refl, ap, subst, ◌∙◌}
use mathlib.Core.Bool.{Bool, true, false, not, ◌||◌, ◌&&◌}
use mathlib.Core.Logic.{inl, inr}
use mathlib.Core.Option.{Option, none, some}
use mathlib.Core.List.{List, [], ◌∷◌, ◌++◌}
use native.Mathlib.Omega.{arith}
use Prim.Native.String.{String}
use text.Mathlib.Text.{◌==◌}
use text.Mathlib.TextEquality.{eq_iff}
use specmcp.Prelude.Tests.{is_some, Bool-cases, if◌then◌else◌}
use specmcp.Prelude.Lists.{elem, Distinct, all}

abbrev pub Dict {ℓ} : Type ℓ → Type ℓ
Dict V = List (String × V)

module _ {ℓ} {V : Type ℓ} where
  abbrev pub keys : Dict V → List String
  keys [] = []
  keys ((k, v) ∷ d) = k ∷ keys d

  -- d.get(k)
  unfoldable pub get : Dict V → String → Option V
  get [] k = none
  get ((j, v) ∷ d) k = if j == k then some v else get d k

  -- k in d
  abbrev pub has : Dict V → String → Bool
  has d k = elem k (keys d)

  -- d[k] = v
  unfoldable pub set : Dict V → String → V → Dict V
  set [] k v = (k, v) ∷ []
  set ((j, w) ∷ d) k v = if j == k then (j, v) ∷ d else (j, w) ∷ set d k v

  -- del d[k], d.pop(k, None)
  unfoldable pub remove : Dict V → String → Dict V
  remove [] k = []
  remove ((j, w) ∷ d) k = let rest = remove d k in if j == k then rest else (j, w) ∷ rest

  -- d.update(e)
  unfoldable pub update : Dict V → Dict V → Dict V
  update d [] = d
  update d ((k, v) ∷ e) = update (set d k v) e

  pub get-set :
      (d : Dict V) (k j : String) (v : V) → get (set d k v) j ≡ (if k == j then some v else get d j)
  unfolding get set
  get-set [] k j v = refl
  get-set ((i, w) ∷ d) k j v = ground (arith, eq_iff k j, eq_iff i k, eq_iff i j, get-set d k j v)

  pub get-remove :
      (d : Dict V) (k j : String) → get (remove d k) j ≡ (if k == j then none else get d j)
  unfolding get remove
  get-remove [] k j = ground arith
  get-remove ((i, w) ∷ d) k j = ground (arith, eq_iff k j, eq_iff i k, eq_iff i j, get-remove d k j)

  pub has-get : (d : Dict V) (k : String) → has d k ≡ is_some (get d k)
  unfolding get
  has-get [] k = refl
  has-get ((j, v) ∷ d) k = ground (arith, has-get d k)

  pub has-set : (d : Dict V) (k j : String) (v : V) → has (set d k v) j ≡ ((k == j) || has d j)
  unfolding set
  has-set [] k j v = refl
  has-set ((i, w) ∷ d) k j v = ground (arith, eq_iff k j, eq_iff i k, eq_iff i j, has-set d k j v)

  -- The keys of a dictionary stay distinct.
  pub Distinct-set :
      (d : Dict V) (k : String) (v : V) → Distinct (keys d) → Distinct (keys (set d k v))
  unfolding set
  Distinct-set [] k v h = (refl, tt)
  Distinct-set ((i, w) ∷ d) k v (fresh, h) =
      ground (arith, eq_iff i k, eq_iff k i, has-set d k i v, Distinct-set d k v h)

  -- A fresh key is added at the end.
  pub set_fresh : (d : Dict V) (k : String) (v : V) → has d k ≡ false → set d k v ≡ d ++ (k, v) ∷ []
  unfolding set
  set_fresh [] k v h = refl
  set_fresh ((i, w) ∷ d) k v h = ground (arith, set_fresh d k v)

  pub get_of_has : (d : Dict V) (k : String) → has d k ≡ true → (v : V) × (get d k ≡ some v)
  unfolding get
  get_of_has [] k h = cc
  get_of_has ((j, w) ∷ d) k h = elim (Bool-cases (j == k)) [
    | inl here ↦ (w, rw here)
    | inr later ↦ let (v, found) = get_of_has d k (rw later at h) in (v, rw later found)
  ]

  pub get-none : (d : Dict V) (k : String) → has d k ≡ false → get d k ≡ none
  unfolding get
  get-none [] k h = refl
  get-none ((j, w) ∷ d) k h = ground (arith, get-none d k)

  pub has-remove : (d : Dict V) (k j : String) → has (remove d k) j ≡ (not (k == j) && has d j)
  unfolding remove
  has-remove [] k j = ground arith
  has-remove ((i, w) ∷ d) k j = ground (arith, eq_iff k j, eq_iff i k, eq_iff i j, has-remove d k j)

  abbrev pub all_entries : (String → V → Bool) → Dict V → Bool
  all_entries p [] = true
  all_entries p ((k, v) ∷ d) = p k v && all_entries p d

  pub all_entries-remove :
      (p : String → V → Bool) (d : Dict V) (k : String)
      → all_entries p d ≡ true
      → all_entries p (remove d k) ≡ true
  unfolding remove
  all_entries-remove p [] k h = refl
  all_entries-remove p ((j, w) ∷ d) k h = ground (arith, all_entries-remove p d k)

  pub all_entries-set :
      (p : String → V → Bool) (d : Dict V) (k : String) (v : V)
      → p k v ≡ true
      → all_entries p d ≡ true
      → all_entries p (set d k v) ≡ true
  unfolding set
  all_entries-set p [] k v q h = rw q refl
  all_entries-set p ((j, w) ∷ d) k v q h = elim (Bool-cases (j == k)) [
    | inl same ↦
        let e : p j v ≡ true = ap (λ (i : String). p i v) ((eq_iff j k).0 same) ∙ q in
        rw (same, e) (ground arith)
    | inr differ ↦ rw differ (ground (arith, all_entries-set p d k v))
  ]

  pub keys-append : (d e : Dict V) → keys (d ++ e) ≡ keys d ++ keys e
  keys-append [] e = refl
  keys-append ((k, v) ∷ d) e = ap (λ (ks : List String). k ∷ ks) (keys-append d e)

  -- What holds of each item stays so where it holds of a new one.
  pub all-set :
      (p : String × V → Bool) (d : Dict V) (k : String) (v : V)
      → all p d ≡ true
      → p (k, v) ≡ true
      → all p (set d k v) ≡ true
  unfolding set
  all-set p [] k v h q = rw q refl
  all-set p ((i, w) ∷ d) k v h q = elim (Bool-cases (i == k)) [
    | inl same ↦
        let e : p (i, v) ≡ true = ap (λ j. p (j, v)) ((eq_iff i k).0 same) ∙ q in
        rw same (ground (arith, h, e))
    | inr differ ↦ rw differ (ground (arith, h, all-set p d k v, q))
  ]

  pub all-get :
      (p : String × V → Bool) (d : Dict V) (k : String) (v : V)
      → all p d ≡ true
      → get d k ≡ some v
      → p (k, v) ≡ true
  unfolding get
  all-get p [] k v h e = cc
  all-get p ((i, w) ∷ d) k v h e = elim (Bool-cases (i == k)) [
    | inl same ↦
        let f : some w ≡ some v = rw same at e in
        let q : p (i, w) ≡ true = ground (arith, h) in
        let r : w ≡ v = cc in
        subst (λ j. p (j, v) ≡ true) ((eq_iff i k).0 same) (subst (λ x. p (i, x) ≡ true) r q)
    | inr differ ↦ all-get p d k v (ground (arith, h)) (rw differ at e)
  ]
