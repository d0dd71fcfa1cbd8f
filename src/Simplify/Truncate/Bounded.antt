-- ===== src/Simplify/Truncate/Bounded.antt =====
-- The descriptions after truncation.
use Prim.Native.String
use Prim.Native.String.{count}
use text.Mathlib.TextLemmas.{length-append}
use specmcp.Prelude.{
  ℕ, ◌+◌, ◌≤◌, String, ◌≡◌, refl, ap, ◌∙◌, Bool, true, false, ◌&&◌, ◌==◌, if◌then◌else◌, leb,
  Bool-cases, inl, inr, arith,
}
use specmcp.Prelude.Text.{take, count-take, take-take-append}
use specmcp.Json.{Json, null, bool, num, str, arr, obj, Items, nil, cons, Fields, end, field}
use specmcp.Simplify.Truncate.{cut, is_long, cut_text, truncate_in, truncate_items, truncate_fields}

pub count-cut : (m : ℕ) (s : String) → m ≤ count s → count (cut m s) ≡ m + 1
unfolding cut
count-cut m s h = length-append (take m s) "…" ∙ rw (count-take m s h) refl

pub cut-cut : (m : ℕ) (s : String) → m ≤ count s → cut m (cut m s) ≡ cut m s
unfolding cut
cut-cut m s h = ap (λ (t : String). String.◌++◌ t "…") (take-take-append m s "…" h)

-- The value is no description, or one of at most `m` characters.
abbrev pub fits : ℕ → String → Json → Bool
fits m k (str s) = if k == "description" then leb (count s) m else true
fits m k v = true

-- Every description in the value, at any depth, has at most `m` characters.
mutual
  pub short_in : ℕ → Json → Bool
  short_in m null = true
  short_in m (bool b) = true
  short_in m (num t) = true
  short_in m (str s) = true
  short_in m (arr vs) = short_items m vs
  short_in m (obj fs) = short_fields m fs

  pub short_items : ℕ → Items → Bool
  short_items m nil = true
  short_items m (cons v vs) = short_in m v && short_items m vs

  pub short_fields : ℕ → Fields → Bool
  short_fields m end = true
  short_fields m (field k v fs) = fits m k v && (short_in m v && short_fields m fs)

-- A long description is cut to one character more than the limit; another value fits as it is.
fits-cut :
    (m : ℕ) (k : String) (v : Json) → is_long m k v ≡ true → fits (m + 1) k (cut_text m v) ≡ true
fits-cut m k (str s) h = ground (arith, count-cut m s)
fits-cut m k v h = cc

short-cut_text :
    (m : ℕ) (k : String) (v : Json) → is_long m k v ≡ true → short_in (m + 1) (cut_text m v) ≡ true
unfolding short_in
short-cut_text m k (str s) h = refl
short-cut_text m k v h = cc

fits-truncate_in :
    (m : ℕ) (k : String) (v : Json)
    → is_long m k v ≡ false
    → fits (m + 1) k (truncate_in m v) ≡ true
unfolding truncate_in
fits-truncate_in m k (str s) h = ground arith
fits-truncate_in m k null h = refl
fits-truncate_in m k _ h = refl

mutual
  unfolding truncate_in short_in

  pub short-truncate_in : (m : ℕ) (v : Json) → short_in (m + 1) (truncate_in m v) ≡ true
  short-truncate_in m null = refl
  short-truncate_in m (bool b) = refl
  short-truncate_in m (num t) = refl
  short-truncate_in m (str s) = refl
  short-truncate_in m (arr vs) = short-truncate_items m vs
  short-truncate_in m (obj fs) = short-truncate_fields m fs

  short-truncate_items : (m : ℕ) (vs : Items) → short_items (m + 1) (truncate_items m vs) ≡ true
  short-truncate_items m nil = refl
  short-truncate_items m (cons v vs) = rw (short-truncate_in m v) (short-truncate_items m vs)

  short-truncate_fields : (m : ℕ) (fs : Fields) → short_fields (m + 1) (truncate_fields m fs) ≡ true
  short-truncate_fields m end = refl
  short-truncate_fields m (field k v fs) = elim (Bool-cases (is_long m k v)) [
    | inl long ↦
        rw long (rw (fits-cut m k v long, short-cut_text m k v long) (short-truncate_fields m fs))
    | inr short ↦
        rw short
          (rw (fits-truncate_in m k v short, short-truncate_in m v) (short-truncate_fields m fs))
  ]
