-- ===== src/Prelude/Text.antt =====
-- Texts as sequences of characters.
use Prim.Native.Nat.{ℕ, zero, suc, ◌+◌, ◌-◌, ◌≤◌}
use mathlib.Core.List.{List}
use Prim.Native.Char.{Char, code}
use Prim.Native.String.{String, [], ◌∷◌, ◌++◌, count}
use mathlib.Core.Path.{◌≡◌, refl, sym, ap, ◌∙◌}
use mathlib.Core.Logic.{◌⊎◌, inl, inr}
use text.Mathlib.Text.{◌==◌}
use text.Mathlib.TextEquality.{eq_iff}
use mathlib.Core.Bool.{Bool, true, false, ◌&&◌, ◌||◌}
use native.Mathlib.Omega.{arith}
use text.Mathlib.TextLemmas.{nil-append, cons-append, length-nil, length-cons, cons-ne-nil}
use specmcp.Prelude.Tests.{eqb, leb, Bool-cases, if◌then◌else◌}

abbrev pub all_chars : (Char → Bool) → String → Bool
all_chars p [] = true
all_chars p (c ∷ s) = p c && all_chars p s

abbrev pub any_char : (Char → Bool) → String → Bool
any_char p [] = false
any_char p (c ∷ s) = p c || any_char p s

abbrev pub is_nil : String → Bool
is_nil [] = true
is_nil (c ∷ s) = false

-- s[:n]
unfoldable pub take : ℕ → String → String
take zero s = []
take (suc n) [] = []
take (suc n) (c ∷ s) = c ∷ take n s

-- s.lstrip, s.rstrip and s.strip of the characters that pass `p`.
unfoldable pub lstrip : (Char → Bool) → String → String
lstrip p [] = []
lstrip p (c ∷ s) = if p c then lstrip p s else c ∷ s

unfoldable pub rstrip : (Char → Bool) → String → String
rstrip p [] = []
rstrip p (c ∷ s) = let rest = rstrip p s in if is_nil rest && p c then [] else c ∷ rest

unfoldable pub strip : (Char → Bool) → String → String
unfolding lstrip rstrip
strip p s = rstrip p (lstrip p s)

-- sep.join(parts)
unfoldable pub join : String → List String → String
join sep List.[] = ""
join sep (List.◌∷◌ s List.[]) = s
join sep (List.◌∷◌ s (List.◌∷◌ t ts)) = s ++ (sep ++ join sep (List.◌∷◌ t ts))

pub all_chars-append :
    (p : Char → Bool) (s t : String) → all_chars p (s ++ t) ≡ (all_chars p s && all_chars p t)
all_chars-append p [] t = rw nil-append refl
all_chars-append p (c ∷ s) t = rw cons-append (ground (arith, all_chars-append p s t))

-- s.startswith(t)
abbrev pub has_prefix : String → String → Bool
has_prefix s [] = true
has_prefix [] (d ∷ t) = false
has_prefix (c ∷ s) (d ∷ t) = eqb (code c) (code d) && has_prefix s t

-- The code of a character with an ASCII capital made small.
abbrev pub fold_case : Char → ℕ
fold_case c = if leb b'A' (code c) && leb (code c) b'Z' then code c + 32 else code c

-- s.lower().startswith(t), and s.lower() == t, for t in small ASCII letters other than k: besides
-- the ASCII capitals only the Kelvin sign has one ASCII letter, k, for its small form.
abbrev pub lower_has_prefix : String → String → Bool
lower_has_prefix s [] = true
lower_has_prefix [] (d ∷ t) = false
lower_has_prefix (c ∷ s) (d ∷ t) = eqb (fold_case c) (code d) && lower_has_prefix s t

abbrev pub lower_is : String → String → Bool
lower_is [] [] = true
lower_is (c ∷ s) (d ∷ t) = eqb (fold_case c) (code d) && lower_is s t
lower_is _ _ = false

-- The characters that `str.strip()` strips.
abbrev pub is_space : Char → Bool
is_space c =
    let n = code c in
    (leb 9 n && leb n 13)
    || ((leb 28 n && leb n 32)
        || (eqb n 133
            || (eqb n 160
                || (eqb n 5760
                    || ((leb 8192 n && leb n 8202)
                        || (eqb n 8232
                            || (eqb n 8233 || (eqb n 8239 || (eqb n 8287 || eqb n 12288)))))))))

-- s.replace(needle, value), where `skip` characters belong to an occurrence that was replaced.
replace_from : ℕ → String → String → String → String
replace_from skip needle value [] = []
replace_from (suc skip) needle value (c ∷ s) = replace_from skip needle value s
replace_from zero needle value (c ∷ s) =
    let replaced = value ++ replace_from (count needle - 1) needle value s in
    let kept = c ∷ replace_from zero needle value s in
    if has_prefix (c ∷ s) needle then replaced else kept

-- For a needle that is not empty.
unfoldable pub replace : String → String → String → String
unfolding replace_from
replace needle value s = replace_from zero needle value s

abbrev pub ends_with_char : (Char → Bool) → String → Bool
ends_with_char p [] = false
ends_with_char p (c ∷ s) = if is_nil s then p c else ends_with_char p s

-- Stripping on the right leaves no such character at the end.
pub ends-rstrip : (p : Char → Bool) (s : String) → ends_with_char p (rstrip p s) ≡ false
unfolding rstrip
ends-rstrip p [] = refl
ends-rstrip p (c ∷ s) = ground (arith, ends-rstrip p s)

-- The first n characters of a text that has more.
pub count-take : (n : ℕ) (s : String) → n ≤ count s → count (take n s) ≡ n
unfolding take
count-take zero s h = length-nil
count-take (suc n) [] h = absurd (omega (arith, length-nil))
count-take (suc n) (c ∷ s) h =
    rw length-cons (ap suc (count-take n s (omega (arith, length-cons c s))))

-- Taking again what was taken, whatever follows.
pub take-take-append : (n : ℕ) (s t : String) → n ≤ count s → take n (take n s ++ t) ≡ take n s
unfolding take
take-take-append zero s t h = refl
take-take-append (suc n) [] t h = absurd (omega (arith, length-nil))
take-take-append (suc n) (c ∷ s) t h =
    rw cons-append
      (ap (λ (u : String). c ∷ u) (take-take-append n s t (omega (arith, length-cons c s))))

-- At most n characters are taken.
pub count-take-le : (n : ℕ) (s : String) → count (take n s) ≤ n
unfolding take
count-take-le zero s = rw length-nil (omega arith)
count-take-le (suc n) [] = rw length-nil (omega arith)
count-take-le (suc n) (c ∷ s) = rw length-cons (omega (arith, count-take-le n s))

pub is_nil-eq : (s : String) → is_nil s ≡ (s == "")
is_nil-eq [] = refl
is_nil-eq (c ∷ s) = elim (Bool-cases (c ∷ s == "")) [
  | inl h ↦ absurd (cons-ne-nil c s ((eq_iff (c ∷ s) "").0 h))
  | inr h ↦ sym h
]

-- The first n characters of a text, or all of a shorter one.
pub record IsFirst (n : ℕ) (first whole : String) : Type 0 where
  pub rest : String
  pub split : whole ≡ first ++ rest
  pub full : (count first ≡ n) ⊎ ((count first ≤ n) × (rest ≡ ""))

pub take-IsFirst : (n : ℕ) (s : String) → IsFirst n (take n s) s
unfolding take
take-IsFirst zero s = record { rest = s; split = sym (nil-append s); full = inl length-nil }
take-IsFirst (suc n) [] = record {
  rest = "";
  split = refl;
  full = inr (rw length-nil (omega arith), refl);
}
take-IsFirst (suc n) (c ∷ s) =
    let inner = take-IsFirst n s in
    record {
      rest = inner.rest;
      split = ap (λ u. c ∷ u) inner.split ∙ sym (cons-append _ _ _);
      full = elim inner.full [
        | inl e ↦ inl (rw length-cons (omega arith))
        | inr (short, all) ↦ inr (rw length-cons (omega arith), all)
      ];
    }
