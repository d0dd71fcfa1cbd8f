-- ===== src/Simplify/Description/Bounded.antt =====
-- The HTTP hint and the length of a tool's description.
use Prim.Native.String.{[], ◌∷◌, ◌++◌, count}
use text.Mathlib.TextLemmas.{
  nil-append, cons-append, append_assoc, length-nil, length-cons, length-append,
}
use specmcp.Prelude.{
  ℕ, ◌+◌, ◌-◌, ◌≤◌, ◌⊎◌, Char, String, ◌≡◌, refl, sym, Bool, ◌&&◌, arith, if◌then◌else◌, ltb,
  Bool-cases, inl, inr,
}
use specmcp.Prelude.Text.{count-take-le, take, lstrip, rstrip, strip, is_space, is_nil}
use specmcp.Model.{Operation}
use specmcp.Naming.Method.{method_name}
use specmcp.Simplify.Description.{
  cap_description, http_hint, description_base, build_llm_description,
}

count-rstrip : (p : Char → Bool) (s : String) → count (rstrip p s) ≤ count s
unfolding rstrip
count-rstrip p [] = omega arith
count-rstrip p (c ∷ s) = elim (Bool-cases (is_nil (rstrip p s) && p c)) [
  | inl gone ↦ rw (gone, length-nil) (omega arith)
  | inr kept ↦ rw (kept, length-cons, length-cons) (omega (arith, count-rstrip p s))
]

-- A text that is in brackets keeps its place at the end when the whole is stripped.
module _ (body : String) where
  abbrev bracketed : String
  bracketed = "[" ++ (body ++ "]")

  abbrev IsBefore : String → Type 0
  IsBefore s = (before : String) × (s ≡ before ++ bracketed)

  rstrip-close : (s : String) → rstrip is_space (s ++ "]") ≡ s ++ "]"
  unfolding rstrip
  rstrip-close [] = rw nil-append refl
  rstrip-close (c ∷ s) = rw (cons-append, rstrip-close s) (settle s c)
    where
      settle :
          (s : String) (c : Char)
          → (if is_nil (s ++ "]") && is_space c then [] else c ∷ (s ++ "]")) ≡ c ∷ (s ++ "]")
      settle [] c = rw nil-append refl
      settle (d ∷ s) c = rw cons-append refl

  rstrip-bracketed : (s : String) → rstrip is_space (s ++ bracketed) ≡ s ++ bracketed
  rstrip-bracketed s =
      let regroup : s ++ bracketed ≡ ((s ++ "[") ++ body) ++ "]" =
        rw (append_assoc, append_assoc) refl in
      rw regroup (rstrip-close ((s ++ "[") ++ body))

  lstrip-bracketed : (s : String) → IsBefore (lstrip is_space (s ++ bracketed))
  unfolding lstrip
  lstrip-bracketed [] = ([], rw (nil-append, cons-append) refl)
  lstrip-bracketed (c ∷ s) = elim (Bool-cases (is_space c)) [
    | inl space ↦ rw (cons-append, space) (lstrip-bracketed s)
    | inr other ↦ rw (cons-append, other) (c ∷ s, sym (cons-append c s bracketed))
  ]

  strip-bracketed : (s : String) → IsBefore (strip is_space (s ++ bracketed))
  unfolding strip
  strip-bracketed s =
      let (before, e) = lstrip-bracketed s in (before, rw (e, rstrip-bracketed before) refl)

  whole : IsBefore bracketed
  whole = ([], sym (nil-append bracketed))

  joined : (base : String) → IsBefore (strip is_space (base ++ (" " ++ bracketed)))
  joined base = rw append_assoc at (strip-bracketed (base ++ " "))

  cap-IsBefore :
      (max_chars : ℕ) (base : String) → IsBefore (cap_description max_chars base bracketed)
  unfolding cap_description
  cap-IsBefore max_chars base =
      let full = if is_nil base then bracketed else strip is_space (base ++ (" " ++ bracketed)) in
      let available = max_chars - count bracketed - 1 in
      let cut = rstrip is_space (take available base) in
      elim (Bool-cases (ltb max_chars (count full))) [
        | inl long ↦ elim (Bool-cases (ltb 0 available)) [
          | inl some_left ↦
              rw (long, some_left, cap_description) (cut ++ "… ", rw append_assoc refl)
          | inr none_left ↦ rw (long, none_left, cap_description) whole
        ]
        | inr short ↦
            rw (short, cap_description)
              (elim (Bool-cases (is_nil base)) [
                | inl no_base ↦ rw no_base whole
                | inr some_base ↦ rw some_base (joined base)
              ])
      ]

cap-length :
    (max_chars : ℕ) (base hint : String)
    → (count (cap_description max_chars base hint) ≤ max_chars + 1)
      ⊎ (cap_description max_chars base hint ≡ hint)
unfolding cap_description
cap-length max_chars base hint =
    let full = if is_nil base then hint else strip is_space (base ++ (" " ++ hint)) in
    let available = max_chars - count hint - 1 in
    let cut = rstrip is_space (take available base) in
    elim (Bool-cases (ltb max_chars (count full))) [
      | inl long ↦ elim (Bool-cases (ltb 0 available)) [
        | inl some_left ↦ inl (
            rw
              (
                long,
                some_left,
                cap_description,
                length-append cut ("… " ++ hint),
                length-append "… " hint,
              )
              (ground
                (arith, count-rstrip is_space (take available base), count-take-le available base)))
        | inr none_left ↦ inr (rw (long, none_left, cap_description) refl)
      ]
      | inr short ↦ inl (rw (short, cap_description) (ground arith))
    ]

-- A tool's description ends with its HTTP hint, and it has at most one character more than the
-- limit unless it is the hint alone.
pub build_llm_description_lem :
    (max_chars : ℕ) (op : Operation)
    → ((before : String) × (build_llm_description max_chars op ≡ before ++ http_hint op))
      × ((count (build_llm_description max_chars op) ≤ max_chars + 1)
          ⊎ (build_llm_description max_chars op ≡ http_hint op))
unfolding build_llm_description http_hint
build_llm_description_lem max_chars op =
    let body = method_name op.method ++ (" " ++ op.path) in
    let regroup : "[" ++ (method_name op.method ++ (" " ++ (op.path ++ "]"))) ≡ bracketed body =
      rw (append_assoc, append_assoc) refl in
    (
      rw regroup (cap-IsBefore body max_chars (description_base op)),
      cap-length max_chars (description_base op) (http_hint op),
    )
