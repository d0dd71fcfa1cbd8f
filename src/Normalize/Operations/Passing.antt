-- ===== src/Normalize/Operations/Passing.antt =====
-- When an operation passes the filters of Normalize, said filter by filter.
use specmcp.Prelude.{
  elem_of_eq, elem_later, eq_iff, String, ◌≡◌, refl, ◌⊎◌, inl, inr, Bool, true, false, not, ◌&&◌,
  ◌||◌, List, [], ◌∷◌, elem, any, arith, is_empty, Bool-cases,
}
use specmcp.Normalize.Operations.{Filters, is_kept}

-- An operation of this name, with these tags, passes the filters: it is not deprecated unless those are
-- included, it has a tag and a name that is asked for where any are, and none that is excluded.
pub record Passes (f : Filters) (name : String) (tags : List String) (deprecated : Bool)
    : Type 0 where
  pub current : (f.include_deprecated ≡ true) ⊎ (deprecated ≡ false)
  pub tag_asked :
      (f.include_tags ≡ []) ⊎ ((t : String) × (elem t tags ≡ true) × (elem t f.include_tags ≡ true))
  pub no_tag_excluded : (t : String) → (elem t tags && elem t f.exclude_tags) ≡ false
  pub name_asked : (f.include_operations ≡ []) ⊎ (elem name f.include_operations ≡ true)
  pub name_not_excluded : elem name f.exclude_operations ≡ false

any_some :
    (p : String → Bool) (xs : List String)
    → any p xs ≡ true
    → (t : String) × (elem t xs ≡ true) × (p t ≡ true)
any_some p [] h = cc
any_some p (x ∷ xs) h = elim (Bool-cases (p x)) [
  | inl first ↦ (x, elem_of_eq x x xs refl, first)
  | inr other ↦
      let (t, member, holds) = any_some p xs (rw other at h) in (t, elem_later t x xs member, holds)
]

any_of :
    (p : String → Bool) (xs : List String) (t : String)
    → elem t xs ≡ true
    → p t ≡ true
    → any p xs ≡ true
any_of p [] t h k = cc
any_of p (x ∷ xs) t h k = ground (arith, eq_iff x t, any_of p xs t)

and_both : (a b : Bool) → (a && b) ≡ true → (a ≡ true) × (b ≡ true)
and_both true b h = (refl, h)
and_both false b h = cc

current_of : (i d : Bool) → not (not i && d) ≡ true → (i ≡ true) ⊎ (d ≡ false)
current_of i d h = ground arith

pub apart : {b : Bool} → b ≡ true → b ≡ false → ⊥
apart h k = cc

module _ (xs : List String) where
  -- A list that asks for something.
  asked : (b : Bool) → (is_empty xs || b) ≡ true → (xs ≡ []) ⊎ (b ≡ true)
  asked b h = go xs h
    where
      go : (ys : List String) → (is_empty ys || b) ≡ true → (ys ≡ []) ⊎ (b ≡ true)
      go [] h = inl refl
      go (y ∷ ys) h = inr h

  asked_back : (b : Bool) → (xs ≡ []) ⊎ (b ≡ true) → (is_empty xs || b) ≡ true
  asked_back b (inl e) = rw e refl
  asked_back b (inr h) = ground arith

  name_excluded :
      (name : String) → not (not (is_empty xs) && elem name xs) ≡ true → elem name xs ≡ false
  name_excluded name h = go xs h
    where
      go :
          (ys : List String) → not (not (is_empty ys) && elem name ys) ≡ true → elem name ys ≡ false
      go [] h = refl
      go (y ∷ ys) h = ground arith

  tags_excluded :
      (tags : List String) (t : String)
      → not (not (is_empty xs) && any (λ u. elem u xs) tags) ≡ true
      → (elem t tags && elem t xs) ≡ false
  tags_excluded tags t h = elim (Bool-cases (elem t tags && elem t xs)) [
    | inr apart ↦ apart
    | inl both ↦
        let member : elem t tags ≡ true = ground arith in
        let bad : elem t xs ≡ true = ground arith in
        let found : any (λ u. elem u xs) tags ≡ true = any_of (λ u. elem u xs) tags t member bad in
        let missing : elem t xs ≡ false = go xs (rw found at h) in cc
  ]
    where
      go : (ys : List String) → not (not (is_empty ys) && true) ≡ true → elem t ys ≡ false
      go [] h = refl
      go (y ∷ ys) h = cc

  tags_excluded_back :
      (tags : List String)
      → ((t : String) → (elem t tags && elem t xs) ≡ false)
      → not (not (is_empty xs) && any (λ u. elem u xs) tags) ≡ true
  tags_excluded_back tags apart = elim (Bool-cases (any (λ u. elem u xs) tags)) [
    | inr none_found ↦ rw none_found (ground arith)
    | inl found ↦
        let (t, member, bad) = any_some (λ u. elem u xs) tags found in
        let p : (elem t tags && elem t xs) ≡ false = apart t in absurd (ground arith)
  ]

module _ (f : Filters) (name : String) (tags : List String) (deprecated : Bool) where
  pub Passes-is_kept : is_kept f name tags deprecated ≡ true → Passes f name tags deprecated
  unfolding is_kept
  Passes-is_kept h =
      let (h1, r1) = and_both _ _ h in
      let (h2, r2) = and_both _ _ r1 in
      let (h3, r3) = and_both _ _ r2 in
      let (h4, h5) = and_both _ _ r3 in
      record {
        current = current_of f.include_deprecated deprecated h1;
        tag_asked = elim (asked f.include_tags _ h2) [
          | inl e ↦ inl e
          | inr found ↦ inr (any_some (λ t. elem t f.include_tags) tags found)
        ];
        no_tag_excluded = λ t. tags_excluded f.exclude_tags tags t h3;
        name_asked = asked f.include_operations _ h4;
        name_not_excluded = name_excluded f.exclude_operations name h5;
      }

  pub is_kept-Passes : Passes f name tags deprecated → is_kept f name tags deprecated ≡ true
  unfolding is_kept
  is_kept-Passes p =
      let h1 : not (not f.include_deprecated && deprecated) ≡ true = ground (arith, p.current) in
      let h2 : (is_empty f.include_tags || any (λ t. elem t f.include_tags) tags) ≡ true =
        asked_back f.include_tags _ (elim p.tag_asked [
          | inl e ↦ inl e
          | inr (t, member, bad) ↦ inr (any_of (λ t. elem t f.include_tags) tags t member bad)
        ]) in
      let h3 = tags_excluded_back f.exclude_tags tags p.no_tag_excluded in
      let h4 = asked_back f.include_operations _ p.name_asked in
      rw (h1, h2) (rw (h3, h4) (rw p.name_not_excluded (ground arith)))
