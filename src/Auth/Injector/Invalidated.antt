-- ===== src/Auth/Injector/Invalidated.antt =====
-- Which caches are invalidated.
use specmcp.Prelude.{
  is_some, String, ◌≡◌, refl, sym, ap, ap₂, ◌∙◌, Bool, true, false, ◌||◌, ◌==◌, eq_iff, Option,
  none, some, List, [], ◌∷◌, any, arith, Bool-cases, inl, inr,
}
use specmcp.Prelude.Dict.{get, get-set}
use specmcp.Model.{AuthRequirement}
use specmcp.Auth.TokenCache.{TokenCache}
use specmcp.Auth.Injector.{
  Caches, Invalidated, invalidate_one, invalidate_group, invalidate_groups,
  invalidate_cached_tokens,
}

-- The requirements name the scheme.
abbrev pub names_in : String → List AuthRequirement → Bool
names_in name group = any (λ r. r.scheme_name == name) group

abbrev pub named : String → List (List AuthRequirement) → Bool
named name groups = any (names_in name) groups

-- A cache without its token.
abbrev pub cleared : Bool → Option TokenCache → Option TokenCache
cleared false o = o
cleared true none = none
cleared true (some cache) = some none

cleared_twice : (a b : Bool) (o : Option TokenCache) → cleared b (cleared a o) ≡ cleared (a || b) o
cleared_twice false b o = refl
cleared_twice true false o = refl
cleared_twice true true none = refl
cleared_twice true true (some cache) = refl

is_some-cleared : (a : Bool) (o : Option TokenCache) → is_some (cleared a o) ≡ is_some o
is_some-cleared false o = refl
is_some-cleared true none = refl
is_some-cleared true (some cache) = refl

get-invalidate_one :
    (name other : String) (s : Invalidated)
    → get (invalidate_one name s).0 other ≡ cleared (name == other) (get s.0 other)
get-invalidate_one name other (caches, done) = go (get caches name) refl
  where
    go :
        (o : Option TokenCache)
        → get caches name ≡ o
        → get (invalidate_one name (caches, done)).0 other
          ≡ cleared (name == other) (get caches other)
    go none e = elim (Bool-cases (name == other)) [
      | inl same ↦
          let p : name ≡ other = (eq_iff name other).0 same in
          rw (e, invalidate_one) (rw same (rw (sym p, e) refl))
      | inr differ ↦ rw (e, invalidate_one) (rw differ refl)
    ]
    go (some cache) e = elim (Bool-cases (name == other)) [
      | inl same ↦
          let p : name ≡ other = (eq_iff name other).0 same in
          let q : get caches other ≡ some cache = ap (λ (k : String). get caches k) (sym p) ∙ e in
          rw (e, invalidate_one) (rw (get-set, same, q) refl)
      | inr differ ↦ rw (e, invalidate_one) (rw (get-set, differ) refl)
    ]

done-invalidate_one :
    (name : String) (s : Invalidated) → (invalidate_one name s).1 ≡ (s.1 || is_some (get s.0 name))
done-invalidate_one name (caches, done) = go (get caches name) refl
  where
    go :
        (o : Option TokenCache)
        → get caches name ≡ o
        → (invalidate_one name (caches, done)).1 ≡ (done || is_some (get caches name))
    go none e = rw (e, invalidate_one) (ground arith)
    go (some cache) e = rw (e, invalidate_one) (ground arith)

-- Some scheme of the requirements has a cache.
abbrev pub any_cached : Caches → List AuthRequirement → Bool
any_cached caches group = any (λ r. is_some (get caches r.scheme_name)) group

abbrev pub any_group_cached : Caches → List (List AuthRequirement) → Bool
any_group_cached caches groups = any (any_cached caches) groups

-- The same schemes have caches.
abbrev SameCached : Caches → Caches → Type 0
SameCached a b = (name : String) → is_some (get a name) ≡ is_some (get b name)

any_cached-same :
    (a b : Caches) (group : List AuthRequirement)
    → SameCached a b
    → any_cached a group ≡ any_cached b group
any_cached-same a b [] h = refl
any_cached-same a b (r ∷ group) h =
    ap₂ (λ (x y : Bool). x || y) (h r.scheme_name) (any_cached-same a b group h)

any_group_cached-same :
    (a b : Caches) (groups : List (List AuthRequirement))
    → SameCached a b
    → any_group_cached a groups ≡ any_group_cached b groups
any_group_cached-same a b [] h = refl
any_group_cached-same a b (g ∷ groups) h =
    ap₂ (λ (x y : Bool). x || y) (any_cached-same a b g h) (any_group_cached-same a b groups h)

get-invalidate_group :
    (group : List AuthRequirement) (s : Invalidated) (other : String)
    → get (invalidate_group group s).0 other ≡ cleared (names_in other group) (get s.0 other)
unfolding invalidate_group
get-invalidate_group [] s other = refl
get-invalidate_group (r ∷ group) s other =
    get-invalidate_group group (invalidate_one r.scheme_name s) other
    ∙ ap (cleared (names_in other group)) (get-invalidate_one r.scheme_name other s)
    ∙ cleared_twice (r.scheme_name == other) (names_in other group) (get s.0 other)

SameCached-invalidate_one :
    (name : String) (s : Invalidated) → SameCached (invalidate_one name s).0 s.0
SameCached-invalidate_one name s other =
    ap is_some (get-invalidate_one name other s) ∙ is_some-cleared (name == other) (get s.0 other)

SameCached-invalidate_group :
    (group : List AuthRequirement) (s : Invalidated) → SameCached (invalidate_group group s).0 s.0
SameCached-invalidate_group group s other =
    ap is_some (get-invalidate_group group s other)
    ∙ is_some-cleared (names_in other group) (get s.0 other)

or_assoc : (a b c : Bool) → ((a || b) || c) ≡ (a || (b || c))
or_assoc true b c = refl
or_assoc false b c = refl

done-invalidate_group :
    (group : List AuthRequirement) (s : Invalidated)
    → (invalidate_group group s).1 ≡ (s.1 || any_cached s.0 group)
unfolding invalidate_group
done-invalidate_group [] s = ground arith
done-invalidate_group (r ∷ group) s =
    done-invalidate_group group (invalidate_one r.scheme_name s)
    ∙ ap₂ (λ (x y : Bool). x || y) (done-invalidate_one r.scheme_name s)
        (any_cached-same _ s.0 group (SameCached-invalidate_one r.scheme_name s))
    ∙ or_assoc s.1 (is_some (get s.0 r.scheme_name)) (any_cached s.0 group)

get-invalidate_groups :
    (groups : List (List AuthRequirement)) (s : Invalidated) (other : String)
    → get (invalidate_groups groups s).0 other ≡ cleared (named other groups) (get s.0 other)
unfolding invalidate_groups
get-invalidate_groups [] s other = refl
get-invalidate_groups (g ∷ groups) s other =
    get-invalidate_groups groups (invalidate_group g s) other
    ∙ ap (cleared (named other groups)) (get-invalidate_group g s other)
    ∙ cleared_twice (names_in other g) (named other groups) (get s.0 other)

done-invalidate_groups :
    (groups : List (List AuthRequirement)) (s : Invalidated)
    → (invalidate_groups groups s).1 ≡ (s.1 || any_group_cached s.0 groups)
unfolding invalidate_groups
done-invalidate_groups [] s = ground arith
done-invalidate_groups (g ∷ groups) s =
    done-invalidate_groups groups (invalidate_group g s)
    ∙ ap₂ (λ (x y : Bool). x || y) (done-invalidate_group g s)
        (any_group_cached-same _ s.0 groups (SameCached-invalidate_group g s))
    ∙ or_assoc s.1 (any_cached s.0 g) (any_group_cached s.0 groups)

-- Invalidation takes the token out of the cache of each scheme that the requirements name, leaves
-- all other caches, and tells whether one of the schemes named has a cache.
pub invalidate_cached_tokens_lem :
    (requirements : List (List AuthRequirement)) (caches : Caches) (name : String)
    → (get (invalidate_cached_tokens requirements caches).0 name
        ≡ cleared (named name requirements) (get caches name))
      × ((invalidate_cached_tokens requirements caches).1 ≡ any_group_cached caches requirements)
unfolding invalidate_cached_tokens
invalidate_cached_tokens_lem requirements caches name = (
  get-invalidate_groups requirements (caches, false) name,
  done-invalidate_groups requirements (caches, false),
)
