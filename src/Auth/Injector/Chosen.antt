-- ===== src/Auth/Injector/Chosen.antt =====
-- Which group of requirements is applied.
use specmcp.Prelude.{◌≡◌, refl, Bool, true, false, not, ◌&&◌, List, [], ◌∷◌, ◌++◌, all}
use specmcp.Model.{AuthRequirement}
use specmcp.Errors.Result.{err, auth_config}
use specmcp.Auth.Injector.{
  Injector, Caches, Credentials, group_is_satisfied, apply_group, inject_first, inject,
}

-- No group has all its schemes configured.
abbrev pub none_satisfied : Injector → List (List AuthRequirement) → Bool
none_satisfied inj groups = all (λ group. not (group_is_satisfied inj group)) groups

false-not_and : (a b : Bool) → (not a && b) ≡ true → (a ≡ false) × (b ≡ true)
false-not_and true b h = cc
false-not_and false b h = (refl, h)

inject_first-chosen :
    (inj : Injector) (before : List (List AuthRequirement)) (group : List AuthRequirement)
    (after : List (List AuthRequirement)) (caches : Caches) (c : Credentials)
    → none_satisfied inj before ≡ true
    → group_is_satisfied inj group ≡ true
    → inject_first inj (before ++ group ∷ after) caches c ≡ apply_group inj group caches c
unfolding inject_first
inject_first-chosen inj [] group after caches c h k = rw k refl
inject_first-chosen inj (g ∷ before) group after caches c h k =
    let (here, later) = false-not_and (group_is_satisfied inj g) (none_satisfied inj before) h in
    rw (here, inject_first) (inject_first-chosen inj before group after caches c later k)

-- The first group whose schemes are all configured is applied, and no other one.
pub inject_lem :
    (inj : Injector) (before : List (List AuthRequirement)) (group : List AuthRequirement)
    (after : List (List AuthRequirement)) (caches : Caches) (c : Credentials)
    → none_satisfied inj before ≡ true
    → group_is_satisfied inj group ≡ true
    → inject inj (before ++ group ∷ after) caches c ≡ apply_group inj group caches c
unfolding inject
inject_lem inj [] group after caches c h k = inject_first-chosen inj [] group after caches c h k
inject_lem inj (g ∷ before) group after caches c h k =
    inject_first-chosen inj (g ∷ before) group after caches c h k

inject_first-none :
    (inj : Injector) (groups : List (List AuthRequirement)) (caches : Caches) (c : Credentials)
    → none_satisfied inj groups ≡ true
    → inject_first inj groups caches c ≡ (caches, err auth_config)
unfolding inject_first
inject_first-none inj [] caches c h = refl
inject_first-none inj (g ∷ groups) caches c h =
    let (here, later) = false-not_and (group_is_satisfied inj g) (none_satisfied inj groups) h in
    rw (here, inject_first) (inject_first-none inj groups caches c later)
