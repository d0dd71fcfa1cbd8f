-- ===== src/Auth/Injector/Equipped.antt =====
-- An injector that is built from a configuration fails none of its assertions.
use specmcp.Prelude.{
  is_some, String, ◌≡◌, refl, eq_refl, subst, Bool, true, ◌&&◌, ◌==◌, Option, none, some, [], ◌∷◌,
  all, Bool-cases, Option-cases, inl, inr, arith,
}
use specmcp.Prelude.Dict.{Dict, get, set, get-set, all-set}
use specmcp.Errors.Loaded.{loaded, >>=-eq-loaded, loaded_injective}
use specmcp.Config.{SchemeConfig, api_key, bearer, client_credentials, authorization_code}
use specmcp.Config.Env.{resolve_value_from}
use specmcp.Config.Schemes.{static_from, resolve_values_from, resolve_auth_values}
use specmcp.Auth.Injector.{ResolvedScheme, Caches}
use specmcp.Auth.Injector.Build.{build_from, build}

-- What a handler asserts of a scheme of a type.
abbrev pub is_equipped_as : SchemeConfig → Caches → ResolvedScheme → Bool
is_equipped_as (api_key place name value_from) caches r = is_some r.credential
is_equipped_as (bearer value_from) caches r = is_some r.credential
is_equipped_as (client_credentials cfg) caches r =
    is_some r.oauth_client_id
    && (is_some r.oauth_client_secret && is_some (get caches r.scheme_name))
is_equipped_as (authorization_code cfg) caches r = true

abbrev pub is_equipped : Caches → String × ResolvedScheme → Bool
is_equipped caches (name, r) = is_equipped_as r.config caches r

-- What has a value in one dictionary has one in the other.
abbrev pub Keeps {ℓ} : {V : Type ℓ} → Dict V → Dict V → Type 0
Keeps a b = (k : String) → is_some (get a k) ≡ true → is_some (get b k) ≡ true

pub Keeps-set {ℓ} : {V : Type ℓ} (d : Dict V) (k : String) (v : V) → Keeps d (set d k v)
Keeps-set d k v j h = elim (Bool-cases (k == j)) [
  | inl same ↦ rw get-set (rw same refl)
  | inr differ ↦ rw get-set (rw differ h)
]

pub Keeps-is_equipped_as :
    (cfg : SchemeConfig) (a b : Caches) (r : ResolvedScheme)
    → Keeps a b
    → is_equipped_as cfg a r ≡ true
    → is_equipped_as cfg b r ≡ true
Keeps-is_equipped_as (api_key place name value_from) a b r k h = h
Keeps-is_equipped_as (bearer value_from) a b r k h = h
Keeps-is_equipped_as (client_credentials cfg) a b r k h = ground (arith, h, k r.scheme_name)
Keeps-is_equipped_as (authorization_code cfg) a b r k h = refl

pub Keeps-all :
    (schemes : Dict ResolvedScheme) (a b : Caches)
    → Keeps a b
    → all (is_equipped a) schemes ≡ true
    → all (is_equipped b) schemes ≡ true
Keeps-all [] a b k h = refl
Keeps-all ((name, r) ∷ schemes) a b k h =
    let first : is_equipped_as r.config a r ≡ true = ground (arith, h) in
    rw (Keeps-is_equipped_as r.config a b r k first) (Keeps-all schemes a b k (rw first at h))

-- A scheme with a static value has it among the values.
abbrev has_value : Option String → Option String → Bool
has_value none o = true
has_value (some raw) o = is_some o

abbrev has_static : Dict String → String × SchemeConfig → Bool
has_static static_values (name, cfg) = has_value (static_from cfg) (get static_values name)

resolve_values_from-has_static :
    (env : Dict String) (configs : Dict SchemeConfig) (acc static_values : Dict String)
    → resolve_values_from env configs acc ≡ loaded static_values
    → Keeps acc static_values × (all (has_static static_values) configs ≡ true)
unfolding resolve_values_from
resolve_values_from-has_static env [] acc static_values h =
    (λ k p. subst (λ d. is_some (get d k) ≡ true) (loaded_injective h) p, refl)
resolve_values_from-has_static env ((name, cfg) ∷ configs) acc static_values h =
    elim (Option-cases (static_from cfg)) [
      | inl oauth ↦
          let (keeps, rest) =
            resolve_values_from-has_static env configs acc static_values
              (rw (oauth, resolve_values_from) at h) in
          (keeps, rw oauth rest)
      | inr (raw, static) ↦
          let (value, found, h1) =
            >>=-eq-loaded (resolve_value_from env raw) _ (rw (static, resolve_values_from) at h) in
          let (keeps, rest) =
            resolve_values_from-has_static env configs (set acc name value) static_values h1 in
          let here : is_some (get static_values name) ≡ true =
            keeps name (rw get-set (rw eq_refl refl)) in
          (λ k p. keeps k (Keeps-set acc name value k p), rw static (rw here rest))
    ]

abbrev pub built : Dict ResolvedScheme × Caches → Bool
built (schemes, caches) = all (is_equipped caches) schemes

module _ (env static_values : Dict String) where
  build_from-built :
      (configs : Dict SchemeConfig) (b after : Dict ResolvedScheme × Caches)
      → all (has_static static_values) configs ≡ true
      → built b ≡ true
      → build_from env static_values configs b ≡ loaded after
      → built after ≡ true
  unfolding build_from
  build_from-built [] b after h e k = subst (λ d. built d ≡ true) (loaded_injective k) e
  build_from-built ((name, client_credentials cfg) ∷ configs) (schemes, caches) after h e k =
      let (client_id, one, k1) = >>=-eq-loaded (resolve_value_from env cfg.client_id_from) _ k in
      let (client_secret, two, k2) =
        >>=-eq-loaded (resolve_value_from env cfg.client_secret_from) _ k1 in
      let own : is_some (get (set caches name none) name) ≡ true = rw get-set (rw eq_refl refl) in
      let kept = Keeps-all schemes caches (set caches name none) (Keeps-set caches name none) e in
      build_from-built configs _ after h
        (all-set (is_equipped (set caches name none)) schemes name _ kept (rw own refl)) k2
  build_from-built ((name, authorization_code cfg) ∷ configs) (schemes, caches) after h e k =
      build_from-built configs _ after h (all-set (is_equipped caches) schemes name _ e refl) k
  build_from-built ((name, api_key place n v) ∷ configs) (schemes, caches) after h e k =
      let first : is_some (get static_values name) ≡ true = ground (arith, h) in
      build_from-built configs _ after (ground (arith, h))
        (all-set (is_equipped caches) schemes name _ e first) k
  build_from-built ((name, bearer v) ∷ configs) (schemes, caches) after h e k =
      let first : is_some (get static_values name) ≡ true = ground (arith, h) in
      build_from-built configs _ after (ground (arith, h))
        (all-set (is_equipped caches) schemes name _ e first) k

-- What is built has for each scheme what its handler needs.
pub build-built :
    (env : Dict String) (config : Option (Dict SchemeConfig)) (b : Dict ResolvedScheme × Caches)
    → build env config ≡ loaded b
    → built b ≡ true
unfolding build
build-built env none b h = subst (λ d. built d ≡ true) (loaded_injective h) refl
build-built env (some configs) b h =
    let (static_values, found, h1) = >>=-eq-loaded (resolve_auth_values env configs) _ h in
    let (_, all_static) = resolve_values_from-has_static env configs [] static_values found in
    build_from-built env static_values configs ([], []) b all_static refl h1
