-- ===== src/Auth/Injector/Asserted.antt =====
-- Injecting with what was built from a configuration: no assertion fails.
use specmcp.Prelude.{
  is_some, ℕ, String, ◌≡◌, refl, Bool, true, false, ◌&&◌, Option, none, some, List, [], ◌∷◌, all,
  Bool-cases, Option-cases, inl, inr, arith, is_empty,
}
use specmcp.Prelude.Dict.{Dict, get, all-get}
use specmcp.Model.{AuthRequirement}
use specmcp.Errors.Result.{Error, Result, ok, err, python_error}
use specmcp.Errors.Loaded.{loaded}
use specmcp.Config.{
  SchemeConfig, ClientCredentialsConfig, api_key, bearer, client_credentials, authorization_code,
}
use specmcp.Auth.TokenCache.{CachedToken, TokenCache, get_or_refresh, is_expired}
use specmcp.Prelude.Dict.{has-get}
use specmcp.Auth.ClientCredentials.{client_request, fetched_token}
use specmcp.Auth.Injector.{
  ResolvedScheme, Injector, Injected, Caches, Credentials, fetch_with, bearer_result,
  with_credential, apply_client_credentials, inject_scheme, then_apply, apply_group,
  group_is_satisfied, inject_first, inject,
}
use specmcp.Auth.Injector.Build.{build}
use specmcp.Auth.Injector.Equipped.{
  is_equipped_as, is_equipped, build-built, Keeps, Keeps-set, Keeps-all,
}
use specmcp.Oauth.Exchange.{TokenRequest}

-- No failed assertion, and no other exception of Python.
abbrev pub is_clean_error : Error → Bool
is_clean_error python_error = false
is_clean_error e = true

abbrev pub is_clean {ℓ} : {A : Type ℓ} → Result A → Bool
is_clean (ok a) = true
is_clean (err e) = is_clean_error e

is_clean-get_or_refresh :
    (buffer now : ℕ) (fetched : Result CachedToken) (cache : TokenCache)
    → is_clean fetched ≡ true
    → is_clean (get_or_refresh buffer now fetched cache).1 ≡ true
unfolding get_or_refresh
is_clean-get_or_refresh buffer now (ok t) none h = refl
is_clean-get_or_refresh buffer now (ok t) (some u) h = elim (Bool-cases (is_expired buffer now u)) [
  | inl old ↦ rw old refl
  | inr fresh ↦ rw fresh refl
]
is_clean-get_or_refresh buffer now (err e) none h = h
is_clean-get_or_refresh buffer now (err e) (some u) h =
    elim (Bool-cases (is_expired buffer now u)) [ inl old ↦ rw old h | inr fresh ↦ rw fresh refl ]

is_clean-bearer_result :
    (r : Result String) (c : Credentials) → is_clean r ≡ true → is_clean (bearer_result r c) ≡ true
is_clean-bearer_result (ok token) c h = refl
is_clean-bearer_result (err e) c h = h

is_clean-with_credential :
    (o : Option String) (f : String → Credentials)
    → is_some o ≡ true
    → is_clean (with_credential o f) ≡ true
is_clean-with_credential none f h = cc
is_clean-with_credential (some value) f h = refl

-- What an injection from some caches leaves.
abbrev Sound : Caches → Injected → Type 0
Sound caches r = Keeps caches r.0 × (is_clean r.1 ≡ true)

module _ (inj : Injector)
    (answers : (request : TokenRequest)
      → is_clean (fetched_token inj.python inj.answered_at (inj.post request)) ≡ true)
    (handlers : (name : String) (handler : Credentials → Result Credentials) (c : Credentials)
      → get inj.auth_code_handlers name ≡ some handler
      → is_clean (handler c) ≡ true) where
  is_clean-fetch_with :
      (cfg : ClientCredentialsConfig) (client_id client_secret : Option String)
      → (is_some client_id && is_some client_secret) ≡ true
      → is_clean (fetch_with inj cfg client_id client_secret) ≡ true
  unfolding client_request
  is_clean-fetch_with cfg (some i) (some s) h = answers (client_request cfg i s)
  is_clean-fetch_with cfg none s h = cc
  is_clean-fetch_with cfg (some i) none h = cc

  apply_client_credentials-Sound :
      (r : ResolvedScheme) (cfg : ClientCredentialsConfig) (caches : Caches) (c : Credentials)
      → is_equipped_as (client_credentials cfg) caches r ≡ true
      → Sound caches (apply_client_credentials inj r cfg caches c)
  unfolding apply_client_credentials
  apply_client_credentials-Sound r cfg caches c h = elim (Option-cases (get caches r.scheme_name)) [
    | inl absent ↦ absurd (ground (arith, h, absent))
    | inr (cache, found) ↦
        rw (found, apply_client_credentials)
          (
            Keeps-set caches r.scheme_name _,
            is_clean-bearer_result _ c (
                is_clean-get_or_refresh inj.buffer inj.now _ cache (
                  is_clean-fetch_with cfg r.oauth_client_id r.oauth_client_secret
                    (ground (arith, h)))),
          )
  ]

  inject_as-Sound :
      (cfg : SchemeConfig) (r : ResolvedScheme) (caches : Caches) (c : Credentials)
      → r.config ≡ cfg
      → is_equipped_as cfg caches r ≡ true
      → Sound caches (inject_scheme inj r caches c)
  unfolding inject_scheme
  inject_as-Sound (api_key place name v) r caches c e h =
      rw (e, inject_scheme) (λ k p. p, is_clean-with_credential r.credential _ h)
  inject_as-Sound (bearer v) r caches c e h = elim (Option-cases inj.client_token) [
    | inl absent ↦
        rw (e, inject_scheme) (rw absent (λ k p. p, is_clean-with_credential r.credential _ h))
    | inr (token, given) ↦ rw (e, inject_scheme) (rw given (λ k p. p, refl))
  ]
  inject_as-Sound (client_credentials cfg) r caches c e h =
      rw (e, inject_scheme) (apply_client_credentials-Sound r cfg caches c h)
  inject_as-Sound (authorization_code cfg) r caches c e h =
      elim (Option-cases (get inj.auth_code_handlers r.scheme_name)) [
        | inl absent ↦ rw (e, inject_scheme) (rw absent (λ k p. p, refl))
        | inr (handler, found) ↦
            rw (e, inject_scheme) (rw found (λ k p. p, handlers r.scheme_name handler c found))
      ]

  is_clean-then_apply :
      (caches : Caches) (r : Injected) (f : Caches → Credentials → Injected)
      → Sound caches r
      → ((d : Caches) (c : Credentials) → Keeps caches d → is_clean (f d c).1 ≡ true)
      → is_clean (then_apply r f).1 ≡ true
  is_clean-then_apply caches (d, ok c) f (keeps, h) g = g d c keeps
  is_clean-then_apply caches (d, err e) f (keeps, h) g = h

  apply_group-is_clean :
      (group : List AuthRequirement) (caches : Caches) (c : Credentials)
      → all (is_equipped caches) inj.schemes ≡ true
      → group_is_satisfied inj group ≡ true
      → is_clean (apply_group inj group caches c).1 ≡ true
  unfolding apply_group
  apply_group-is_clean [] caches c h sat = refl
  apply_group-is_clean (req ∷ group) caches c h sat =
      let here : is_some (get inj.schemes req.scheme_name) ≡ true =
        ground (arith, sat, has-get inj.schemes req.scheme_name) in
      elim (Option-cases (get inj.schemes req.scheme_name)) [
        | inl absent ↦ cc
        | inr (r, found) ↦
            let equipped = all-get (is_equipped caches) inj.schemes req.scheme_name r h found in
            rw found (
              is_clean-then_apply caches (inject_scheme inj r caches c) (apply_group inj group)
                (inject_as-Sound r.config r caches c refl equipped)
                (λ d e k.
                  apply_group-is_clean group d e (Keeps-all inj.schemes caches d k h)
                    (ground (arith, sat))))
      ]

  inject_first-is_clean :
      (groups : List (List AuthRequirement)) (caches : Caches) (c : Credentials)
      → all (is_equipped caches) inj.schemes ≡ true
      → is_clean (inject_first inj groups caches c).1 ≡ true
  unfolding inject_first
  inject_first-is_clean [] caches c h = refl
  inject_first-is_clean (group ∷ groups) caches c h =
      elim (Bool-cases (group_is_satisfied inj group)) [
        | inl sat ↦ rw (sat, inject_first) (apply_group-is_clean group caches c h sat)
        | inr other ↦ rw (other, inject_first) (inject_first-is_clean groups caches c h)
      ]

  -- With the schemes and the caches that were built from a configuration, whatever its environment,
  -- an injection fails no assertion and meets no missing key: it gives credentials or an error of the
  -- taxonomy, if the answers of the token endpoints are read without an exception of Python and the
  -- handlers that were registered raise none.
  pub inject-build :
      (env : Dict String) (config : Option (Dict SchemeConfig)) (caches : Caches)
      (requirements : List (List AuthRequirement)) (c : Credentials)
      → build env config ≡ loaded (inj.schemes, caches)
      → is_clean (inject inj requirements caches c).1 ≡ true
  unfolding inject
  inject-build env config caches requirements c h = elim (Bool-cases (is_empty requirements)) [
    | inl none_needed ↦ rw (none_needed, inject) refl
    | inr needed ↦
        rw (needed, inject)
          (inject_first-is_clean requirements caches c
            (build-built env config (inj.schemes, caches) h))
  ]
