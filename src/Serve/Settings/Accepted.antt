-- ===== src/Serve/Settings/Accepted.antt =====
-- What the OAuth endpoints are started with.
use specmcp.Prelude.{
  String, ◌≡◌, ◌≢◌, refl, subst, Bool, true, not, ◌&&◌, ◌||◌, Option, none, some, is_some, [], ◌∷◌,
  all, is_empty, Bool-cases, inl, inr, arith,
}
use specmcp.Prelude.Dict.{Dict, set, all-set}
use specmcp.Prelude.Text.{is_nil}
use specmcp.Json.{Json}
use specmcp.Errors.Loaded.{Loaded, loaded, >>=-eq-loaded, loaded_injective}
use specmcp.Config.{
  AuthCodeConfig, SchemeConfig, api_key, bearer, client_credentials, authorization_code,
}
use specmcp.Config.Env.{resolve_value_from}
use specmcp.Config.Schemes.{Pydantic, parse_auth_schemes}
use specmcp.Config.Schemes.Accepted.{
  has_allowed_prefix, no_reserved, is_accepted_item, parse_auth_schemes-is_accepted,
}
use specmcp.Auth.Injector.Build.{build_scheme}
use specmcp.Oauth.{Scheme, Settings}
use specmcp.Serve.Settings.{
  ManagementConfig, is_given, check_all_requires_token, auth_code_schemes, resolve_schemes,
  resolve_token, build_oauth_state,
}

-- The endpoints of the scheme begin with a prefix that is allowed, and its extra parameters have no
-- reserved name.
abbrev pub is_accepted_scheme : String × Scheme → Bool
is_accepted_scheme (name, s) =
    has_allowed_prefix s.token_url
    && (has_allowed_prefix s.authorization_url
        && (has_allowed_prefix s.redirect_uri && no_reserved s.extra_params))

abbrev is_accepted_config : String × AuthCodeConfig → Bool
is_accepted_config (name, c) =
    has_allowed_prefix c.token_url
    && (has_allowed_prefix c.authorization_url
        && (has_allowed_prefix c.redirect_uri && no_reserved c.extra_params))

auth_code_schemes-is_accepted :
    (version : String) (schemes : Dict SchemeConfig)
    → all (is_accepted_item version) schemes ≡ true
    → all is_accepted_config (auth_code_schemes schemes) ≡ true
unfolding auth_code_schemes
auth_code_schemes-is_accepted version [] h = refl
auth_code_schemes-is_accepted version ((name, authorization_code c) ∷ schemes) h =
    let first : is_accepted_config (name, c) ≡ true = ground (arith, h) in
    rw first (auth_code_schemes-is_accepted version schemes (ground (arith, h)))
auth_code_schemes-is_accepted version ((name, client_credentials c) ∷ schemes) h =
    auth_code_schemes-is_accepted version schemes (ground (arith, h))
auth_code_schemes-is_accepted version ((name, api_key p n v) ∷ schemes) h =
    auth_code_schemes-is_accepted version schemes h
auth_code_schemes-is_accepted version ((name, bearer v) ∷ schemes) h =
    auth_code_schemes-is_accepted version schemes h

abbrev AcceptedStarted : Option Settings → Type 0
AcceptedStarted none = Unit
AcceptedStarted (some settings) =
    (all is_accepted_scheme settings.schemes ≡ true)
    × ((not settings.management_bind_all || is_some settings.management_token) ≡ true)

loaded_none :
    (settings : Settings)
    → ◌≢◌ {A = Loaded (Option Settings)} (loaded none) (loaded (some settings))
loaded_none settings h = cc

module _ (env : Dict String) where
  build_scheme-is_accepted :
      (name : String) (cfg : AuthCodeConfig) (scheme : Scheme)
      → is_accepted_config (name, cfg) ≡ true
      → build_scheme env cfg ≡ loaded scheme
      → is_accepted_scheme (name, scheme) ≡ true
  unfolding build_scheme
  build_scheme-is_accepted name cfg scheme h e =
      let (i, one, e1) = >>=-eq-loaded (resolve_value_from env cfg.client_id_from) _ e in
      let (s, two, e2) = >>=-eq-loaded (resolve_value_from env cfg.client_secret_from) _ e1 in
      subst (λ t. is_accepted_scheme (name, t) ≡ true) (loaded_injective e2) h

  resolve_schemes-is_accepted :
      (configs : Dict AuthCodeConfig) (acc resolved : Dict Scheme)
      → all is_accepted_config configs ≡ true
      → all is_accepted_scheme acc ≡ true
      → resolve_schemes env configs acc ≡ loaded resolved
      → all is_accepted_scheme resolved ≡ true
  unfolding resolve_schemes
  resolve_schemes-is_accepted [] acc resolved h k e =
      subst (λ d. all is_accepted_scheme d ≡ true) (loaded_injective e) k
  resolve_schemes-is_accepted ((name, cfg) ∷ configs) acc resolved h k e =
      let (scheme, one, rest) = >>=-eq-loaded (build_scheme env cfg) _ e in
      let first : is_accepted_config (name, cfg) ≡ true = ground (arith, h) in
      resolve_schemes-is_accepted configs (set acc name scheme) resolved (ground (arith, h))
        (all-set is_accepted_scheme acc name scheme k
          (build_scheme-is_accepted name cfg scheme first one))
        rest

  resolve_token_given :
      (raw token : Option String)
      → is_given raw ≡ true
      → resolve_token env raw ≡ loaded token
      → is_some token ≡ true
  unfolding resolve_token
  resolve_token_given none token h e = cc
  resolve_token_given (some raw) token h e = elim (Bool-cases (is_nil raw)) [
    | inl empty ↦ cc (rw empty at h)
    | inr given ↦
        let (t, one, e1) =
          >>=-eq-loaded (resolve_value_from env raw) _ (rw (given, resolve_token) at e) in
        subst (λ o. is_some o ≡ true) (loaded_injective e1) refl
  ]

  -- Started from schemes that the parsing returned, the OAuth endpoints have only schemes whose token,
  -- authorization and redirect URLs begin with https://, http://localhost or http://127.0.0.1 in any
  -- case and whose extra parameters have no reserved name, which says nothing of the host behind the
  -- prefix. Where the management endpoint is bound to all, and the check of its token passed, there is
  -- a management token.
  pub build_oauth_state-is_accepted :
      (pydantic : Pydantic) (version : String) (auth : Dict Json) (parsed : Dict SchemeConfig)
      (management : ManagementConfig) (settings : Settings)
      → parse_auth_schemes pydantic version auth ≡ loaded parsed
      → check_all_requires_token management ≡ true
      → build_oauth_state env (some parsed) management ≡ loaded (some settings)
      → (all is_accepted_scheme settings.schemes ≡ true)
        × ((not settings.management_bind_all || is_some settings.management_token) ≡ true)
  unfolding build_oauth_state
  build_oauth_state-is_accepted pydantic version auth parsed management settings p token_set h =
      elim (Bool-cases (is_empty (auth_code_schemes parsed))) [
        | inl nothing ↦ absurd (loaded_none settings (rw nothing at h))
        | inr something ↦
            let h0 = rw (something, build_oauth_state) at h in
            let (resolved, one, h1) =
              >>=-eq-loaded (resolve_schemes env (auth_code_schemes parsed) []) _ h0 in
            let (token, two, h2) =
              >>=-eq-loaded (resolve_token env management.management_token_from) _ h1 in
            let (safe, _) = parse_auth_schemes-is_accepted pydantic version auth parsed p in
            let schemes =
              resolve_schemes-is_accepted (auth_code_schemes parsed) [] resolved
                (auth_code_schemes-is_accepted version parsed safe) refl one in
            let bound : (not management.bind_all || is_some token) ≡ true =
              ground (
                arith,
                token_set,
                resolve_token_given management.management_token_from token,
                two,
              ) in
            subst (λ (o : Option Settings). AcceptedStarted o) (loaded_injective h2)
              (schemes, bound)
      ]
