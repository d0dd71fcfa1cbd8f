-- ===== src/Config/Schemes/Accepted.antt =====
-- What the schemes of a configuration that is accepted are like.
use specmcp.Prelude.{
  is_some, String, ◌≡◌, refl, Bool, true, false, not, ◌&&◌, ◌||◌, ◌==◌, Option, none, some, [], ◌∷◌,
  all, any, Bool-cases, inl, inr, arith, subst, ◌∙◌,
}
use specmcp.Prelude.Dict.{Dict, set, has, all-set, has-set}
use specmcp.Prelude.Text.{lower_has_prefix}
use specmcp.Json.{Json, null, str, obj, to_dict, get_or}
use specmcp.Errors.Loaded.{loaded, >>=-eq-loaded, loaded_injective}
use specmcp.Config.{
  SchemeConfig, bearer, client_credentials, authorization_code, reserved_oauth_params,
  validate_extra_params, validate_token_url,
}
use specmcp.Config.Schemes.{
  Pydantic, is_valid_client, is_valid_code, validated, no_check, key_config, parse_typed,
  parse_scheme, parse_from, parse_auth_schemes,
}

-- The URL begins with one of the three texts that the validator looks for, which
-- http://localhost.example.com does too.
abbrev pub has_allowed_prefix : String → Bool
has_allowed_prefix url =
    lower_has_prefix url "https://"
    || (lower_has_prefix url "http://localhost" || lower_has_prefix url "http://127.0.0.1")

abbrev pub no_reserved : Dict String → Bool
no_reserved params = not (any (has params) reserved_oauth_params)

abbrev pub is_accepted : String → SchemeConfig → Bool
is_accepted version (client_credentials c) =
    has_allowed_prefix c.token_url && no_reserved c.extra_params
is_accepted version (authorization_code c) =
    (version == "2")
    && (has_allowed_prefix c.token_url
        && (has_allowed_prefix c.authorization_url
            && (has_allowed_prefix c.redirect_uri && no_reserved c.extra_params)))
is_accepted version s = true

abbrev pub is_accepted_item : String → String × SchemeConfig → Bool
is_accepted_item version (name, s) = is_accepted version s

is_some-validate_token_url :
    (url : String) → is_some (validate_token_url url) ≡ has_allowed_prefix url
unfolding validate_token_url
is_some-validate_token_url url = ground arith

is_some-validate_extra_params :
    (params : Dict String) → is_some (validate_extra_params params) ≡ no_reserved params
unfolding validate_extra_params
is_some-validate_extra_params params = ground arith

-- A validated scheme is accepted if what is validated makes it so.
validated-is_accepted :
    {A : Type 0} (version : String) (p : A → Bool) (f : A → SchemeConfig) (o : Option A)
    (s : SchemeConfig)
    → ((a : A) → p a ≡ true → is_accepted version (f a) ≡ true)
    → validated p f o ≡ loaded s
    → is_accepted version s ≡ true
validated-is_accepted version p f none s h e = cc
validated-is_accepted version p f (some a) s h e = elim (Bool-cases (p a)) [
  | inl good ↦
      let q : loaded (f a) ≡ loaded s = rw good at e in
      subst (λ t. is_accepted version t ≡ true) (loaded_injective q) (h a good)
  | inr bad ↦ cc (rw bad at e)
]

module _ (pydantic : Pydantic) (version : String) where
  parse_typed-is_accepted :
      (t : String) (fields : Dict Json) (s : SchemeConfig)
      → parse_typed pydantic version (str t) fields ≡ loaded s
      → is_accepted version s ≡ true
  unfolding is_valid_client is_valid_code
  parse_typed-is_accepted t fields s h = elim (Bool-cases (t == "apiKey")) [
    | inl key ↦
        validated-is_accepted version no_check key_config (pydantic.api_key_of fields) s
          (λ a e. refl) (rw key at h)
    | inr h1 ↦ elim (Bool-cases (t == "bearer")) [
      | inl is_bearer ↦
          validated-is_accepted version no_check bearer (pydantic.bearer_of fields) s (λ a e. refl)
            (rw (h1, is_bearer) at h)
      | inr h2 ↦ elim (Bool-cases (t == "oauth2_client_credentials")) [
        | inl client ↦
            validated-is_accepted version is_valid_client client_credentials
              (pydantic.client_of fields) s
              (λ a e. ground (
                arith,
                e,
                is_some-validate_token_url a.token_url,
                is_some-validate_extra_params a.extra_params,
              ))
              (rw (h1, h2, client) at h)
        | inr h3 ↦ elim (Bool-cases (t == "oauth2_authorization_code")) [
          | inr h4 ↦ cc (rw (h1, h2, h3, h4) at h)
          | inl code ↦ elim (Bool-cases (version == "2")) [
            | inr old ↦ cc (rw (h1, h2, h3, code, old) at h)
            | inl two ↦
                validated-is_accepted version is_valid_code authorization_code
                  (pydantic.code_of fields) s
                  (λ a e. ground (
                    arith,
                    e,
                    two,
                    is_some-validate_token_url a.token_url,
                    is_some-validate_token_url a.authorization_url,
                    is_some-validate_token_url a.redirect_uri,
                    is_some-validate_extra_params a.extra_params,
                  ))
                  (rw (h1, h2, h3, code, two) at h)
          ]
        ]
      ]
    ]
  ]

  parse_json-is_accepted :
      (v : Json) (fields : Dict Json) (s : SchemeConfig)
      → parse_typed pydantic version v fields ≡ loaded s
      → is_accepted version s ≡ true
  parse_json-is_accepted (str t) fields s h = parse_typed-is_accepted t fields s h
  parse_json-is_accepted v fields s h = cc

  parse_scheme-is_accepted :
      (raw : Json) (s : SchemeConfig)
      → parse_scheme pydantic version raw ≡ loaded s
      → is_accepted version s ≡ true
  unfolding parse_scheme
  parse_scheme-is_accepted (obj fs) s h =
      parse_json-is_accepted (get_or (to_dict fs) "type" null) (to_dict fs) s h
  parse_scheme-is_accepted raw s h = cc

  parse_from-is_accepted :
      (auth : Dict Json) (acc parsed : Dict SchemeConfig)
      → all (is_accepted_item version) acc ≡ true
      → parse_from pydantic version auth acc ≡ loaded parsed
      → (all (is_accepted_item version) parsed ≡ true)
        × ((k : String) → has parsed k ≡ (has acc k || has auth k))
  unfolding parse_from
  parse_from-is_accepted [] acc parsed h e =
      let same = loaded_injective e in
      (
        subst (λ d. all (is_accepted_item version) d ≡ true) same h,
        λ k. subst (λ d. has d k ≡ (has acc k || false)) same (ground arith),
      )
  parse_from-is_accepted ((name, raw) ∷ auth) acc parsed h e =
      let (s, one, rest) = >>=-eq-loaded (parse_scheme pydantic version raw) _ e in
      let (safe, same) =
        parse_from-is_accepted auth (set acc name s) parsed
          (all-set (is_accepted_item version) acc name s h (parse_scheme-is_accepted raw s one))
          rest in
      (safe, λ k. same k ∙ ground (arith, has-set acc name k s))

  -- When the schemes of a configuration are accepted, they are those that it names; each OAuth scheme
  -- has its endpoints at https or at addresses that begin like this machine's, and no reserved extra
  -- parameter, and there is an authorization-code scheme only in a configuration of version 2.
  pub parse_auth_schemes-is_accepted :
      (auth : Dict Json) (parsed : Dict SchemeConfig)
      → parse_auth_schemes pydantic version auth ≡ loaded parsed
      → (all (is_accepted_item version) parsed ≡ true) × ((k : String) → has parsed k ≡ has auth k)
  parse_auth_schemes-is_accepted auth parsed h = parse_from-is_accepted auth [] parsed refl h
