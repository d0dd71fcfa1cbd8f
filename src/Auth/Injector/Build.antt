-- ===== src/Auth/Injector/Build.antt =====
-- AuthInjector.build and register_auth_code_handler, and ResolvedAuthCodeScheme.build of
-- runtime/oauth_handler.py.
use specmcp.Prelude.{String, Option, none, some, [], ◌∷◌, if◌then◌else◌}
use specmcp.Prelude.Dict.{Dict, get, set, has}
use specmcp.Errors.Result.{Result}
use specmcp.Errors.Loaded.{Loaded, loaded, ◌>>=◌}
use specmcp.Config.{AuthCodeConfig, SchemeConfig, client_credentials, authorization_code}
use specmcp.Config.Env.{resolve_value_from}
use specmcp.Config.Schemes.{resolve_values_from, resolve_auth_values}
use specmcp.Auth.Injector.{ResolvedScheme, Caches, Credentials}
use specmcp.Oauth.{Scheme}

-- `_schemes` and `_token_caches`
abbrev pub Built : Type 0
Built = Dict ResolvedScheme × Caches

module _ (env : Dict String) where
  unfoldable pub build_from : Dict String → Dict SchemeConfig → Built → Loaded Built
  unfolding ◌>>=◌ resolve_value_from get set
  build_from static_values [] built = loaded built
  build_from static_values ((name, client_credentials cfg) ∷ configs) (schemes, caches) = do
    client_id ← resolve_value_from env cfg.client_id_from
    client_secret ← resolve_value_from env cfg.client_secret_from
    build_from static_values configs (
      set schemes name (record {
        scheme_name = name;
        config = client_credentials cfg;
        credential = none;
        oauth_client_id = some client_id;
        oauth_client_secret = some client_secret;
      }),
      set caches name none,
    )
  build_from static_values ((name, cfg) ∷ configs) (schemes, caches) =
      build_from static_values configs (
        set schemes name (record {
          scheme_name = name;
          config = cfg;
          credential = get static_values name;
          oauth_client_id = none;
          oauth_client_secret = none;
        }),
        caches,
      )

  -- `none` is no configuration.
  unfoldable pub build : Option (Dict SchemeConfig) → Loaded Built
  unfolding ◌>>=◌ resolve_values_from build_from
  build none = loaded ([], [])
  build (some configs) =
      resolve_auth_values env configs >>= λ static_values. build_from static_values configs ([], [])

  -- ResolvedAuthCodeScheme.build
  unfoldable pub build_scheme : AuthCodeConfig → Loaded Scheme
  unfolding ◌>>=◌ resolve_value_from
  build_scheme cfg = do
    client_id ← resolve_value_from env cfg.client_id_from
    client_secret ← resolve_value_from env cfg.client_secret_from
    loaded (record {
      client_id = client_id;
      client_secret = some client_secret;
      authorization_url = cfg.authorization_url;
      token_url = cfg.token_url;
      redirect_uri = cfg.redirect_uri;
      scopes = cfg.scopes;
      extra_params = cfg.extra_params;
    })

-- The schemes and the handlers once a handler is registered.
abbrev pub Registered : Type 0
Registered = Dict ResolvedScheme × Dict (Credentials → Result Credentials)

unfoldable pub register_auth_code_handler :
    String → AuthCodeConfig → (Credentials → Result Credentials) → Registered → Registered
unfolding set
register_auth_code_handler name cfg handler (schemes, handlers) =
    let placeholder : ResolvedScheme = record {
      scheme_name = name;
      config = authorization_code cfg;
      credential = none;
      oauth_client_id = none;
      oauth_client_secret = none;
    } in
    (if has schemes name then schemes else set schemes name placeholder, set handlers name handler)
