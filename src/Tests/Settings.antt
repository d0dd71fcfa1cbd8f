-- ===== src/Tests/Settings.antt =====
-- Examples of the configuration of the schemes and of the injector that is built from it.
use specmcp.Prelude.{String, ◌≡◌, refl, true, none, some, List, [], ◌∷◌}
use specmcp.Prelude.Dict.{Dict, get, set}
use specmcp.Prelude.Text.{strip}
use specmcp.Json.{Json, null, str, obj, end, field, get_or}
use specmcp.Model.{AuthRequirement}
use specmcp.Errors.{config_error, config_env_var_error}
use specmcp.Errors.Loaded.{loaded, failed, ◌>>=◌}
use specmcp.Config.{in_header, ClientCredentialsConfig, SchemeConfig, api_key, client_credentials}
use specmcp.Config.Env.{match_env, resolve_value_from}
use specmcp.Config.Schemes.{Pydantic, parse_auth_schemes, parse_from, resolve_values_from}
use specmcp.Auth.ClientCredentials.{fetched_token}
use specmcp.Auth.Injector.{Injector, inject, ResolvedScheme}
use specmcp.Auth.Injector.Build.{build}
use specmcp.Auth.Injector.Asserted.{is_clean, inject-build}
use specmcp.Oauth.Exchange.{unreachable}
use specmcp.Tests.Codec.{python}

abbrev text_of : Json → String
text_of (str s) = s
text_of v = ""

abbrev client_from : Dict Json → ClientCredentialsConfig
unfolding get_or get
client_from d = record {
  token_url = text_of (get_or d "token_url" null);
  client_id_from = text_of (get_or d "client_id_from" null);
  client_secret_from = text_of (get_or d "client_secret_from" null);
  scopes = [];
  extra_params = [];
}

-- Reads the texts of the fields, for keys in headers and OAuth schemes of client credentials.
abbrev pydantic : Pydantic
unfolding get_or get client_from
pydantic = record {
  api_key_of =
      λ d. some (in_header, text_of (get_or d "name" null), text_of (get_or d "value_from" null));
  bearer_of = λ d. some (text_of (get_or d "value_from" null));
  client_of = λ d. some (client_from d);
  code_of = λ d. none;
}

abbrev auth : Dict Json
auth =
    (
      "key",
      obj (
          field "type" (str "apiKey")
            (field "name" (str "X-Key") (field "value_from" (str " env(KEY)") end))),
    )
    ∷ (
      "app",
      obj (
          field "type" (str "oauth2_client_credentials") (
            field "token_url" (str "HTTPS://idp.example/token") (
              field "client_id_from" (str "env(APP_ID)")
                (field "client_secret_from" (str "env(APP_SECRET)") end)))),
    )
    ∷ []

abbrev app_config : ClientCredentialsConfig
app_config = record {
  token_url = "HTTPS://idp.example/token";
  client_id_from = "env(APP_ID)";
  client_secret_from = "env(APP_SECRET)";
  scopes = [];
  extra_params = [];
}

abbrev configs : Dict SchemeConfig
configs =
    ("key", api_key in_header "X-Key" " env(KEY)") ∷ ("app", client_credentials app_config) ∷ []

parse_test : parse_auth_schemes pydantic "1" auth ≡ loaded configs
unfolding parse_from ◌>>=◌ set pydantic
parse_test = refl

abbrev pub env : Dict String
env = ("KEY", "k0") ∷ ("APP_ID", "id") ∷ ("APP_SECRET", "secret") ∷ []

-- A missing variable, and a value that names none.
env_test :
    (resolve_value_from env "env(KEY) " ≡ loaded "k0")
    × (resolve_value_from env "env(OTHER)" ≡ failed config_env_var_error)
    × (resolve_value_from env "env(key)" ≡ failed config_error)
unfolding resolve_value_from match_env strip get
env_test = (refl, refl, refl)

abbrev schemes : Dict ResolvedScheme
schemes =
    (
      "key",
      record {
        scheme_name = "key";
        config = api_key in_header "X-Key" " env(KEY)";
        credential = some "k0";
        oauth_client_id = none;
        oauth_client_secret = none;
      },
    )
    ∷ (
      "app",
      record {
        scheme_name = "app";
        config = client_credentials app_config;
        credential = none;
        oauth_client_id = some "id";
        oauth_client_secret = some "secret";
      },
    )
    ∷ []

build_test : build env (some configs) ≡ loaded (schemes, ("app", none) ∷ [])
unfolding build resolve_values_from resolve_value_from match_env strip ◌>>=◌ get set
build_test = refl

-- An injector whose token endpoint cannot be reached.
abbrev injector : Injector
injector = record {
  schemes = schemes;
  auth_code_handlers = [];
  python = python;
  post = λ request. unreachable;
  client_token = none;
  now = 10;
  answered_at = 11;
  buffer = 60;
}

abbrev both : List (List AuthRequirement)
both =
    (record { scheme_name = "key"; scopes = [] } ∷ record { scheme_name = "app"; scopes = [] } ∷ [])
    ∷ []

inject-build_example : is_clean (inject injector both (("app", none) ∷ []) ([], [])).1 ≡ true
unfolding fetched_token get
inject-build_example =
    inject-build injector (λ request. refl) (λ name handler c h. cc) env (some configs)
      (("app", none) ∷ []) both ([], []) build_test
