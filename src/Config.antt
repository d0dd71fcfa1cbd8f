-- ===== src/Config.antt =====
-- The schemes of the configuration and their validators, config.py.
pub mod Env
pub mod Schemes
use specmcp.Prelude.{String, ◌||◌, Option, none, some, List, [], ◌∷◌, any, if◌then◌else◌}
use specmcp.Prelude.Dict.{Dict, has}
use specmcp.Prelude.Text.{lower_has_prefix}

pub data KeyPlace : Type 0 where
  in_header in_query in_cookie : KeyPlace

pub record ClientCredentialsConfig : Type 0 where
  pub token_url : String
  pub client_id_from : String
  pub client_secret_from : String
  pub scopes : List String
  pub extra_params : Dict String

pub record AuthCodeConfig : Type 0 where
  pub authorization_url : String
  pub token_url : String
  pub client_id_from : String
  pub client_secret_from : String
  pub redirect_uri : String
  pub scopes : List String
  pub extra_params : Dict String

-- AuthSchemeConfig: the place, the name and `value_from` of a key, and `value_from` of a bearer token.
pub data SchemeConfig : Type 0 where
  api_key : KeyPlace → String → String → SchemeConfig
  bearer : String → SchemeConfig
  client_credentials : ClientCredentialsConfig → SchemeConfig
  authorization_code : AuthCodeConfig → SchemeConfig

abbrev pub reserved_oauth_params : List String
reserved_oauth_params =
    "grant_type" ∷ "code" ∷ "code_verifier" ∷ "redirect_uri" ∷ "client_id" ∷ "client_secret"
    ∷ "response_type" ∷ []

-- `none` is ConfigError.
unfoldable pub validate_extra_params : Dict String → Option (Dict String)
validate_extra_params v = if any (has v) reserved_oauth_params then none else some v

unfoldable pub validate_token_url : String → Option String
validate_token_url url =
    if lower_has_prefix url "https://"
    then some url
    else if lower_has_prefix url "http://localhost" || lower_has_prefix url "http://127.0.0.1"
    then some url
    else none
