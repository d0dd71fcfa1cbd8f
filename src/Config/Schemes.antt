-- ===== src/Config/Schemes.antt =====
-- The schemes of a configuration: Config.parse_auth_schemes and Config.resolve_auth_values.
pub mod Accepted
use specmcp.Prelude.{
  is_some, String, ◌≡◌, refl, Bool, true, false, not, ◌&&◌, ◌||◌, ◌==◌, Option, none, some, List,
  [], ◌∷◌, all, any, if◌then◌else◌, Bool-cases, Option-cases, inl, inr, arith,
}
use specmcp.Prelude.Dict.{Dict, get, set, has, all-set}
use specmcp.Prelude.Text.{lower_has_prefix}
use specmcp.Json.{Json, null, str, obj, to_dict, get_or}
use specmcp.Errors.{config_error}
use specmcp.Errors.Loaded.{Loaded, loaded, failed, other_exception, ◌>>=◌, >>=-eq-loaded}
use specmcp.Config.{
  KeyPlace, ClientCredentialsConfig, AuthCodeConfig, SchemeConfig, api_key, bearer,
  client_credentials, authorization_code, reserved_oauth_params, validate_extra_params,
  validate_token_url,
}
use specmcp.Config.Env.{resolve_value_from}

-- What pydantic makes of the fields of a scheme; `none` is an exception.
pub record Pydantic : Type 0 where
  pub api_key_of : Dict Json → Option (KeyPlace × String × String)
  pub bearer_of : Dict Json → Option String
  pub client_of : Dict Json → Option ClientCredentialsConfig
  pub code_of : Dict Json → Option AuthCodeConfig

-- The field validators of the two OAuth classes.
unfoldable pub is_valid_client : ClientCredentialsConfig → Bool
unfolding validate_token_url validate_extra_params
is_valid_client cfg =
    is_some (validate_token_url cfg.token_url) && is_some (validate_extra_params cfg.extra_params)

unfoldable pub is_valid_code : AuthCodeConfig → Bool
unfolding validate_token_url validate_extra_params
is_valid_code cfg =
    is_some (validate_token_url cfg.token_url)
    && (is_some (validate_token_url cfg.authorization_url)
        && (is_some (validate_token_url cfg.redirect_uri)
            && is_some (validate_extra_params cfg.extra_params)))

abbrev pub validated {ℓ} :
    {A : Type ℓ} → (A → Bool) → (A → SchemeConfig) → Option A → Loaded SchemeConfig
validated p f none = failed config_error
validated p f (some a) = if p a then loaded (f a) else failed config_error

abbrev pub no_check {ℓ} : {A : Type ℓ} → A → Bool
no_check a = true

abbrev pub key_config : KeyPlace × String × String → SchemeConfig
key_config (place, name, value_from) = api_key place name value_from

module _ (pydantic : Pydantic) (version : String) where
  abbrev pub parse_typed : Json → Dict Json → Loaded SchemeConfig
  parse_typed (str t) fields =
      if t == "apiKey"
      then validated no_check key_config (pydantic.api_key_of fields)
      else if t == "bearer"
      then validated no_check bearer (pydantic.bearer_of fields)
      else if t == "oauth2_client_credentials"
      then validated is_valid_client client_credentials (pydantic.client_of fields)
      else if t == "oauth2_authorization_code"
      then (if version == "2"
          then validated is_valid_code authorization_code (pydantic.code_of fields)
          else failed config_error)
      else failed config_error
  parse_typed v fields = failed config_error

  unfoldable pub parse_scheme : Json → Loaded SchemeConfig
  unfolding get_or is_valid_client is_valid_code
  parse_scheme (obj fs) = parse_typed (get_or (to_dict fs) "type" null) (to_dict fs)
  parse_scheme v = failed config_error

  unfoldable pub parse_from : Dict Json → Dict SchemeConfig → Loaded (Dict SchemeConfig)
  unfolding ◌>>=◌ parse_scheme set
  parse_from [] parsed = loaded parsed
  parse_from ((name, raw) ∷ auth) parsed =
      parse_scheme raw >>= λ scheme. parse_from auth (set parsed name scheme)

  abbrev pub parse_auth_schemes : Dict Json → Loaded (Dict SchemeConfig)
  parse_auth_schemes auth = parse_from auth []

-- `value_from` of a scheme that is not OAuth.
abbrev pub static_from : SchemeConfig → Option String
static_from (api_key place name value_from) = some value_from
static_from (bearer value_from) = some value_from
static_from s = none

module _ (env : Dict String) where
  unfoldable pub resolve_values_from : Dict SchemeConfig → Dict String → Loaded (Dict String)
  unfolding ◌>>=◌ resolve_value_from set
  resolve_values_from [] resolved = loaded resolved
  resolve_values_from ((name, scheme) ∷ schemes) resolved = elim (static_from scheme) [
    | none ↦ resolve_values_from schemes resolved
    | some raw ↦ resolve_value_from env raw >>= λ value.
        resolve_values_from schemes (set resolved name value)
  ]

  abbrev pub resolve_auth_values : Dict SchemeConfig → Loaded (Dict String)
  resolve_auth_values schemes = resolve_values_from schemes []
