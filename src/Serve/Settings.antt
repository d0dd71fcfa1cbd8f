-- ===== src/Serve/Settings.antt =====
-- _build_oauth_state of cli/serve.py, with ManagementConfig of config.py: what the OAuth endpoints are
-- started with. The stores are those of the state, one for each scheme, and the secret is drawn.
pub mod Accepted
use specmcp.Prelude.{
  String, Bool, true, not, ◌||◌, Option, none, some, List, [], ◌∷◌, is_empty, if◌then◌else◌,
}
use specmcp.Prelude.Dict.{Dict, set}
use specmcp.Prelude.Text.{is_nil}
use specmcp.Errors.Result.{Result}
use specmcp.Errors.Loaded.{Loaded, loaded, ◌>>=◌}
use specmcp.Config.{AuthCodeConfig, SchemeConfig, authorization_code}
use specmcp.Config.Env.{resolve_value_from}
use specmcp.Auth.Injector.{Credentials}
use specmcp.Auth.Injector.Build.{build_scheme, Registered, register_auth_code_handler}
use specmcp.Oauth.{Scheme, Settings}

pub record ManagementConfig : Type 0 where
  pub bind_all : Bool
  pub management_token_from : Option String

abbrev is_given : Option String → Bool
is_given none = Bool.false
is_given (some s) = not (is_nil s)

-- `false` is ValueError.
abbrev pub check_all_requires_token : ManagementConfig → Bool
check_all_requires_token m = not m.bind_all || is_given m.management_token_from

abbrev code_config : SchemeConfig → Option AuthCodeConfig
code_config (authorization_code cfg) = some cfg
code_config s = none

-- The schemes with a type of configuration, under their names.
unfoldable pub auth_code_schemes : Dict SchemeConfig → Dict AuthCodeConfig
auth_code_schemes [] = []
auth_code_schemes ((name, s) ∷ schemes) =
    let rest = auth_code_schemes schemes in
    elim (code_config s) [ none ↦ rest | some cfg ↦ (name, cfg) ∷ rest ]

module _ (env : Dict String) where
  unfoldable pub resolve_schemes : Dict AuthCodeConfig → Dict Scheme → Loaded (Dict Scheme)
  unfolding ◌>>=◌ build_scheme set
  resolve_schemes [] resolved = loaded resolved
  resolve_schemes ((name, cfg) ∷ configs) resolved =
      build_scheme env cfg >>= λ scheme. resolve_schemes configs (set resolved name scheme)

  unfoldable pub resolve_token : Option String → Loaded (Option String)
  unfolding ◌>>=◌ resolve_value_from
  resolve_token none = loaded none
  resolve_token (some raw) =
      if is_nil raw then loaded none else (resolve_value_from env raw >>= λ t. loaded (some t))

  -- `none` where there is no configuration, or no such scheme.
  unfoldable pub build_oauth_state :
      Option (Dict SchemeConfig) → ManagementConfig → Loaded (Option Settings)
  unfolding ◌>>=◌ auth_code_schemes resolve_schemes resolve_token
  build_oauth_state none management = loaded none
  build_oauth_state (some schemes) management =
      let configs = auth_code_schemes schemes in
      if is_empty configs
      then loaded none
      else (resolve_schemes configs [] >>= λ resolved.
          resolve_token management.management_token_from >>= λ token. loaded (
            some (record {
              schemes = resolved;
              management_token = token;
              management_bind_all = management.bind_all;
            })))

-- The last two steps: the handlers are registered with the injector.
unfoldable pub register_handlers :
    (String → AuthCodeConfig → Credentials → Result Credentials)
    → Dict AuthCodeConfig
    → Registered
    → Registered
unfolding register_auth_code_handler
register_handlers handler [] r = r
register_handlers handler ((name, cfg) ∷ configs) r =
    register_handlers handler configs (register_auth_code_handler name cfg (handler name cfg) r)
