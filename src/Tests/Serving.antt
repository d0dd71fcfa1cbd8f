-- ===== src/Tests/Serving.antt =====
-- Examples of the server: its pipeline, the reload of its files, its settings, and closed sessions.
use specmcp.Prelude.{
  false, ◌≡◌, refl, true, not, ◌||◌, ◌==◌, is_some, none, some, [], ◌∷◌, all, if◌then◌else◌,
}
use specmcp.Prelude.Dict.{Dict, get, set}
use specmcp.Prelude.Text.{strip}
use specmcp.Json.{Json, str, obj, Fields, end, field, to_dict, get_or}
use specmcp.Errors.{spec_resolution_error, spec_syntax_error}
use specmcp.Errors.Result.{ok, ◌>>=◌}
use specmcp.Errors.Loaded
use specmcp.Errors.Loaded.{loaded, failed}
use specmcp.Load
use specmcp.Load.{valid, load_spec, detect_openapi_version}
use specmcp.Normalize.Operations.{normalize_spec}
use specmcp.Simplify.Metadata.{is_dropped}
use specmcp.Simplify.Pipeline.{simplify}
use specmcp.Expose.{ToolRegistry, build}
use specmcp.Serve.{serving, run_pipeline, default_simplify, watch_and_reload}
use specmcp.Serve.Pipeline.{IsServed, run_pipeline-IsServed}
use specmcp.Serve.Reloaded.{Current, watch_and_reload-Current}
use specmcp.Config.{AuthCodeConfig, SchemeConfig, authorization_code}
use specmcp.Config.Env.{resolve_value_from, match_env}
use specmcp.Config.Schemes.{Pydantic, parse_from, parse_auth_schemes}
use specmcp.Auth.Injector.Build.{build_scheme}
use specmcp.Auth.TokenStore.Memory.{memory_store-IsMap}
use specmcp.Oauth.{OauthState, Settings}
use specmcp.Oauth.Callback.{Exchange, finish_callback}
use specmcp.Serve.Settings.{
  ManagementConfig, build_oauth_state, auth_code_schemes, resolve_schemes, resolve_token,
}
use specmcp.Serve.Settings.Accepted.{is_accepted_scheme, build_oauth_state-is_accepted}
use specmcp.Serve.Closed.{close_session, finish_callback-close_session}
use specmcp.Tests.Calls
use specmcp.Errors.{SpecmcpError, dispatch_error, mcp_error_content}
use specmcp.Errors.Result.{Error}
use specmcp.Dispatch.Call.{dispatch_tool}
use specmcp.Expose.{lookup}
use specmcp.Serve
use specmcp.Serve.{content, handle_call_tool}
use specmcp.Tests.Login.{outside, fresh, tokens}
use specmcp.Tests.Settings.{env}
use specmcp.Tests.Specs.{ping_operation}

abbrev document : Fields
document = field "openapi" (str "3.1.0") (
    field "paths"
      (obj (field "/ping" (obj (field "get" (obj (field "operationId" (str "ping") end)) end)) end))
      end)

-- A directory with the file api.json, whose text stands for the document.
abbrev files : Load.Outside
files = record {
  fetch = λ url. failed spec_resolution_error;
  read_file = λ path. if path == "api.json" then some "{" else none;
  json_loads = λ text. if text == "{" then some (obj document) else none;
  yaml_load = λ text. none;
  resolve = λ path. some (to_dict document);
  validate = λ d. valid;
}

-- The same in the middle of a save.
abbrev half_saved : Load.Outside
half_saved = record files { json_loads = λ text. none }

abbrev registry : ToolRegistry
registry = build none (
    simplify default_simplify
      (record ping_operation { source_location = some ("api.json", 0) } ∷ []))

abbrev no_registry : ToolRegistry
no_registry = build none []

pipeline_test : run_pipeline files "api.json" none ≡ loaded registry
unfolding run_pipeline load_spec detect_openapi_version normalize_spec ◌>>=◌ Loaded.◌>>=◌ get get_or
pipeline_test = refl

failed_test : run_pipeline half_saved "api.json" none ≡ failed spec_syntax_error
unfolding run_pipeline load_spec Loaded.◌>>=◌
failed_test = refl

run_pipeline-IsServed_example : IsServed files "api.json" none registry
run_pipeline-IsServed_example = run_pipeline-IsServed files "api.json" none registry pipeline_test

watch_test :
    watch_and_reload "api.json" none (files ∷ half_saved ∷ []) (serving no_registry)
    ≡ serving registry
unfolding watch_and_reload
watch_test = rw (pipeline_test, watch_and_reload) refl

watch_and_reload-Current_example :
    Current "api.json" none (files ∷ half_saved ∷ []) no_registry registry
watch_and_reload-Current_example =
    watch_and_reload-Current "api.json" none (files ∷ half_saved ∷ []) no_registry registry
      watch_test

-- Exceptions without a message.
abbrev exception_of : Error → SpecmcpError
exception_of e = record {
  class = dispatch_error;
  message = "";
  detail = none;
  request_id = none;
  location = none;
  login_url = none;
  status_code = none;
  response_bytes = 0;
  limit_bytes = 0;
}

abbrev handlers : Serve.Outside
handlers = record { call = Calls.outside; repr = λ s. s; exception_of = exception_of }

-- A name that is not listed, and a tool whose request fails.
call_test :
    (handle_call_tool handlers false registry "r1" "pong" [] []
      ≡ ([], content ("Unknown tool: pong" ∷ [])))
    × ((handle_call_tool handlers false registry "r1" "ping" [] []).1
        ≡ content ("Internal error (request_id: r1)" ∷ []))
unfolding handle_call_tool lookup dispatch_tool mcp_error_content get build simplify ◌>>=◌
    is_dropped
call_test = (refl, refl)

abbrev code_config : AuthCodeConfig
code_config = record {
  authorization_url = "https://idp.example/authorize";
  token_url = "https://idp.example/token";
  client_id_from = "env(APP_ID)";
  client_secret_from = "env(APP_SECRET)";
  redirect_uri = "http://localhost:8765/auth/callback";
  scopes = [];
  extra_params = [];
}

abbrev reader : Pydantic
reader = record {
  api_key_of = λ d. none;
  bearer_of = λ d. none;
  client_of = λ d. none;
  code_of = λ d. some code_config;
}

abbrev auth : Dict Json
auth = ("idp", obj (field "type" (str "oauth2_authorization_code") end)) ∷ []

abbrev schemes : Dict SchemeConfig
schemes = ("idp", authorization_code code_config) ∷ []

schemes_test : parse_auth_schemes reader "2" auth ≡ loaded schemes
unfolding parse_from Loaded.◌>>=◌ set get
schemes_test = refl

abbrev management : ManagementConfig
management = record { bind_all = true; management_token_from = some "env(KEY)" }

abbrev settings : Settings
settings = record {
  schemes =
      (
        "idp",
        record {
          client_id = "id";
          client_secret = some "secret";
          authorization_url = "https://idp.example/authorize";
          token_url = "https://idp.example/token";
          redirect_uri = "http://localhost:8765/auth/callback";
          scopes = [];
          extra_params = [];
        },
      )
      ∷ [];
  management_token = some "k0";
  management_bind_all = true;
}

settings_test : build_oauth_state env (some schemes) management ≡ loaded (some settings)
unfolding build_oauth_state auth_code_schemes resolve_schemes resolve_token build_scheme
    resolve_value_from match_env strip Loaded.◌>>=◌ get set
settings_test = refl

build_oauth_state-is_accepted_example :
    (all is_accepted_scheme settings.schemes ≡ true)
    × ((not settings.management_bind_all || is_some settings.management_token) ≡ true)
build_oauth_state-is_accepted_example =
    build_oauth_state-is_accepted env reader "2" auth schemes management settings schemes_test refl
      settings_test

abbrev waiting : Exchange
waiting = record { session_id = "s"; scheme_name = "idp"; verifier = "v"; auth_code = "c" }

abbrev holding : OauthState outside
holding = record fresh { stores = λ name. ("s", tokens) ∷ [] }

finish_callback-close_session_example :
    (get ((close_session outside "s" ("idp" ∷ []) holding).stores "idp") "s" ≡ none)
    × (get
          ((finish_callback outside settings waiting
              (ok tokens)
              (close_session outside "s" ("idp" ∷ []) holding)).0.stores
            "idp")
          "s"
        ≡ some tokens)
unfolding get
finish_callback-close_session_example =
    finish_callback-close_session outside (λ d. Unit) (λ d k. get d k) memory_store-IsMap settings
      waiting tokens ("idp" ∷ []) holding (λ j. tt) refl refl "idp" "s"
