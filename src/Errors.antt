-- ===== src/Errors.antt =====
-- The error taxonomy, src/specmcp/errors.py: the classes with their parents, exit codes, and the
-- text that an MCP client sees.
pub mod Result
pub mod Content
pub mod Loaded
use Prim.Native.String.{◌++◌}
use specmcp.Prelude.{
  ℕ, suc, String, Bool, true, false, ◌&&◌, ◌||◌, Option, none, some, List, [], ◌∷◌, if◌then◌else◌,
}
use specmcp.Prelude.Digits.{show}
use specmcp.Prelude.Text.{is_nil}

pub data ErrorClass : Type 0 where
  specmcp_error config_error config_version_error config_env_var_error : ErrorClass
  spec_error spec_syntax_error spec_validation_error spec_resolution_error : ErrorClass
  spec_unsupported_error pipeline_error normalize_error simplify_error : ErrorClass
  runtime_error argument_validation_error dispatch_error auth_error auth_config_error : ErrorClass
  auth_required_error token_refresh_error upstream_client_error upstream_server_error : ErrorClass
  transient_error response_too_large_error internal_error : ErrorClass

-- The class that a class extends; the base class extends none of the taxonomy.
abbrev pub parent : ErrorClass → Option ErrorClass
parent specmcp_error = none
parent config_error = some specmcp_error
parent config_version_error = some config_error
parent config_env_var_error = some config_error
parent spec_error = some specmcp_error
parent spec_syntax_error = some spec_error
parent spec_validation_error = some spec_error
parent spec_resolution_error = some spec_error
parent spec_unsupported_error = some spec_error
parent pipeline_error = some specmcp_error
parent normalize_error = some pipeline_error
parent simplify_error = some pipeline_error
parent runtime_error = some specmcp_error
parent argument_validation_error = some runtime_error
parent dispatch_error = some runtime_error
parent auth_error = some runtime_error
parent auth_config_error = some auth_error
parent auth_required_error = some auth_error
parent token_refresh_error = some auth_error
parent upstream_client_error = some runtime_error
parent upstream_server_error = some runtime_error
parent transient_error = some runtime_error
parent response_too_large_error = some runtime_error
parent internal_error = some specmcp_error

-- `type(exc).__mro__` as far as the taxonomy goes, at most `fuel` classes. No class is more than
-- four deep.
unfoldable pub mro_from : ℕ → ErrorClass → List ErrorClass
mro_from ℕ.zero c = []
mro_from (suc fuel) c = elim (parent c) [ none ↦ c ∷ [] | some p ↦ c ∷ mro_from fuel p ]

abbrev pub mro : ErrorClass → List ErrorClass
mro = mro_from 4

-- CLI_EXIT_CODES
abbrev pub cli_exit_codes : ErrorClass → Option ℕ
cli_exit_codes config_error = some 64
cli_exit_codes config_version_error = some 64
cli_exit_codes config_env_var_error = some 64
cli_exit_codes spec_syntax_error = some 65
cli_exit_codes spec_validation_error = some 65
cli_exit_codes spec_resolution_error = some 65
cli_exit_codes spec_unsupported_error = some 69
cli_exit_codes pipeline_error = some 70
cli_exit_codes normalize_error = some 70
cli_exit_codes simplify_error = some 70
cli_exit_codes internal_error = some 70
cli_exit_codes _ = none

-- The first class of a list that a table has, which is the loop of both lookups.
unfoldable pub first_found {ℓ} : {A : Type ℓ} → (ErrorClass → Option A) → List ErrorClass → Option A
first_found table [] = none
first_found table (c ∷ cs) = elim (table c) [ none ↦ first_found table cs | some a ↦ some a ]

unfoldable pub exit_code_for : ErrorClass → ℕ
unfolding first_found mro_from
exit_code_for c = elim (first_found cli_exit_codes (mro c)) [ none ↦ 1 | some n ↦ n ]

-- An exception: its class and what the content templates read of it.
pub record SpecmcpError : Type 0 where
  pub class : ErrorClass
  pub message : String
  pub detail : Option String
  pub request_id : Option String
  -- `location`, as `file:line`
  pub location : Option String
  -- attributes that only some classes set
  pub login_url : Option String
  pub status_code : Option ℕ
  pub response_bytes : ℕ
  pub limit_bytes : ℕ

-- `not s`, for an optional text
abbrev pub is_blank : Option String → Bool
is_blank none = true
is_blank (some s) = is_nil s

abbrev text_or : Option String → String → String
text_or none t = t
text_or (some s) t = if is_nil s then t else s

-- SpecmcpError.__str__
unfoldable pub error_text : SpecmcpError → String
error_text e =
    let prefix : String = elim e.location [ none ↦ "" | some l ↦ "[" ++ (l ++ "] ") ] in
    let base = prefix ++ e.message in
    elim e.detail [ none ↦ base | some d ↦ if is_nil d then base else base ++ (" — " ++ d) ]

abbrev status_text : Option ℕ → String
status_text none = "None"
status_text (some n) = show n

abbrev login_text : Option String → String
login_text none = "None"
login_text (some u) = u

-- MCP_ERROR_CONTENT, with the template filled in; `rid` is the request id or "unknown".
mcp_error_template : SpecmcpError → String → ErrorClass → Option String
unfolding error_text
mcp_error_template e rid argument_validation_error = some ("Invalid argument: " ++ error_text e)
mcp_error_template e rid auth_required_error = some (
    "Authentication required. Please ask the user to visit the following URL to log in:\n"
    ++ (login_text e.login_url
        ++ "\n\nThe link expires in 5 minutes. After logging in, retry your request."))
mcp_error_template e rid upstream_client_error =
    some ("Upstream returned HTTP " ++ (status_text e.status_code ++ (": " ++ e.message)))
mcp_error_template e rid upstream_server_error =
    some ("Upstream service error (request_id: " ++ (rid ++ ")"))
mcp_error_template e rid transient_error =
    some ("Network error (request_id: " ++ (rid ++ "). This may be transient."))
mcp_error_template e rid token_refresh_error =
    some ("OAuth token refresh failed (request_id: " ++ (rid ++ ")"))
mcp_error_template e rid auth_error = some ("Authentication failed (request_id: " ++ (rid ++ ")"))
mcp_error_template e rid response_too_large_error = some (
    "Response too large ("
    ++ (show e.response_bytes ++ (" bytes, limit " ++ (show e.limit_bytes ++ " bytes)"))))
mcp_error_template e rid dispatch_error = some ("Internal error (request_id: " ++ (rid ++ ")"))
mcp_error_template e rid internal_error = some ("Internal error (request_id: " ++ (rid ++ ")"))
mcp_error_template e rid _ = none

abbrev pub is_auth_required : ErrorClass → Bool
is_auth_required auth_required_error = true
is_auth_required _ = false

abbrev pub no_login_content : String
no_login_content =
    "Authentication required, but the login URL could not be generated (the server may be overloaded or misconfigured). Please check the server logs and try the request again."

content_for : SpecmcpError → ErrorClass → String
unfolding mcp_error_template first_found mro_from error_text
content_for e c =
    if is_auth_required c && is_blank e.login_url
    then no_login_content
    else elim (first_found (mcp_error_template e (text_or e.request_id "unknown")) (mro c)) [
      | none ↦ error_text e
      | some text ↦ text
    ]

unfoldable pub mcp_error_content : SpecmcpError → String
unfolding content_for
mcp_error_content e = content_for e e.class

-- `isinstance(exc, TransientError)`: no class extends it.
abbrev pub is_transient : SpecmcpError → Bool
is_transient e = elim e.class [ transient_error ↦ true | _ ↦ false ]
