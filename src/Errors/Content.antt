-- ===== src/Errors/Content.antt =====
-- What the text for an MCP client depends on, and how exit codes are inherited.
use Prim.Native.String.{◌++◌}
use specmcp.Prelude.{
  ℕ, suc, String, ◌≡◌, refl, sym, ap, ◌∙◌, Bool, true, false, Option, none, some, arith,
}
use specmcp.Errors.{
  ErrorClass, specmcp_error, spec_error, runtime_error, argument_validation_error, dispatch_error,
  auth_error, auth_config_error, auth_required_error, token_refresh_error, upstream_client_error,
  upstream_server_error, transient_error, response_too_large_error, internal_error, parent,
  mro_from, mro, cli_exit_codes, exit_code_for, SpecmcpError, content_for, mcp_error_content,
  text_or,
}

-- The classes whose text shows nothing of the exception but its request id.
abbrev pub hides_message : ErrorClass → Bool
hides_message upstream_server_error = true
hides_message transient_error = true
hides_message token_refresh_error = true
hides_message auth_error = true
hides_message auth_config_error = true
hides_message dispatch_error = true
hides_message internal_error = true
hides_message _ = false

abbrev fixed_text : ErrorClass → String → String
fixed_text upstream_server_error rid = "Upstream service error (request_id: " ++ (rid ++ ")")
fixed_text transient_error rid =
    "Network error (request_id: " ++ (rid ++ "). This may be transient.")
fixed_text token_refresh_error rid = "OAuth token refresh failed (request_id: " ++ (rid ++ ")")
fixed_text auth_error rid = "Authentication failed (request_id: " ++ (rid ++ ")")
fixed_text auth_config_error rid = "Authentication failed (request_id: " ++ (rid ++ ")")
fixed_text c rid = "Internal error (request_id: " ++ (rid ++ ")")

content-eq-fixed :
    (c : ErrorClass) (e : SpecmcpError)
    → hides_message c ≡ true
    → content_for e c ≡ fixed_text c (text_or e.request_id "unknown")
unfolding content_for
content-eq-fixed upstream_server_error e h = refl
content-eq-fixed transient_error e h = refl
content-eq-fixed token_refresh_error e h = refl
content-eq-fixed auth_error e h = refl
content-eq-fixed auth_config_error e h = refl
content-eq-fixed dispatch_error e h = refl
content-eq-fixed internal_error e h = refl
content-eq-fixed _ e h = cc

-- Two exceptions of one class that hides its message, with one request id, give the client the same
-- text, whatever their messages, details and other attributes.
pub mcp_error_content_hides :
    (e f : SpecmcpError)
    → e.class ≡ f.class
    → e.request_id ≡ f.request_id
    → hides_message e.class ≡ true
    → mcp_error_content e ≡ mcp_error_content f
unfolding mcp_error_content
mcp_error_content_hides e f p q h =
    content-eq-fixed e.class e h
    ∙ ap (λ (r : Option String). fixed_text e.class (text_or r "unknown")) q
    ∙ sym (content-eq-fixed e.class f h)
    ∙ ap (content_for f) p

-- A class with no exit code of its own has that of the class it extends.
pub exit_code_for-parent :
    (c p : ErrorClass)
    → parent c ≡ some p
    → cli_exit_codes c ≡ none
    → exit_code_for c ≡ exit_code_for p
unfolding exit_code_for
exit_code_for-parent spec_error p h k = ground arith
exit_code_for-parent runtime_error p h k = ground arith
exit_code_for-parent argument_validation_error p h k = ground arith
exit_code_for-parent dispatch_error p h k = ground arith
exit_code_for-parent auth_error p h k = ground arith
exit_code_for-parent auth_config_error p h k = ground arith
exit_code_for-parent auth_required_error p h k = ground arith
exit_code_for-parent token_refresh_error p h k = ground arith
exit_code_for-parent upstream_client_error p h k = ground arith
exit_code_for-parent upstream_server_error p h k = ground arith
exit_code_for-parent transient_error p h k = ground arith
exit_code_for-parent response_too_large_error p h k = ground arith
exit_code_for-parent _ p h k = cc

-- The fuel of `mro` is enough: more gives the same list.
pub mro_complete : (k : ℕ) (c : ErrorClass) → mro_from (suc (suc (suc (suc k)))) c ≡ mro c
unfolding mro_from
mro_complete k specmcp_error = refl
mro_complete k _ = refl
