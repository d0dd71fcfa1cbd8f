-- ===== src/Tests/Failures.antt =====
-- Examples of exit codes and of error texts.
use specmcp.Prelude.{String, ◌≡◌, refl, none, some}
use specmcp.Errors.{dispatch_error, SpecmcpError, mcp_error_content}
use specmcp.Errors.Content.{mcp_error_content_hides}

abbrev failure : String → SpecmcpError
failure message = record {
  class = dispatch_error;
  message = message;
  detail = none;
  request_id = some "r1";
  location = none;
  login_url = none;
  status_code = none;
  response_bytes = 0;
  limit_bytes = 0;
}

content_test : mcp_error_content (failure "secret") ≡ "Internal error (request_id: r1)"
unfolding mcp_error_content
content_test = refl

mcp_error_content_hides_example :
    mcp_error_content (failure "secret") ≡ mcp_error_content (failure "other")
mcp_error_content_hides_example =
    mcp_error_content_hides (failure "secret") (failure "other") refl refl refl
