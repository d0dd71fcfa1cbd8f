-- ===== src/Auth/ClientCredentials.antt =====
-- _fetch_client_credentials_token of auth/injector.py. What the token endpoint answers is an argument.
use specmcp.Prelude.{ℕ, ◌+◌, String, not, Option, none, some, [], ◌∷◌, is_empty, eqb, if◌then◌else◌}
use specmcp.Prelude.Dict.{get, set, update}
use specmcp.Prelude.Text.{join}
use specmcp.Json.{Json}
use specmcp.Errors.Result.{Result, ok, err, ◌>>=◌, token_refresh}
use specmcp.Dispatch.Serialize.{py_str}
use specmcp.Config.{ClientCredentialsConfig}
use specmcp.Auth.Tokens.{Python, or_raise, item}
use specmcp.Auth.TokenCache.{CachedToken}
use specmcp.Oauth.Exchange.{TokenRequest, TokenAnswer, unreachable, answer, read_body}

-- The credentials are those of HTTP Basic authentication, and not in the form.
unfoldable pub client_request : ClientCredentialsConfig → String → String → TokenRequest
unfolding set update join
client_request cfg client_id client_secret =
    let form = update (("grant_type", "client_credentials") ∷ []) cfg.extra_params in
    record {
      url = cfg.token_url;
      form = if is_empty cfg.scopes then form else set form "scope" (join " " cfg.scopes);
      basic_auth = some (client_id, client_secret);
    }

abbrev pub lifetime_of : Python → Option Json → Result ℕ
lifetime_of py none = ok 3600
lifetime_of py (some v) = or_raise (py.float v)

-- The token that an answer at a time gives.
unfoldable pub fetched_token : Python → ℕ → TokenAnswer → Result CachedToken
unfolding read_body ◌>>=◌ get
fetched_token py now unreachable = err (token_refresh none)
fetched_token py now (answer status body) =
    if not (eqb status 200)
    then err (token_refresh (some status))
    else read_body (token_refresh none) body >>= λ fields.
        lifetime_of py (get fields "expires_in") >>= λ lifetime.
        item (get fields "access_token") >>= λ access.
        ok (record { access_token = py_str py.nested_text access; expires_at = now + lifetime })
