-- ===== src/Auth/AuthCode.antt =====
-- The handler of the authorization-code schemes in the injector, auth/oauth2_authcode.py. Its lock for
-- a session keeps other calls of the session out while it refreshes; what the token endpoint answers,
-- and the nonce that `issue_nonce` draws (`none` if it raises), are arguments.
pub mod Raised
pub mod Applied
use Prim.Native.String
use specmcp.Prelude.{
  ℕ, String, Bool, true, false, not, Option, none, some, List, [], ◌∷◌, ◌++◌, is_empty, eqb,
  if◌then◌else◌,
}
use specmcp.Prelude.Dict.{Dict, set}
use specmcp.Prelude.Text.{is_nil, join, rstrip}
use specmcp.Prelude.{Char, code}
use specmcp.Errors.Result.{Error, Result, ok, err, ◌>>=◌, auth_config, auth_required, token_refresh}
use specmcp.Auth.Tokens.{OauthTokens, Python, is_expired, from_token_response}
use specmcp.Auth.Injector.{Credentials, with_bearer}
use specmcp.Oauth.{Scheme, Outside, OauthState, set_store}
use specmcp.Oauth.Nonces.{issue_nonce}
use specmcp.Oauth.Exchange.{TokenRequest, TokenAnswer, unreachable, answer, with_client, read_body}

pub record AuthCodeHandler : Type 0 where
  pub scheme_name : String
  pub scheme : Scheme
  pub login_base_url : String

-- The request of _do_refresh.
unfoldable pub refresh_request : Scheme → String → TokenRequest
unfolding with_client join
refresh_request scheme refresh_token =
    let form = ("grant_type", "refresh_token") ∷ ("refresh_token", refresh_token) ∷ [] in
    with_client scheme
      (if is_empty scheme.scopes then form else form ++ ("scope", join " " scheme.scopes) ∷ [])

-- The tokens that _do_refresh returns.
unfoldable pub refreshed : Python → ℕ → TokenAnswer → String → Result OauthTokens
unfolding read_body from_token_response ◌>>=◌
refreshed py now unreachable refresh_token = err (token_refresh none)
refreshed py now (answer status body) refresh_token =
    if not (eqb status 200)
    then err (token_refresh (some status))
    else read_body (token_refresh none) body >>= λ fields.
        from_token_response py now fields (some refresh_token)

abbrev is_slash : Char → Bool
is_slash c = eqb (code c) b'/'

-- `base.rstrip("/")` is made when the handler is.
abbrev pub login_url : AuthCodeHandler → String → String
login_url handler nonce =
    String.◌++◌ (rstrip is_slash handler.login_base_url) (String.◌++◌ "/auth/login?nonce=" nonce)

module _ (outside : Outside) (handler : AuthCodeHandler) where
  abbrev pub Applied : Type 0
  Applied = OauthState outside × Result Credentials

  -- The end of `apply`: _build_login_url and AuthRequiredError.
  unfoldable pub require_login : ℕ → String → Option String → OauthState outside → Applied
  unfolding issue_nonce
  require_login now session_id none s = (s, err (auth_required none))
  require_login now session_id (some nonce) s = (
    issue_nonce now nonce session_id handler.scheme_name s,
    err (auth_required (some (login_url handler nonce))),
  )

  abbrev pub keep_refreshed :
      OauthTokens → Result outside.store.State → OauthState outside → Credentials → Applied
  keep_refreshed tokens (ok store) s c = (
    record s { stores = set_store s.stores handler.scheme_name store },
    ok (with_bearer tokens.access_token c),
  )
  keep_refreshed tokens (err e) s c = (s, err e)

  -- TokenRefreshError is caught; any other exception is not. The time is that after the refresh.
  abbrev pub after_refresh :
      ℕ → String → Option String → Result OauthTokens → OauthState outside → Credentials → Applied
  after_refresh now session_id drawn (ok tokens) s c =
      keep_refreshed tokens (outside.store.save (s.stores handler.scheme_name) session_id tokens) s
        c
  after_refresh now session_id drawn (err (token_refresh status)) s c =
      require_login now session_id drawn s
  after_refresh now session_id drawn (err e) s c = (s, err e)

  abbrev pub try_refresh :
      ℕ
      → ℕ
      → TokenAnswer
      → String
      → Option String
      → Option String
      → OauthState outside
      → Credentials
      → Applied
  try_refresh now later ans session_id drawn none s c = require_login now session_id drawn s
  try_refresh now later ans session_id drawn (some refresh_token) s c =
      after_refresh later session_id drawn (refreshed outside.python later ans refresh_token) s c

  abbrev pub with_found :
      ℕ
      → ℕ
      → TokenAnswer
      → String
      → Option String
      → Result (Option OauthTokens)
      → OauthState outside
      → Credentials
      → Applied
  with_found now later ans session_id drawn (err e) s c = (s, err e)
  with_found now later ans session_id drawn (ok none) s c = require_login now session_id drawn s
  with_found now later ans session_id drawn (ok (some tokens)) s c =
      if not (is_expired now tokens)
      then (s, ok (with_bearer tokens.access_token c))
      else try_refresh now later ans session_id drawn tokens.refresh_token s c

  -- The session id is `none` for no session, or one without an id.
  unfoldable pub apply :
      ℕ
      → ℕ
      → TokenAnswer
      → Option String
      → Option String
      → OauthState outside
      → Credentials
      → Applied
  unfolding refreshed require_login
  apply now later ans drawn none s c = (s, err auth_config)
  apply now later ans drawn (some session_id) s c =
      if is_nil session_id
      then (s, err auth_config)
      else with_found now later ans session_id drawn
          (outside.store.get (s.stores handler.scheme_name) session_id) s c
