-- ===== src/Oauth.antt =====
-- The OAuth endpoints, runtime/oauth_handler.py: their state, and what they answer. Times are whole
-- seconds. The nonces and verifiers that are drawn at random, and the queries of the requests, are
-- arguments; a part of the code without `await` on the network is one step.
pub mod Nonces
pub mod Kept
pub mod Login
pub mod Exchange
pub mod Callback
pub mod Session
pub mod System
pub mod Flow
use specmcp.Prelude.{ℕ, String, ◌≡◌, Option, none, some, Bool, ◌==◌, if◌then◌else◌, List}
use specmcp.Prelude.Dict.{Dict}
use specmcp.Prelude.Text.{strip, is_space}
use specmcp.Auth.State.{Bytes}
use specmcp.Auth.TtlCache.{TtlCache}
use specmcp.Auth.TokenStore.{TokenStore}
use specmcp.Auth.Tokens.{Python}

-- ResolvedAuthCodeScheme with what is read of its configuration, and without its store.
pub record Scheme : Type 0 where
  pub client_id : String
  pub client_secret : Option String
  pub authorization_url : String
  pub token_url : String
  pub redirect_uri : String
  pub scopes : List String
  pub extra_params : Dict String

-- What does not change while the server runs.
pub record Settings : Type 0 where
  pub schemes : Dict Scheme
  pub management_token : Option String
  pub management_bind_all : Bool

-- What the handlers call. The HMAC is that of the server's secret.
pub record Outside : Type 1 where
  pub nonces : TtlCache String
  pub scheme_names : TtlCache String
  pub verifiers : TtlCache (String × String)
  pub store : TokenStore
  pub python : Python
  pub hmac : Bytes → Bytes
  pub sha256 : Bytes → Bytes
  pub utf8 : String → Bytes
  -- `none` is UnicodeDecodeError
  pub from_utf8 : Bytes → Option String
  -- urlsafe_b64encode without its padding, and its inverse; `none` is an exception
  pub base64 : Bytes → String
  pub from_base64 : String → Option Bytes
  pub from_utf8_utf8 : (s : String) → from_utf8 (utf8 s) ≡ some s
  pub from_base64_base64 : (b : Bytes) → from_base64 (base64 b) ≡ some b

-- OAuthHandlerState, and the stores of the schemes, which are one for each.
pub record OauthState (outside : Outside) : Type 0 where
  pub nonce_store : outside.nonces.State
  pub nonce_scheme : outside.scheme_names.State
  pub pkce_store : outside.verifiers.State
  pub stores : String → outside.store.State

-- The text of a page, html_success or html_error.
pub data Page : Type 0 where
  success failure : String → Page

-- A page has SECURITY_HEADERS; `raised` is an exception that leaves the handler.
pub data Response : Type 0 where
  html : ℕ → Page → Response
  redirect : String → Response
  authenticated : ℕ → Bool → Response
  empty : ℕ → Response
  raised : Response

-- request.query_params.get(…, "").strip()
abbrev pub query : String → String
query s = strip is_space s

abbrev pub set_store {ℓ} : {A : Type ℓ} → (String → A) → String → A → String → A
set_store stores name store j = if name == j then store else stores j
