-- ===== src/Oauth/Flow.antt =====
-- A login from the issue of its nonce to the tokens.
use specmcp.Prelude.{ℕ, ◌+◌, ◌≤◌, ◌<◌, String, ◌≡◌, false, some}
use specmcp.Prelude.Dict.{get}
use specmcp.Prelude.Text.{is_nil}
use specmcp.Oauth.{Scheme, Settings, Outside, OauthState, query}
use specmcp.Oauth.Nonces.{issue_nonce}
use specmcp.Oauth.Login.{Answer, handle_login, generate_challenge, signed_state}
use specmcp.Oauth.Callback.{Exchange}

-- A session, a scheme that is configured, and a nonce and a verifier that were drawn.
pub record Attempt : Type 0 where
  pub session_id : String
  pub scheme_name : String
  pub nonce : String
  pub verifier : String
  pub scheme : Scheme
  pub challenge : String
  pub state : String
  pub issued_at : ℕ
  pub login_at : ℕ

abbrev pub issued_state : {outside : Outside} → Attempt → OauthState outside → OauthState outside
issued_state a s = issue_nonce a.issued_at a.nonce a.session_id a.scheme_name s

abbrev pub exchange_of : Attempt → String → Exchange
exchange_of a auth_code = record {
  session_id = a.session_id;
  scheme_name = a.scheme_name;
  verifier = a.verifier;
  auth_code = auth_code;
}

module _ (outside : Outside) (settings : Settings) where
  -- The nonce and the state are texts that stripping leaves alone, the nonce is used in its time, and
  -- the state is what is signed for the session.
  pub record IsTimely (a : Attempt) : Type 0 where
    pub known : get settings.schemes a.scheme_name ≡ some a.scheme
    pub nonce_stripped : query a.nonce ≡ a.nonce
    pub nonce_given : is_nil a.nonce ≡ false
    pub challenged : generate_challenge outside a.verifier ≡ some a.challenge
    pub signed : signed_state outside a.session_id a.login_at ≡ some a.state
    pub state_stripped : query a.state ≡ a.state
    pub state_given : is_nil a.state ≡ false
    pub later : a.issued_at ≤ a.login_at
    pub in_time : a.login_at < a.issued_at + outside.nonces.ttl
    pub name_in_time : a.login_at < a.issued_at + outside.scheme_names.ttl

  abbrev pub logged_in : Attempt → OauthState outside → Answer outside
  logged_in a s = handle_login outside settings a.login_at a.verifier a.nonce (issued_state a s)
