-- ===== src/Oauth/Nonces.antt =====
-- The methods of OAuthHandlerState.
pub mod Consumed
use specmcp.Prelude.{ℕ, String, Option, none, some}
use specmcp.Auth.LoginNonce.{issue, consume}
use specmcp.Oauth.{Outside, OauthState}

abbrev with_scheme : String → Option String → Option (String × String)
with_scheme session_id none = none
with_scheme session_id (some scheme_name) = some (session_id, scheme_name)

module _ {outside : Outside} where
  unfoldable pub issue_nonce :
      ℕ → String → String → String → OauthState outside → OauthState outside
  issue_nonce now nonce session_id scheme_name s = record s {
    nonce_store = issue outside.nonces now nonce session_id s.nonce_store;
    nonce_scheme = outside.scheme_names.insert now nonce scheme_name s.nonce_scheme;
  }

  abbrev consume_scheme :
      ℕ
      → String
      → Option String
      → OauthState outside
      → Option (String × String) × OauthState outside
  consume_scheme now nonce none s = (none, s)
  consume_scheme now nonce (some session_id) s = (
    with_scheme session_id (outside.scheme_names.peek now s.nonce_scheme nonce),
    record s { nonce_scheme = outside.scheme_names.pop now nonce s.nonce_scheme },
  )

  unfoldable pub consume_nonce :
      ℕ → String → OauthState outside → Option (String × String) × OauthState outside
  consume_nonce now nonce s =
      let (found, store) = consume outside.nonces now nonce s.nonce_store in
      consume_scheme now nonce found (record s { nonce_store = store })

  unfoldable pub store_verifier :
      ℕ → String → String → String → OauthState outside → OauthState outside
  store_verifier now state verifier scheme_name s = record s {
    pkce_store = outside.verifiers.insert now state (verifier, scheme_name) s.pkce_store;
  }

  unfoldable pub consume_verifier :
      ℕ → String → OauthState outside → Option (String × String) × OauthState outside
  consume_verifier now state s = (
    outside.verifiers.peek now s.pkce_store state,
    record s { pkce_store = outside.verifiers.pop now state s.pkce_store },
  )
