-- ===== src/Oauth/Login.antt =====
-- _handle_login, with generate_challenge of auth/pkce.py and make_state of auth/state.py.
pub mod Cases
pub mod Params
use Prim.Native.String
use specmcp.Prelude.{ℕ, String, Option, none, some, [], ◌∷◌, is_empty, if◌then◌else◌, map}
use specmcp.Prelude.Dict.{Dict, get, set, update}
use specmcp.Prelude.Text.{is_nil, join, strip}
use specmcp.Dispatch.Quote.{quote_plus}
use specmcp.Auth.State.{Bytes, make_state}
use specmcp.Oauth.{
  Scheme, Settings, Outside, OauthState, Response, html, redirect, raised, failure, query,
}
use specmcp.Oauth.Nonces.{consume_nonce, store_verifier}

abbrev pair : String × String → String
pair (k, v) = String.◌++◌ (quote_plus k) (String.◌++◌ "=" (quote_plus v))

-- urllib.parse.urlencode
unfoldable pub urlencode : Dict String → String
unfolding quote_plus join
urlencode params = join "&" (map pair params)

-- The parameters of the authorization URL.
unfoldable pub login_params : Scheme → String → String → Dict String
unfolding update set join
login_params scheme signed_state challenge =
    let params =
      update
        (("response_type", "code")
          ∷ ("client_id", scheme.client_id)
          ∷ ("redirect_uri", scheme.redirect_uri)
          ∷ ("state", signed_state)
          ∷ ("code_challenge", challenge)
          ∷ ("code_challenge_method", "S256")
          ∷ [])
        scheme.extra_params in
    if is_empty scheme.scopes then params else set params "scope" (join " " scheme.scopes)

unfoldable pub auth_url : Scheme → String → String → String
unfolding urlencode login_params
auth_url scheme signed_state challenge =
    String.◌++◌ scheme.authorization_url
      (String.◌++◌ "?" (urlencode (login_params scheme signed_state challenge)))

module _ (outside : Outside) where
  -- `none` is ValueError, of an empty verifier.
  unfoldable pub generate_challenge : String → Option String
  generate_challenge verifier =
      if is_nil verifier
      then none
      else some (outside.base64 (outside.sha256 (outside.utf8 verifier)))

  abbrev pub encoded : Option Bytes → Option String
  encoded none = none
  encoded (some token) = some (outside.base64 token)

  -- make_state on texts
  unfoldable pub signed_state : String → ℕ → Option String
  unfolding make_state
  signed_state session_id now = encoded (make_state outside.hmac (outside.utf8 session_id) now)

  abbrev pub Answer : Type 0
  Answer = OauthState outside × Response

  -- The end of the handler, from the challenge on.
  abbrev pub go_to :
      ℕ → String → String → Scheme → Option String → Option String → OauthState outside → Answer
  go_to now verifier scheme_name scheme (some challenge) (some state) s =
      (store_verifier now state verifier scheme_name s, redirect (auth_url scheme state challenge))
  go_to now verifier scheme_name scheme challenge state s = (s, raised)

  abbrev pub start_login :
      Settings → ℕ → String → Option (String × String) → OauthState outside → Answer
  start_login settings now verifier none s = (
    s,
    html 400 (
        failure
          "The login link has expired or already been used. Please retry your request to get a new link."),
  )
  start_login settings now verifier (some (session_id, scheme_name)) s =
      elim (get settings.schemes scheme_name) [
        | none ↦ (s, html 500 (failure "Auth scheme configuration error."))
        | some scheme ↦
            go_to now verifier scheme_name scheme (generate_challenge verifier)
              (signed_state session_id now) s
      ]

  unfoldable pub handle_login : Settings → ℕ → String → String → OauthState outside → Answer
  unfolding consume_nonce store_verifier generate_challenge signed_state auth_url get strip
  handle_login settings now verifier nonce_param s =
      let nonce = query nonce_param in
      if is_nil nonce
      then (s, html 400 (failure "Missing login nonce."))
      else (let (found, after) = consume_nonce now nonce s in
          start_login settings now verifier found after)
