-- ===== src/Oauth/Callback.antt =====
-- _handle_callback, up to the exchange of the code and after it.
pub mod Begun
pub mod Kept
pub mod Named
pub mod Escaped
use Prim.Native.String
use Prim.Native.Char.{Char, code}
use specmcp.Prelude.{
  ℕ, String, Bool, true, false, not, ◌||◌, Option, none, some, List, [], ◌⊎◌, inl, inr, is_empty,
  eqb, if◌then◌else◌,
}
use specmcp.Prelude.Dict.{get}
use specmcp.Prelude.Text.{is_nil, strip}
use specmcp.Json.{Json, null, str}
use specmcp.Errors.Result.{Result, ok, err}
use specmcp.Auth.State.{Bytes, verify_state}
use specmcp.Auth.Tokens.{OauthTokens}
use specmcp.Oauth.{
  Scheme, Settings, Outside, OauthState, Response, html, raised, success, failure, query, set_store,
}
use specmcp.Oauth.Nonces.{consume_verifier}

abbrev escaped_char : Char → String
escaped_char c =
    let n = code c in
    if eqb n b'&'
    then "&amp;"
    else if eqb n b'<'
    then "&lt;"
    else if eqb n b'>'
    then "&gt;"
    else if eqb n 34
    then "&quot;"
    else if eqb n 39
    then "&#x27;"
    else String.◌∷◌ c String.[]

-- html.escape
unfoldable pub escape : String → String
escape String.[] = String.[]
escape (String.◌∷◌ c s) = String.◌++◌ (escaped_char c) (escape s)

-- What a handler holds while it waits for the token endpoint.
pub record Exchange : Type 0 where
  pub session_id : String
  pub scheme_name : String
  pub verifier : String
  pub auth_code : String

module _ (outside : Outside) where
  abbrev pub id_of : Option Bytes → Option String
  id_of none = none
  id_of (some bytes) = outside.from_utf8 bytes

  abbrev pub verified : Option Bytes → ℕ → Option String
  verified none now = none
  verified (some raw) now = id_of (verify_state outside.hmac raw now 600)

  -- verify_state on texts; `none` is ValueError
  unfoldable pub verify_text : String → ℕ → Option String
  unfolding verify_state
  verify_text state now = verified (outside.from_base64 state) now

  -- An answer at once, or an exchange to wait for.
  abbrev pub Begun : Type 0
  Begun = OauthState outside × (Response ⊎ Exchange)

  abbrev pub answered : OauthState outside → ℕ → String → Begun
  answered s status message = (s, inl (html status (failure message)))

  abbrev pub with_entry :
      Settings → String → String → Option (String × String) → OauthState outside → Begun
  with_entry settings session_id auth_code none s =
      answered s 400 "Login session expired. Please try logging in again."
  with_entry settings session_id auth_code (some (verifier, scheme_name)) s =
      elim (get settings.schemes scheme_name) [
        | none ↦ answered s 500 "OAuth scheme configuration error."
        | some scheme ↦ (
          s,
          inr (record {
            session_id = session_id;
            scheme_name = scheme_name;
            verifier = verifier;
            auth_code = auth_code;
          }),
        )
      ]

  abbrev pub with_session :
      Settings → ℕ → String → String → Option String → OauthState outside → Begun
  with_session settings now raw_state auth_code none s =
      answered s 400 "State verification failed. Please try logging in again."
  with_session settings now raw_state auth_code (some session_id) s =
      let (entry, after) = consume_verifier now raw_state s in
      with_entry settings session_id auth_code entry after

  -- Steps 1 to 3, on the query's error, state and code.
  unfoldable pub begin_callback :
      Settings → ℕ → String → String → String → OauthState outside → Begun
  unfolding consume_verifier verify_text escape get strip
  begin_callback settings now error_param state_param code_param s =
      let error_code = query error_param in
      let raw_state = query state_param in
      let auth_code = query code_param in
      if not (is_nil error_code)
      then answered s 200 (String.◌++◌ "Authorization failed: " (escape error_code))
      else if is_nil raw_state || is_nil auth_code
      then answered s 400 "Missing code or state parameter."
      else with_session settings now raw_state auth_code (verify_text raw_state now) s

  -- `tokens.scope.split()`, for a scope that is no text
  abbrev pub splits : Json → Bool
  splits null = true
  splits (str s) = true
  splits v = false

  abbrev pub scheme_scopes : Option Scheme → List String
  scheme_scopes none = []
  scheme_scopes (some scheme) = scheme.scopes

  -- Whether _check_scope_downgrade, which only logs, returns.
  abbrev pub scope_checks : Settings → String → OauthTokens → Bool
  scope_checks settings name tokens =
      is_empty (scheme_scopes (get settings.schemes name)) || splits tokens.scope

  abbrev saved :
      String → Result outside.store.State → OauthState outside → OauthState outside × Response
  saved name (ok store) s = (
    record s { stores = set_store s.stores name store },
    html 200 (success "You are now authenticated."),
  )
  saved name (err e) s = (s, html 500 (failure "Failed to save authentication tokens."))

  -- Steps 5 and 6.
  unfoldable pub finish_callback :
      Settings → Exchange → Result OauthTokens → OauthState outside → OauthState outside × Response
  unfolding get
  finish_callback settings e (err raised_error) s =
      (s, html 400 (failure "Token exchange failed. Please try logging in again."))
  finish_callback settings e (ok tokens) s =
      if scope_checks settings e.scheme_name tokens
      then saved e.scheme_name (outside.store.save (s.stores e.scheme_name) e.session_id tokens) s
      else (s, raised)
