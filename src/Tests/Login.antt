-- ===== src/Tests/Login.antt =====
-- Examples of the OAuth endpoints.
use Prim.Native.String
use specmcp.Prelude.{
  ℕ, ◌≤◌, String, ◌≡◌, ◌≢◌, refl, ap, inl, true, false, none, some, List, [], ◌∷◌, arith,
}
use specmcp.Prelude.Dict.{Dict, get, set, remove}
use specmcp.Prelude.Text.{strip, all_chars}
use specmcp.Json.{str, obj, field, end, get_or}
use specmcp.Oauth.Exchange.{TokenAnswer, answer, exchanged, read_body}
use specmcp.Errors.Result.{ok}
use specmcp.Auth.State.{Bytes, make_state}
use specmcp.Auth.Tokens.{OauthTokens}
use specmcp.Auth.TtlCache.Table.{table_cache}
use specmcp.Auth.TokenStore.Memory.{memory_store, memory_store-IsMap}
use specmcp.Oauth.{
  Scheme, Settings, Outside, OauthState, Response, authenticated, html, empty, success, failure,
}
use specmcp.Oauth.Login.{handle_login, generate_challenge, signed_state}
use specmcp.Oauth.Callback.{begin_callback, finish_callback, escape}
use specmcp.Oauth.Callback.Escaped.{is_plain, begin_callback-plain}
use specmcp.Oauth.Session.{check_management_access, handle_status, handle_delete_session}
use specmcp.Oauth.Session.Access.{IsAuthorized, handle_delete_session-IsAuthorized}
use specmcp.Oauth.Session.Deleted.{IsDeleted, handle_delete_session-IsDeleted}
use specmcp.Oauth.Session.Stored.{IsStored, finish_callback-IsStored}
use specmcp.Oauth.System.{
  Event, issued, login, callback, finished, System, initial, step, Reach, start, next,
}
use specmcp.Oauth.System.Owned.{AreOwned, Reach-AreOwned}
use specmcp.Oauth.System.Single.{issues, redirects, redirects-le-issues}
use specmcp.Oauth.Flow.{Attempt, exchange_of}
use specmcp.Tests.Codec.{
  codes, from_codes, from_codes-codes, to_letters, read_letters, from_letters-to_letters, python,
}

abbrev zeros : Bytes
zeros = 0 ∷ 0 ∷ 0 ∷ 0 ∷ 0 ∷ 0 ∷ 0 ∷ 0 ∷ 0 ∷ 0 ∷ 0 ∷ 0 ∷ 0 ∷ 0 ∷ 0 ∷ 0 ∷ []

abbrev pub outside : Outside
outside = record {
  nonces = table_cache 300;
  scheme_names = table_cache 300;
  verifiers = table_cache 600;
  store = memory_store;
  python = python;
  hmac = λ b. zeros;
  sha256 = λ b. b;
  utf8 = codes;
  from_utf8 = from_codes;
  base64 = to_letters;
  from_base64 = read_letters;
  from_utf8_utf8 = from_codes-codes;
  from_base64_base64 = from_letters-to_letters;
}

abbrev pub idp : Scheme
idp = record {
  client_id = "client";
  client_secret = some "secret";
  authorization_url = "https://idp.example/authorize";
  token_url = "https://idp.example/token";
  redirect_uri = "https://host.example/auth/callback";
  scopes = "read" ∷ [];
  extra_params = ("audience", "api") ∷ [];
}

abbrev pub settings : Settings
settings = record {
  schemes = ("idp", idp) ∷ [];
  management_token = none;
  management_bind_all = false;
}

abbrev no_stores : String → Dict OauthTokens
no_stores name = []

-- What is signed for the session s at the time 20.
abbrev token : Bytes
token = 0 ∷ 1 ∷ 115 ∷ 0 ∷ 0 ∷ 0 ∷ 0 ∷ 0 ∷ 0 ∷ 0 ∷ 20 ∷ zeros

abbrev pub signed : String
signed = to_letters token

made_test : make_state outside.hmac (codes "s") 20 ≡ some token
unfolding make_state
made_test = refl

abbrev attempt : Attempt
attempt = record {
  session_id = "s";
  scheme_name = "idp";
  nonce = "n";
  verifier = "v";
  scheme = idp;
  challenge = to_letters (118 ∷ []);
  state = signed;
  issued_at = 10;
  login_at = 20;
}

abbrev pub fresh : OauthState outside
fresh = (initial outside no_stores).state

abbrev opened : System outside
opened = step outside settings 10 (issued "n" "s" "idp") (initial outside no_stores)

abbrev redirected : System outside
redirected = step outside settings 20 (login "v" "n") opened

abbrev waiting : System outside
waiting = step outside settings 30 (callback "" signed "c") redirected

abbrev journey_log : List Event
journey_log = callback "" signed "c" ∷ login "v" "n" ∷ issued "n" "s" "idp" ∷ []

abbrev journey : Reach outside settings no_stores 30 journey_log waiting
journey =
    next 20 30 (login "v" "n" ∷ issued "n" "s" "idp" ∷ []) redirected (callback "" signed "c")
      (next 10 20 (issued "n" "s" "idp" ∷ []) opened (login "v" "n")
        (next 0 10 [] (initial outside no_stores) (issued "n" "s" "idp") (start 0) (omega arith))
        (omega arith))
      (omega arith)

waiting_test : waiting.exchanges ≡ exchange_of attempt "c" ∷ []
unfolding step begin_callback get set remove strip generate_challenge signed_state
waiting_test = refl

Reach-AreOwned_example : AreOwned journey_log waiting.exchanges
Reach-AreOwned_example = Reach-AreOwned outside settings no_stores 30 journey_log waiting journey

redirects_test : redirects outside settings journey "n" ≡ 1
unfolding handle_login step get set remove strip generate_challenge signed_state
redirects_test = refl

redirects-le-issues_example : redirects outside settings journey "n" ≤ issues journey_log "n"
redirects-le-issues_example =
    redirects-le-issues outside settings no_stores 30 journey_log waiting journey "n"

abbrev pub tokens : OauthTokens
tokens = record {
  access_token = "at";
  refresh_token = some "rt";
  expires_at = 4000;
  token_type = str "Bearer";
  scope = str "read";
}

-- The tokens of the token endpoint's answer are then stored for the session.
abbrev answered : TokenAnswer
answered =
    answer 200 (some (obj (field "access_token" (str "at") (field "scope" (str "read") end))))

finished_test :
    (step outside settings 40 (finished answered) waiting).state.stores "idp"
    ≡ (
      "s",
      record {
        access_token = "at";
        refresh_token = none;
        expires_at = 0;
        token_type = str "Bearer";
        scope = str "read";
      },
    )
      ∷ []
unfolding step finish_callback exchanged read_body begin_callback handle_login get get_or set remove
    strip generate_challenge signed_state
finished_test = refl

finish_callback-IsStored_example :
    IsStored outside
      (λ d. Unit)
      (λ d k. get d k)
      memory_store-IsMap
      settings
      (exchange_of attempt "c")
      tokens
      fresh
      (finish_callback outside settings (exchange_of attempt "c") (ok tokens) fresh).0
    × ((finish_callback outside settings (exchange_of attempt "c") (ok tokens) fresh).1
        ≡ html 200 (success "You are now authenticated."))
    × (handle_status outside settings 100 "s"
          (finish_callback outside settings (exchange_of attempt "c") (ok tokens) fresh).0
        ≡ authenticated 200 true)
unfolding get strip
finish_callback-IsStored_example =
    finish_callback-IsStored outside (λ d. Unit) (λ d k. get d k) memory_store-IsMap settings
      (exchange_of attempt "c") tokens fresh 100 (λ j. tt) refl refl refl refl refl refl

abbrev logged_state : OauthState outside
logged_state = record fresh { stores = λ name. ("s", tokens) ∷ ("t", tokens) ∷ [] }

handle_delete_session-IsDeleted_example :
    IsDeleted outside
      (λ d. Unit)
      (λ d k. get d k)
      memory_store-IsMap
      "s"
      ("idp" ∷ [])
      logged_state
      (handle_delete_session outside settings (some "::1") "" "s" logged_state).0
unfolding strip check_management_access
handle_delete_session-IsDeleted_example =
    handle_delete_session-IsDeleted outside (λ d. Unit) (λ d k. get d k) memory_store-IsMap "s"
      settings (some "::1") "" "s" logged_state (λ j. tt) refl refl refl

deletion_test :
    (handle_delete_session outside settings (some "::1") "" "s" logged_state).1 ≡ empty 204
unfolding handle_delete_session get
deletion_test = refl

abbrev status_of : Response → ℕ
status_of (empty n) = n
status_of r = 0

not_refused : ◌≢◌ {A = ℕ} 204 403
not_refused e = omega arith

handle_delete_session-IsAuthorized_example : IsAuthorized settings (some "::1") ""
unfolding handle_delete_session get
handle_delete_session-IsAuthorized_example =
    handle_delete_session-IsAuthorized outside settings (some "::1") "" "s" logged_state
      (λ e. not_refused (ap (λ (r : OauthState outside × Response). status_of r.1) e))

begin_callback-plain_example :
    (begin_callback outside settings 30 "<b>" "" "" fresh
      ≡ (fresh, inl (html 200 (failure (String.◌++◌ "Authorization failed: " (escape "<b>"))))))
    × (all_chars is_plain (escape "<b>") ≡ true)
unfolding strip
begin_callback-plain_example = begin_callback-plain outside settings 30 "<b>" "" "" fresh refl
