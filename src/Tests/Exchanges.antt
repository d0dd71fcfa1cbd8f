-- ===== src/Tests/Exchanges.antt =====
-- Examples of refreshed tokens, of the redirect of a login, and of loading a document.

use specmcp.Prelude.{
  sym, ◌∙◌, inl, subst, String, ◌≡◌, refl, subst, true, none, some, [], ◌∷◌, arith, ◌==◌,
  if◌then◌else◌,
}
use specmcp.Prelude.Text.{join}
use specmcp.Prelude.Dict.{update, get, set}
use specmcp.Json.{null, str, arr, obj, Fields, end, field, nil, to_dict, get_or}
use specmcp.Errors.{spec_resolution_error}
use specmcp.Errors.Result.{ok, err, python_error, ◌>>=◌}
use specmcp.Auth.State.{make_state}
use specmcp.Auth.Tokens.{OauthTokens, from_token_response}
use specmcp.Auth.TokenStore.{has_whole_refresh}
use specmcp.Auth.TokenStore.Memory.{memory_store-IsMap}
use specmcp.Auth.Injector.{Credentials}
use specmcp.Auth.AuthCode.{refresh_request, AuthCodeHandler, refreshed, apply}
use specmcp.Auth.AuthCode.Applied.{IsApplied, apply-IsApplied, apply_raises}
use specmcp.Config.{validate_extra_params}
use specmcp.Load.{valid, Outside}
use specmcp.Errors.Loaded.{failed}
use specmcp.Errors.Result.{ok_injective}
use specmcp.Oauth.{Scheme, OauthState, set_store}
use specmcp.Oauth.Exchange.{with_client, exchange_request, TokenAnswer, answer, read_body}
use specmcp.Oauth.Login.{Answer, start_login, signed_state, generate_challenge}
use specmcp.Oauth.Login.Cases.{IsRedirect}
use specmcp.Oauth.Login.Params.{carried, login_params_lem, login_params_replaced, logins_collide}
use specmcp.Oauth.Nonces.{consume_verifier}
use specmcp.Tests.Codec.{to_letters}
use specmcp.Tests.Login.{outside, idp, settings, tokens, fresh, signed}

abbrev handler : AuthCodeHandler
handler = record { scheme_name = "idp"; scheme = idp; login_base_url = "https://host.example/" }

abbrev logged_in : OauthState outside
logged_in = record fresh { stores = λ name. ("s", tokens) ∷ [] }

abbrev no_credentials : Credentials
no_credentials = ([], [])

-- An answer without a refresh token: the one that was sent is carried over.
abbrev refresh_answer : TokenAnswer
refresh_answer = answer 200 (some (obj (field "access_token" (str "new") end)))

abbrev refreshed_tokens : OauthTokens
refreshed_tokens = record {
  access_token = "new";
  refresh_token = some "rt";
  expires_at = 0;
  token_type = str "Bearer";
  scope = str "";
}

refreshed_test : refreshed outside.python 5000 refresh_answer "rt" ≡ ok refreshed_tokens
unfolding refreshed read_body from_token_response ◌>>=◌ get get_or
refreshed_test = refl

whole_test :
    (old : OauthTokens) (r : String) (t : OauthTokens)
    → get (logged_in.stores "idp") "s" ≡ some old
    → old.refresh_token ≡ some r
    → refreshed outside.python 5000 refresh_answer r ≡ ok t
    → has_whole_refresh t ≡ true
unfolding get
whole_test old r t stored had h =
    let same : tokens ≡ old = cc in
    let mine : some "rt" ≡ some r = subst (λ u. u.refresh_token ≡ some r) (sym same) had in
    let e : "rt" ≡ r = cc in
    let h1 : refreshed outside.python 5000 refresh_answer "rt" ≡ ok t =
      subst (λ u. refreshed outside.python 5000 refresh_answer u ≡ ok t) (sym e) h in
    let e1 : refreshed_tokens ≡ t = ok_injective (sym refreshed_test ∙ h1) in
    subst (λ u. has_whole_refresh u ≡ true) e1 refl

-- The secret of a confidential client goes into the header, and a public client's id into the form.
request_test :
    (exchange_request idp "c" "v" ≡ record {
      url = "https://idp.example/token";
      form =
          ("grant_type", "authorization_code")
          ∷ ("code", "c")
          ∷ ("redirect_uri", "https://host.example/auth/callback")
          ∷ ("code_verifier", "v")
          ∷ ("audience", "api")
          ∷ [];
      basic_auth = some ("client", "secret");
    })
    × (refresh_request (record idp { client_secret = none }) "rt" ≡ record {
      url = "https://idp.example/token";
      form =
          ("grant_type", "refresh_token")
          ∷ ("refresh_token", "rt")
          ∷ ("scope", "read")
          ∷ ("client_id", "client")
          ∷ [];
      basic_auth = none;
    })
unfolding exchange_request refresh_request with_client update set join
request_test = (refl, refl)

abbrev refreshed_state : OauthState outside
refreshed_state = record logged_in {
  stores = set_store logged_in.stores "idp" (("s", refreshed_tokens) ∷ []);
}

apply-IsApplied_example :
    IsApplied outside
      (λ d. Unit)
      (λ d k. get d k)
      memory_store-IsMap
      handler
      4000
      5000
      refresh_answer
      "s"
      none
      logged_in
      no_credentials
      refreshed_state
      (("Authorization", "Bearer new") ∷ [], [])
unfolding apply refreshed read_body from_token_response ◌>>=◌ get get_or set
apply-IsApplied_example =
    apply-IsApplied outside (λ d. Unit) (λ d k. get d k) memory_store-IsMap handler 4000 5000
      refresh_answer "s" none logged_in no_credentials tt whole_test refreshed_state
      (("Authorization", "Bearer new") ∷ [], []) refl refl

abbrev no_lifetime : Fields
no_lifetime = field "access_token" (str "new") (field "expires_in" null end)

apply_raises_example :
    apply outside handler 4000 5000
      (answer 200 (some (obj no_lifetime)))
      none
      (some "s")
      logged_in
      no_credentials
    ≡ (logged_in, err python_error)
unfolding get
apply_raises_example =
    apply_raises outside (λ d. Unit) (λ d k. get d k) memory_store-IsMap handler 4000 5000
      no_lifetime null (str "new") "s" "rt" none tokens logged_in no_credentials tt refl refl refl
      refl refl refl refl (inl refl)

login_params_lem_example :
    (carried idp "S" "C" "response_type" ≡ some "code")
    × (carried idp "S" "C" "client_id" ≡ some idp.client_id)
    × (carried idp "S" "C" "redirect_uri" ≡ some idp.redirect_uri)
    × (carried idp "S" "C" "state" ≡ some "S")
    × (carried idp "S" "C" "code_challenge" ≡ some "C")
    × (carried idp "S" "C" "code_challenge_method" ≡ some "S256")
unfolding validate_extra_params
login_params_lem_example = login_params_lem idp "S" "C" idp.extra_params refl refl refl refl

abbrev fixed_state : Scheme
fixed_state = record idp { extra_params = ("state", "mine") ∷ [] }

accepted_test : validate_extra_params fixed_state.extra_params ≡ some fixed_state.extra_params
unfolding validate_extra_params
accepted_test = refl

login_params_replaced_example :
    (validate_extra_params fixed_state.extra_params ≡ some fixed_state.extra_params)
    × (carried fixed_state "S" "C" "state" ≡ some "mine")
unfolding get
login_params_replaced_example =
    login_params_replaced fixed_state "S" "C" "state" "mine" (refl, tt) refl refl

abbrev login_of : String → OauthState outside → Answer outside
login_of verifier s = start_login outside settings 20 verifier (some ("s", "idp")) s

abbrev first_login :
    IsRedirect outside settings 20 "v" (some ("s", "idp")) fresh (login_of "v" fresh)
unfolding get generate_challenge signed_state make_state
first_login = record {
  session_id = "s";
  scheme_name = "idp";
  scheme = idp;
  challenge = to_letters (118 ∷ []);
  state = signed;
  owner = refl;
  known = refl;
  challenged = refl;
  signed = refl;
  target = refl;
  stored = refl;
}

abbrev second_login :
    IsRedirect outside settings 20 "w"
      (some ("s", "idp"))
      (login_of "v" fresh).0
      (login_of "w" (login_of "v" fresh).0)
unfolding get generate_challenge signed_state make_state
second_login = record {
  session_id = "s";
  scheme_name = "idp";
  scheme = idp;
  challenge = to_letters (119 ∷ []);
  state = signed;
  owner = refl;
  known = refl;
  challenged = refl;
  signed = refl;
  target = refl;
  stored = refl;
}

logins_collide_example :
    (first_login.state ≡ second_login.state)
    × ((consume_verifier 30 first_login.state (login_of "w" (login_of "v" fresh).0).0).0
        ≡ some ("w", "idp"))
unfolding first_login second_login
logins_collide_example =
    logins_collide outside settings 20 30 "v" "w" (some ("s", "idp")) (some ("s", "idp")) fresh
      (login_of "v" fresh).0 (login_of "v" fresh) (login_of "w" (login_of "v" fresh).0) first_login
      second_login refl (omega arith) (omega arith)

abbrev document : Fields
document = field "openapi" (str "3.1.0") end

-- A directory with the file api.json, whose text stands for the document, and the file list.json.
abbrev pub files : Outside
files = record {
  fetch = λ url. failed spec_resolution_error;
  read_file = λ path.
      if path == "api.json" then some "{" else if path == "list.json" then some "[" else none;
  json_loads = λ text.
      if text == "{" then some (obj document) else if text == "[" then some (arr nil) else none;
  yaml_load = λ text. none;
  resolve = λ path. if path == "api.json" then some (to_dict document) else none;
  validate = λ d. valid;
}
