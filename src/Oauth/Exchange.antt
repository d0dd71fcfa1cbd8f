-- ===== src/Oauth/Exchange.antt =====
-- The requests to the token endpoint and the reading of its answers, _exchange_code of
-- runtime/oauth_handler.py.

use specmcp.Prelude.{ℕ, String, Bool, not, ◌||◌, Option, none, some, [], ◌∷◌, eqb, if◌then◌else◌}
use specmcp.Prelude.Dict.{Dict, set, update, has}
use specmcp.Prelude.Text.{is_nil, has_prefix}
use specmcp.Json.{Json, str, arr, obj, to_dict, holds_str}
use specmcp.Errors.Result.{Error, Result, ok, err, ◌>>=◌, python_error}
use specmcp.Auth.Tokens.{OauthTokens, Python, from_token_response}
use specmcp.Oauth.{Scheme}

-- The request of the token endpoint.
pub record TokenRequest : Type 0 where
  pub url : String
  pub form : Dict String
  pub basic_auth : Option (String × String)

-- Where a public client has no secret, its id is in the form.
unfoldable pub with_client : Scheme → Dict String → TokenRequest
unfolding set
with_client scheme form = elim scheme.client_secret [
  | some secret ↦ record {
    url = scheme.token_url;
    form = form;
    basic_auth = some (scheme.client_id, secret);
  }
  | none ↦ record {
    url = scheme.token_url;
    form = set form "client_id" scheme.client_id;
    basic_auth = none;
  }
]

unfoldable pub exchange_request : Scheme → String → String → TokenRequest
unfolding with_client update
exchange_request scheme auth_code verifier = with_client scheme (
    update
      (("grant_type", "authorization_code")
        ∷ ("code", auth_code)
        ∷ ("redirect_uri", scheme.redirect_uri)
        ∷ ("code_verifier", verifier)
        ∷ [])
      scheme.extra_params)

-- What the token endpoint answers: nothing, or a status and a body, which may be no JSON.
pub data TokenAnswer : Type 0 where
  unreachable : TokenAnswer
  answer : ℕ → Option Json → TokenAnswer

-- needle in s
unfoldable pub has_substring : String → String → Bool
has_substring String.[] needle = is_nil needle
has_substring (String.◌∷◌ c s) needle = has_prefix (String.◌∷◌ c s) needle || has_substring s needle

-- `"access_token" in body`, and then the dictionary that the code takes the body for.
unfoldable pub read_body : Error → Option Json → Result (Dict Json)
unfolding has_substring
read_body missing none = err missing
read_body missing (some (obj fs)) =
    if has (to_dict fs) "access_token" then ok (to_dict fs) else err missing
read_body missing (some (arr vs)) =
    if holds_str "access_token" vs then err python_error else err missing
read_body missing (some (str s)) =
    if has_substring s "access_token" then err python_error else err missing
read_body missing (some v) = err python_error

-- The end of _exchange_code. Its RuntimeError is `python_error` here.
unfoldable pub exchanged : Python → ℕ → TokenAnswer → Result OauthTokens
unfolding read_body from_token_response ◌>>=◌
exchanged py now unreachable = err python_error
exchanged py now (answer status body) =
    if not (eqb status 200)
    then err python_error
    else read_body python_error body >>= λ fields. from_token_response py now fields none
