-- ===== src/Tests/Upstream.antt =====
-- Examples of the HTTP client and of authentication.
use specmcp.Prelude.{
  ℕ, zero, suc, String, ◌≡◌, refl, true, false, none, some, List, [], ◌∷◌, ◌++◌, length, arith,
}
use specmcp.Prelude.Dict.{get, set}
use specmcp.Model.{AuthRequirement}
use specmcp.Errors.Result.{ok, err, transient}
use specmcp.Http.{
  HttpResponse, Limits, RawResponse, RetryConfig, Attempt, parse_response, request_with_retry,
  read_events, stream_text,
}
use specmcp.Http.Retries.{IsDecided, request_with_retry-IsDecided}
use specmcp.Http.Responses.{IsParsed, parse_response-IsParsed}
use specmcp.Http.Events.{IsRead, read_events_lem}
use specmcp.Json.{str, obj, end, field}
use specmcp.Config.{ClientCredentialsConfig, bearer, client_credentials}
use specmcp.Oauth.Exchange
use specmcp.Tests.Codec.{python}
use specmcp.Auth.Injector.{Injector, Caches, apply_group, inject, invalidate_cached_tokens}
use specmcp.Auth.Injector.Chosen.{inject_lem}
use specmcp.Auth.Injector.Invalidated.{
  named, cleared, any_group_cached, invalidate_cached_tokens_lem,
}
use specmcp.Auth.State.{Bytes, pack, payload_of, make_state, verify_state}
use specmcp.Auth.State.Authentic.{IsAuthentic, verify_state-IsAuthentic}
use specmcp.Auth.State.Signed.{verify_state-make_state}

abbrev limits : Limits
limits = record { response_size_limit_bytes = 100; text_truncate_bytes = 4 }

abbrev answer : ℕ → RawResponse
answer status = record {
  status_code = status;
  headers = [];
  content_length = some 6;
  body_length = 6;
  body_text = "longer";
}

abbrev retry : RetryConfig
retry = record { attempts = 3; on_status = 503 ∷ [] }

-- A network error, then 503, then success.
abbrev flaky : ℕ → Attempt
flaky zero = err transient
flaky (suc zero) = ok (answer 503)
flaky (suc (suc n)) = ok (answer 200)

abbrev cut_answer : HttpResponse
cut_answer = record { status_code = 200; headers = []; body = "long"; truncated = true }

retry_test : request_with_retry limits retry flaky ≡ (3, ok cut_answer)
unfolding request_with_retry
retry_test = refl

request_with_retry-IsDecided_example :
    IsDecided limits retry flaky 0 (request_with_retry limits retry flaky)
request_with_retry-IsDecided_example = request_with_retry-IsDecided limits retry flaky 2 refl

parse_response-IsParsed_example : IsParsed limits (answer 200) (parse_response limits (answer 200))
parse_response-IsParsed_example = parse_response-IsParsed limits (answer 200)

abbrev events : List String
events = "event: x" ∷ "data: ab" ∷ "data: cd" ∷ "data: [DONE]" ∷ "data: ef" ∷ []

stream_test : stream_text 10 events ≡ ("ab\ncd", false)
unfolding stream_text
stream_test = refl

read_events_lem_example : IsRead 3 0 events (read_events 3 0 events)
read_events_lem_example = read_events_lem 3 events

abbrev requirement : String → AuthRequirement
requirement name = record { scheme_name = name; scopes = [] }

abbrev app_config : ClientCredentialsConfig
app_config = record {
  token_url = "https://idp.example/token";
  client_id_from = "env(ID)";
  client_secret_from = "env(SECRET)";
  scopes = [];
  extra_params = [];
}

abbrev injector : Injector
injector = record {
  schemes =
      (
        "token",
        record {
          scheme_name = "token";
          config = bearer "env(TOKEN)";
          credential = some "t0";
          oauth_client_id = none;
          oauth_client_secret = none;
        },
      )
      ∷ (
        "app",
        record {
          scheme_name = "app";
          config = client_credentials app_config;
          credential = none;
          oauth_client_id = some "id";
          oauth_client_secret = some "secret";
        },
      )
      ∷ [];
  auth_code_handlers = [];
  python = python;
  post = λ request. Exchange.answer 200 (some (obj (field "access_token" (str "fresh") end)));
  client_token = none;
  now = 10;
  answered_at = 11;
  buffer = 60;
}

abbrev caches : Caches
caches = ("app", some (record { access_token = "old"; expires_at = 500 })) ∷ []

-- The cached token is used while it is fresh.
inject_test :
    inject injector ((requirement "app" ∷ []) ∷ []) caches ([], [])
    ≡ (caches, ok (("Authorization", "Bearer old") ∷ [], []))
unfolding inject get set
inject_test = refl

-- Without a token one is fetched, and kept with its lifetime of an hour.
fetch_test : inject injector ((requirement "app" ∷ []) ∷ []) (("app", none) ∷ []) ([], []) ≡ (
  ("app", some (record { access_token = "fresh"; expires_at = 3611 })) ∷ [],
  ok (("Authorization", "Bearer fresh") ∷ [], []),
)
unfolding inject get set
fetch_test = refl

inject_lem_example :
    inject injector ((requirement "other" ∷ []) ∷ (requirement "token" ∷ []) ∷ []) caches ([], [])
    ≡ apply_group injector (requirement "token" ∷ []) caches ([], [])
inject_lem_example =
    inject_lem injector ((requirement "other" ∷ []) ∷ []) (requirement "token" ∷ []) [] caches
      ([], []) refl refl

invalidate_cached_tokens_lem_example :
    (get (invalidate_cached_tokens ((requirement "app" ∷ []) ∷ []) caches).0 "app"
      ≡ cleared (named "app" ((requirement "app" ∷ []) ∷ [])) (get caches "app"))
    × ((invalidate_cached_tokens ((requirement "app" ∷ []) ∷ []) caches).1
        ≡ any_group_cached caches ((requirement "app" ∷ []) ∷ []))
invalidate_cached_tokens_lem_example =
    invalidate_cached_tokens_lem ((requirement "app" ∷ []) ∷ []) caches "app"

-- Sixteen bytes for any payload.
abbrev weak_hmac : Bytes → Bytes
weak_hmac payload =
    length payload ∷ 1 ∷ 2 ∷ 3 ∷ 4 ∷ 5 ∷ 6 ∷ 7 ∷ 8 ∷ 9 ∷ 10 ∷ 11 ∷ 12 ∷ 13 ∷ 14 ∷ 15 ∷ []

abbrev state : Bytes
state =
    payload_of (65 ∷ 66 ∷ []) 1000
    ++ (12 ∷ 1 ∷ 2 ∷ 3 ∷ 4 ∷ 5 ∷ 6 ∷ 7 ∷ 8 ∷ 9 ∷ 10 ∷ 11 ∷ 12 ∷ 13 ∷ 14 ∷ 15 ∷ [])

verify_state-make_state_example : verify_state weak_hmac state 1500 600 ≡ some (65 ∷ 66 ∷ [])
unfolding make_state
verify_state-make_state_example =
    verify_state-make_state weak_hmac (65 ∷ 66 ∷ []) 1000 1500 600 state (omega arith) (omega arith)
      refl (omega arith) (omega arith)

verify_state-IsAuthentic_example : IsAuthentic weak_hmac state (65 ∷ 66 ∷ []) 1500 600
unfolding verify_state pack
verify_state-IsAuthentic_example =
    verify_state-IsAuthentic weak_hmac state (65 ∷ 66 ∷ []) 1500 600 refl
