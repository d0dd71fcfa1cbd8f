-- ===== src/Auth/Injector.antt =====
-- The injector of credentials, auth/injector.py. The handlers of authorization-code schemes, and what
-- token endpoints answer, are functions that it is given.
pub mod Build
pub mod Chosen
pub mod Equipped
pub mod Asserted
pub mod Invalidated
use Prim.Native.String
use specmcp.Prelude.{
  ℕ, String, Bool, true, false, ◌&&◌, ◌||◌, Option, none, some, List, [], ◌∷◌, all, is_empty,
  if◌then◌else◌,
}
use specmcp.Prelude.Dict.{Dict, get, set, has}
use specmcp.Prelude.Text.{is_nil}
use specmcp.Model.{AuthRequirement}
use specmcp.Errors.Result.{Result, ok, err, auth_config, python_error}
use specmcp.Config.{
  KeyPlace, in_header, in_query, in_cookie, ClientCredentialsConfig, SchemeConfig, api_key, bearer,
  client_credentials, authorization_code,
}
use specmcp.Oauth.Exchange.{TokenRequest, TokenAnswer}
use specmcp.Auth.Tokens.{Python}
use specmcp.Auth.ClientCredentials.{client_request, fetched_token}
use specmcp.Auth.TokenCache.{CachedToken, TokenCache, get_or_refresh, invalidate}

pub record ResolvedScheme : Type 0 where
  pub scheme_name : String
  pub config : SchemeConfig
  pub credential : Option String
  pub oauth_client_id : Option String
  pub oauth_client_secret : Option String

-- Headers and parameters.
abbrev pub Credentials : Type 0
Credentials = Dict String × Dict String

abbrev pub Caches : Type 0
Caches = Dict TokenCache

-- The AuthInjector without its caches, which are its state; `client_token` is the session's.
pub record Injector : Type 0 where
  pub schemes : Dict ResolvedScheme
  pub auth_code_handlers : Dict (Credentials → Result Credentials)
  pub python : Python
  pub post : TokenRequest → TokenAnswer
  pub client_token : Option String
  pub now : ℕ
  -- The time of the token endpoint's answer.
  pub answered_at : ℕ
  pub buffer : ℕ

abbrev cookie_with : Option String → String → String
cookie_with none pair = pair
cookie_with (some s) pair = if is_nil s then pair else String.◌++◌ s (String.◌++◌ "; " pair)

-- headers["Authorization"] = f"Bearer {token}"
abbrev pub with_bearer : String → Credentials → Credentials
with_bearer token (headers, params) =
    (set headers "Authorization" (String.◌++◌ "Bearer " token), params)

abbrev pub add_key : KeyPlace → String → String → Credentials → Credentials
add_key in_header name value (headers, params) = (set headers name value, params)
add_key in_query name value (headers, params) = (headers, set params name value)
add_key in_cookie name value (headers, params) = (
  set headers "Cookie"
      (cookie_with (get headers "Cookie") (String.◌++◌ name (String.◌++◌ "=" value))),
  params,
)

-- `assert credential is not None`
abbrev with_credential : Option String → (String → Credentials) → Result Credentials
with_credential none f = err python_error
with_credential (some value) f = ok (f value)

abbrev pub Injected : Type 0
Injected = Caches × Result Credentials

abbrev bearer_result : Result String → Credentials → Result Credentials
bearer_result (ok token) c = ok (with_bearer token c)
bearer_result (err e) c = err e

abbrev pub fetch_with :
    Injector → ClientCredentialsConfig → Option String → Option String → Result CachedToken
fetch_with inj cfg (some client_id) (some client_secret) =
    fetched_token inj.python inj.answered_at (inj.post (client_request cfg client_id client_secret))
fetch_with inj cfg client_id client_secret = err python_error

-- The token of a client-credentials scheme, from its cache or fetched.
unfoldable pub apply_client_credentials :
    Injector → ResolvedScheme → ClientCredentialsConfig → Caches → Credentials → Injected
unfolding get_or_refresh fetched_token client_request set get
apply_client_credentials inj resolved cfg caches c = elim (get caches resolved.scheme_name) [
  | none ↦ (caches, err python_error)
  | some cache ↦
      let fetched = fetch_with inj cfg resolved.oauth_client_id resolved.oauth_client_secret in
      let (next, token) = get_or_refresh inj.buffer inj.now fetched cache in
      (set caches resolved.scheme_name next, bearer_result token c)
]

unfoldable pub inject_scheme : Injector → ResolvedScheme → Caches → Credentials → Injected
unfolding apply_client_credentials set get
inject_scheme inj resolved caches c = elim resolved.config [
  | authorization_code cfg ↦ elim (get inj.auth_code_handlers resolved.scheme_name) [
    | none ↦ (caches, err auth_config)
    | some handler ↦ (caches, handler c)
  ]
  | api_key place name value_from ↦
      (caches, with_credential resolved.credential (λ value. add_key place name value c))
  | bearer value_from ↦ elim inj.client_token [
    | some token ↦ (caches, ok (with_bearer token c))
    | none ↦ (caches, with_credential resolved.credential (λ value. with_bearer value c))
  ]
  | client_credentials cfg ↦ apply_client_credentials inj resolved cfg caches c
]

abbrev then_apply : Injected → (Caches → Credentials → Injected) → Injected
then_apply (caches, ok c) f = f caches c
then_apply (caches, err e) f = (caches, err e)

abbrev scheme_step : Injector → Option ResolvedScheme → Caches → Credentials → Injected
scheme_step inj none caches c = (caches, err python_error)
scheme_step inj (some resolved) caches c = inject_scheme inj resolved caches c

unfoldable pub apply_group : Injector → List AuthRequirement → Caches → Credentials → Injected
unfolding inject_scheme get
apply_group inj [] caches c = (caches, ok c)
apply_group inj (req ∷ group) caches c =
    then_apply (scheme_step inj (get inj.schemes req.scheme_name) caches c) (apply_group inj group)

abbrev pub group_is_satisfied : Injector → List AuthRequirement → Bool
group_is_satisfied inj group = all (λ r. has inj.schemes r.scheme_name) group

-- The loop over the groups.
unfoldable pub inject_first :
    Injector → List (List AuthRequirement) → Caches → Credentials → Injected
unfolding apply_group
inject_first inj [] caches c = (caches, err auth_config)
inject_first inj (group ∷ groups) caches c =
    if group_is_satisfied inj group
    then apply_group inj group caches c
    else inject_first inj groups caches c

unfoldable pub inject : Injector → List (List AuthRequirement) → Caches → Credentials → Injected
unfolding inject_first
inject inj requirements caches c =
    if is_empty requirements then (caches, ok c) else inject_first inj requirements caches c

-- The caches and whether one was invalidated.
abbrev pub Invalidated : Type 0
Invalidated = Caches × Bool

abbrev invalidate_one : String → Invalidated → Invalidated
invalidate_one name (caches, done) = elim (get caches name) [
  | none ↦ (caches, done)
  | some cache ↦ (set caches name (invalidate cache), true)
]

unfoldable pub invalidate_group : List AuthRequirement → Invalidated → Invalidated
unfolding get set
invalidate_group [] s = s
invalidate_group (req ∷ group) s = invalidate_group group (invalidate_one req.scheme_name s)

unfoldable pub invalidate_groups : List (List AuthRequirement) → Invalidated → Invalidated
unfolding invalidate_group
invalidate_groups [] s = s
invalidate_groups (group ∷ groups) s = invalidate_groups groups (invalidate_group group s)

unfoldable pub invalidate_cached_tokens : List (List AuthRequirement) → Caches → Invalidated
unfolding invalidate_groups
invalidate_cached_tokens requirements caches = invalidate_groups requirements (caches, false)
