-- ===== src/Auth/TokenStore/Memory.antt =====
-- InMemoryTokenStore. Its lock makes each call one step.
use specmcp.Prelude.{refl}
use specmcp.Prelude.Dict.{Dict, get, set, remove, keys, get-set, get-remove, has-get}
use specmcp.Errors.Result.{ok}
use specmcp.Auth.Tokens.{OauthTokens}
use specmcp.Auth.TokenStore.{TokenStore, IsMap}

abbrev pub memory_store : TokenStore
memory_store = record {
  State = Dict OauthTokens;
  get = λ d k. ok (get d k);
  save = λ d k tokens. ok (set d k tokens);
  delete = λ d k. ok (remove d k);
  all_sessions = λ d. ok (keys d);
}

-- The store in memory is a map from session ids to tokens: what is saved is got back until it is
-- deleted, other sessions are left alone, and the sessions listed are those that have tokens.
pub memory_store-IsMap : IsMap memory_store (λ d. Unit) (λ d k. get d k)
memory_store-IsMap = record {
  get_view = λ d k _. refl;
  save_view = λ d k tokens _ _. (set d k tokens, refl, tt, λ j. get-set d k j tokens);
  delete_view = λ d k _. (remove d k, refl, tt, λ j. get-remove d k j);
  sessions_view = λ d _. (keys d, refl, λ k. has-get d k);
}
