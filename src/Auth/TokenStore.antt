-- ===== src/Auth/TokenStore.antt =====
-- The interface TokenStore of auth/token_store.py, and what a store promises: a finite map from
-- session ids to tokens.
pub mod Memory
pub mod Sqlite
pub mod Runs
use specmcp.Prelude.{
  is_some, String, ◌≡◌, Bool, true, false, not, Option, none, some, List, elem, ◌==◌, if◌then◌else◌,
}
use specmcp.Prelude.Text.{is_nil}
use specmcp.Errors.Result.{Result, ok}
use specmcp.Auth.Tokens.{OauthTokens}

pub record TokenStore : Type 1 where
  pub State : Type 0
  pub get : State → String → Result (Option OauthTokens)
  pub save : State → String → OauthTokens → Result State
  pub delete : State → String → Result State
  pub all_sessions : State → Result (List String)

-- No empty refresh token, which the database does not keep.
abbrev pub is_whole : Option String → Bool
is_whole none = true
is_whole (some r) = not (is_nil r)

abbrev pub has_whole_refresh : OauthTokens → Bool
has_whole_refresh tokens = is_whole tokens.refresh_token

-- The state after a change of one session, under the abstract view.
abbrev pub Changed :
    {S : Type 0}
    → (S → Type 0)
    → (S → String → Option OauthTokens)
    → Result S
    → S
    → String
    → Option OauthTokens
    → Type 0
Changed {S} IsReady view result before k v =
    (after : S) × (result ≡ ok after)
    × IsReady after
    × ((j : String) → view after j ≡ (if k == j then v else view before j))

-- The store implements the map `view` while it is ready.
pub record IsMap (S : TokenStore) (IsReady : S.State → Type 0)
    (view : S.State → String → Option OauthTokens) : Type 0 where
  pub get_view : (s : S.State) (k : String) → IsReady s → S.get s k ≡ ok (view s k)
  pub save_view :
      (s : S.State) (k : String) (tokens : OauthTokens)
      → IsReady s
      → has_whole_refresh tokens ≡ true
      → Changed IsReady view (S.save s k tokens) s k (some tokens)
  pub delete_view :
      (s : S.State) (k : String) → IsReady s → Changed IsReady view (S.delete s k) s k none
  pub sessions_view :
      (s : S.State)
      → IsReady s
      → (ks : List String) × (S.all_sessions s ≡ ok ks)
        × ((k : String) → elem k ks ≡ is_some (view s k))
