-- ===== src/Oauth/Callback/Kept.antt =====
-- The end of a callback leaves nonces and verifiers alone.
use specmcp.Prelude.{String, refl, inl, inr, Bool-cases}
use specmcp.Errors.Result.{Result, ok, err}
use specmcp.Auth.Tokens.{OauthTokens}
use specmcp.Oauth.{Settings, Outside, OauthState}
use specmcp.Oauth.Kept.{SameCaches, SameCaches-refl}
use specmcp.Oauth.Callback.{Exchange, saved, scope_checks, finish_callback}

module _ (outside : Outside) where
  saved-SameCaches :
      (name : String) (r : Result outside.store.State) (s : OauthState outside)
      → SameCaches s (saved outside name r s).0
  saved-SameCaches name (ok store) s = record {
    same_nonces = refl;
    same_names = refl;
    same_verifiers = refl;
  }
  saved-SameCaches name (err e) s = SameCaches-refl s

  pub finish_callback-SameCaches :
      (settings : Settings) (e : Exchange) (result : Result OauthTokens) (s : OauthState outside)
      → SameCaches s (finish_callback outside settings e result s).0
  unfolding finish_callback
  finish_callback-SameCaches settings e (err raised) s = SameCaches-refl s
  finish_callback-SameCaches settings e (ok tokens) s =
      elim (Bool-cases (scope_checks outside settings e.scheme_name tokens)) [
        | inl well ↦ rw well (
            saved-SameCaches e.scheme_name
              (outside.store.save (s.stores e.scheme_name) e.session_id tokens) s)
        | inr bad ↦ rw bad (SameCaches-refl s)
      ]
