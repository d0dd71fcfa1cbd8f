-- ===== src/Oauth/Session/Kept.antt =====
-- A deletion leaves nonces and verifiers alone.
use specmcp.Prelude.{String, refl, inl, inr, Option, none, some, List, [], ◌∷◌, Bool-cases, false}
use specmcp.Prelude.Dict.{keys}
use specmcp.Prelude.Text.{is_nil}
use specmcp.Errors.Result.{Result, ok, err}
use specmcp.Auth.Tokens.{OauthTokens}
use specmcp.Oauth.{Settings, Outside, OauthState, query}
use specmcp.Oauth.Kept.{SameCaches, SameCaches-refl, SameCaches-trans}
use specmcp.Oauth.Session.{
  Deletion, find, deleted, delete_found, delete_among, handle_delete_session,
  check_management_access,
}

module _ (outside : Outside) where
  deleted-SameCaches :
      (name : String) (r : Result outside.store.State) (d : Deletion outside)
      → SameCaches d.0 (deleted outside name r d).0
  deleted-SameCaches name (ok store) (s, any) = record {
    same_nonces = refl;
    same_names = refl;
    same_verifiers = refl;
  }
  deleted-SameCaches name (err e) d = SameCaches-refl d.0

  delete_found-SameCaches :
      (session_id name : String) (r : Result (Option OauthTokens)) (d : Deletion outside)
      → SameCaches d.0 (delete_found outside session_id name r d).0
  delete_found-SameCaches session_id name (ok (some tokens)) (s, any) =
      deleted-SameCaches name (outside.store.delete (s.stores name) session_id) (s, any)
  delete_found-SameCaches session_id name (ok none) d = SameCaches-refl d.0
  delete_found-SameCaches session_id name (err e) d = SameCaches-refl d.0

  delete_among-SameCaches :
      (session_id : String) (names : List String) (d : Deletion outside)
      → SameCaches d.0 (delete_among outside session_id names d).0
  unfolding delete_among
  delete_among-SameCaches session_id [] d = SameCaches-refl d.0
  delete_among-SameCaches session_id (name ∷ names) (s, any) =
      let found = find outside s session_id name in
      SameCaches-trans (delete_found-SameCaches session_id name found (s, any)) (
        delete_among-SameCaches session_id names
          (delete_found outside session_id name found (s, any)))

  pub delete_session-SameCaches :
      (settings : Settings) (host : Option String) (header session_param : String)
      (s : OauthState outside)
      → SameCaches s (handle_delete_session outside settings host header session_param s).0
  unfolding handle_delete_session
  delete_session-SameCaches settings host header session_param s =
      elim (Bool-cases (check_management_access settings host header)) [
        | inr refused ↦ rw refused (SameCaches-refl s)
        | inl allowed ↦ rw allowed (elim (Bool-cases (is_nil (query session_param))) [
          | inl missing ↦ rw missing (SameCaches-refl s)
          | inr given ↦
              rw given
                (delete_among-SameCaches (query session_param) (keys settings.schemes) (s, false))
        ])
      ]
