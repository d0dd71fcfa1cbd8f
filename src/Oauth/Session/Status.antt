-- ===== src/Oauth/Session/Status.antt =====
-- What the status of a session says.
use specmcp.Prelude.{
  String, ℕ, ◌≡◌, refl, inl, inr, Bool, false, Option, List, [], ◌∷◌, any, Bool-cases,
}
use specmcp.Prelude.Dict.{keys}
use specmcp.Prelude.Text.{is_nil}
use specmcp.Auth.Tokens.{OauthTokens}
use specmcp.Auth.TokenStore.{IsMap}
use specmcp.Oauth.{Settings, Outside, OauthState, query, authenticated}
use specmcp.Oauth.Session.{is_valid, status_among, handle_status}

module _ (outside : Outside) (IsReady : outside.store.State → Type 0)
    (view : outside.store.State → String → Option OauthTokens)
    (law : IsMap outside.store IsReady view) (now : ℕ) (session_id : String)
    (s : OauthState outside) (ready : (j : String) → IsReady (s.stores j)) where
  -- The store of a scheme has tokens of the session that are not about to expire.
  abbrev pub has_valid : String → Bool
  has_valid name = is_valid outside now (view (s.stores name) session_id)

  status_among_lem :
      (names : List String)
      → status_among outside now session_id names s ≡ authenticated 200 (any has_valid names)
  unfolding status_among
  status_among_lem [] = refl
  status_among_lem (name ∷ names) =
      let e = law.get_view (s.stores name) session_id (ready name) in
      elim (Bool-cases (has_valid name)) [
        | inl valid ↦ rw (e, valid) refl
        | inr bad ↦ rw (e, bad) (status_among_lem names)
      ]

  -- The status of a session is true exactly if some scheme's store has tokens of it that do not
  -- expire within a minute, where the stores are ready.
  pub handle_status_lem :
      (settings : Settings) (session_param : String)
      → query session_param ≡ session_id
      → is_nil session_id ≡ false
      → handle_status outside settings now session_param s
        ≡ authenticated 200 (any has_valid (keys settings.schemes))
  unfolding handle_status
  handle_status_lem settings session_param e given =
      rw (e, given) (status_among_lem (keys settings.schemes))
