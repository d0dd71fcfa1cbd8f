-- ===== src/Oauth/Login/Cases.antt =====
-- What a login does, by its answer.
use specmcp.Prelude.{
  ℕ, String, ◌≡◌, refl, ◌⊎◌, inl, inr, Bool, true, false, Option, none, some, Option-cases,
  Bool-cases,
}
use specmcp.Prelude.Dict.{get}
use specmcp.Prelude.Text.{is_nil}
use specmcp.Oauth.{Scheme, Settings, Outside, OauthState, Response, redirect, query}
use specmcp.Oauth.Nonces.{consume_nonce, store_verifier}
use specmcp.Oauth.Login.{
  Answer, start_login, auth_url, generate_challenge, signed_state, handle_login,
}

abbrev pub is_redirect : Response → Bool
is_redirect (redirect url) = true
is_redirect r = false

module _ (outside : Outside) (settings : Settings) where
  -- A login that redirects: the session and the scheme that the nonce stands for, the state that is
  -- signed for the session, and what is kept of them.
  pub record IsRedirect (now : ℕ) (verifier : String) (found : Option (String × String))
      (before : OauthState outside) (r : Answer outside) : Type 0 where
    pub session_id : String
    pub scheme_name : String
    pub scheme : Scheme
    pub challenge : String
    pub state : String
    pub owner : found ≡ some (session_id, scheme_name)
    pub known : get settings.schemes scheme_name ≡ some scheme
    pub challenged : generate_challenge outside verifier ≡ some challenge
    pub signed : signed_state outside session_id now ≡ some state
    pub target : r.1 ≡ redirect (auth_url scheme state challenge)
    pub stored : r.0 ≡ store_verifier now state verifier scheme_name before

  abbrev pub Started :
      ℕ → String → Option (String × String) → OauthState outside → Answer outside → Type 0
  Started now verifier found before r =
      ((r.0 ≡ before) × (is_redirect r.1 ≡ false)) ⊎ IsRedirect now verifier found before r

  start_login-Started :
      (now : ℕ) (verifier : String) (found : Option (String × String)) (s : OauthState outside)
      → Started now verifier found s (start_login outside settings now verifier found s)
  start_login-Started now verifier none s = inl (refl, refl)
  start_login-Started now verifier (some (session_id, scheme_name)) s =
      elim (Option-cases (get settings.schemes scheme_name)) [
        | inl unknown ↦ rw (unknown, start_login) (inl (refl, refl))
        | inr (scheme, known) ↦
            rw (known, start_login)
              (elim (Option-cases (generate_challenge outside verifier)) [
                | inl bad ↦ rw bad (inl (refl, refl))
                | inr (challenge, challenged) ↦
                    rw challenged (elim (Option-cases (signed_state outside session_id now)) [
                      | inl bad ↦ rw bad (inl (refl, refl))
                      | inr (state, signed) ↦ rw signed (
                          inr (record {
                            session_id = session_id;
                            scheme_name = scheme_name;
                            scheme = scheme;
                            challenge = challenge;
                            state = state;
                            owner = refl;
                            known = known;
                            challenged = challenged;
                            signed = signed;
                            target = refl;
                            stored = refl;
                          }))
                    ])
              ])
      ]

  pub login_cases :
      (now : ℕ) (verifier nonce : String) (s : OauthState outside)
      → ((handle_login outside settings now verifier nonce s).0 ≡ s)
          × (is_redirect (handle_login outside settings now verifier nonce s).1 ≡ false)
        ⊎ Started now verifier
            (consume_nonce now (query nonce) s).0
            (consume_nonce now (query nonce) s).1
            (handle_login outside settings now verifier nonce s)
  unfolding handle_login
  login_cases now verifier nonce s = elim (Bool-cases (is_nil (query nonce))) [
    | inl missing ↦ rw missing (inl (refl, refl))
    | inr given ↦
        let (found, after) = consume_nonce now (query nonce) s in
        rw given (
          inr (
            start_login-Started now verifier (consume_nonce now (query nonce) s).0
              (consume_nonce now (query nonce) s).1))
  ]
