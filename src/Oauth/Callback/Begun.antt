-- ===== src/Oauth/Callback/Begun.antt =====
-- Which callbacks go on to the exchange of their code.

use specmcp.Prelude.{
  ℕ, String, ◌≡◌, refl, ◌⊎◌, inl, inr, ◌||◌, Option, none, some, Option-cases, Bool-cases,
}
use specmcp.Prelude.Dict.{get}
use specmcp.Prelude.Text.{is_nil}
use specmcp.Oauth.{Scheme, Settings, Outside, OauthState, Response, query}
use specmcp.Oauth.Nonces.{consume_verifier}
use specmcp.Oauth.Callback.{Exchange, Begun, with_entry, with_session, verify_text, begin_callback}

module _ (outside : Outside) (settings : Settings) where
  -- An exchange is begun for the session that the verified state names, with the verifier and the
  -- scheme that were kept under this state, which are gone from then on.
  pub record IsBegun (now : ℕ) (raw_state auth_code : String) (before : OauthState outside)
      (after : OauthState outside) (e : Exchange) : Type 0 where
    pub verified : verify_text outside raw_state now ≡ some e.session_id
    pub kept :
        outside.verifiers.peek now before.pkce_store raw_state ≡ some (e.verifier, e.scheme_name)
    pub scheme : Scheme
    pub known : get settings.schemes e.scheme_name ≡ some scheme
    pub same_code : e.auth_code ≡ auth_code
    pub used : after ≡ (consume_verifier now raw_state before).1

  -- The cases of a callback: it is answered at once, with the state as it was or with the verifier
  -- used up, or it goes on.
  abbrev pub Cases : ℕ → String → String → OauthState outside → Begun outside → Type 0
  Cases now raw_state auth_code s r =
      (((r.0 ≡ s) ⊎ (r.0 ≡ (consume_verifier now raw_state s).1))
        × ((a : Response) × (r.1 ≡ inl a)))
      ⊎ ((e : Exchange) × (r.1 ≡ inr e) × IsBegun now raw_state auth_code s r.0 e)

  with_session-Cases :
      (now : ℕ) (raw_state auth_code : String) (o : Option String) (s : OauthState outside)
      → verify_text outside raw_state now ≡ o
      → Cases now raw_state auth_code s (with_session outside settings now raw_state auth_code o s)
  unfolding consume_verifier
  with_session-Cases now raw_state auth_code none s h = inl (inl refl, (_, refl))
  with_session-Cases now raw_state auth_code (some session_id) s h =
      elim (Option-cases (outside.verifiers.peek now s.pkce_store raw_state)) [
        | inl gone ↦ rw gone (inl (inr refl, (_, refl)))
        | inr ((verifier, scheme_name), kept) ↦
            rw kept (elim (Option-cases (get settings.schemes scheme_name)) [
              | inl unknown ↦ rw (unknown, with_entry) (inl (inr refl, (_, refl)))
              | inr (scheme, known) ↦
                  rw (known, with_entry)
                    (inr (
                      _,
                      refl,
                      record {
                        verified = h;
                        kept = kept;
                        scheme = scheme;
                        known = known;
                        same_code = refl;
                        used = refl;
                      },
                    ))
            ])
      ]

  pub begin_callback-IsBegun :
      (now : ℕ) (error state auth_code : String) (s : OauthState outside)
      → Cases now
          (query state)
          (query auth_code)
          s
          (begin_callback outside settings now error state auth_code s)
  unfolding begin_callback
  begin_callback-IsBegun now error state auth_code s = elim (Bool-cases (is_nil (query error))) [
    | inr failed ↦ rw failed (inl (inl refl, (_, refl)))
    | inl well ↦ rw well (elim (Bool-cases (is_nil (query state) || is_nil (query auth_code))) [
      | inl missing ↦ rw missing (inl (inl refl, (_, refl)))
      | inr given ↦ rw given (with_session-Cases now (query state) (query auth_code) _ s refl)
    ])
  ]
