-- ===== src/Oauth/Kept.antt =====
-- Steps that change the token stores only.
use specmcp.Prelude.{◌≡◌, refl, ◌∙◌}
use specmcp.Oauth.{Outside, OauthState}

module _ {outside : Outside} where
  -- The nonces and the verifiers are left alone.
  pub record SameCaches (s t : OauthState outside) : Type 0 where
    pub same_nonces : t.nonce_store ≡ s.nonce_store
    pub same_names : t.nonce_scheme ≡ s.nonce_scheme
    pub same_verifiers : t.pkce_store ≡ s.pkce_store

  pub SameCaches-refl : (s : OauthState outside) → SameCaches s s
  SameCaches-refl s = record { same_nonces = refl; same_names = refl; same_verifiers = refl }

  pub SameCaches-trans :
      {s t u : OauthState outside} → SameCaches s t → SameCaches t u → SameCaches s u
  SameCaches-trans a b = record {
    same_nonces = b.same_nonces ∙ a.same_nonces;
    same_names = b.same_names ∙ a.same_names;
    same_verifiers = b.same_verifiers ∙ a.same_verifiers;
  }
