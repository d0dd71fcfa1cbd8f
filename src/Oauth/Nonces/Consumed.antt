-- ===== src/Oauth/Nonces/Consumed.antt =====
-- What the use of a nonce finds and leaves.
use specmcp.Prelude.{ℕ, String, ◌≡◌, refl, Option, some, inl, inr, Option-cases}
use specmcp.Oauth.{Outside, OauthState}
use specmcp.Oauth.Nonces.{consume_nonce}

module _ {outside : Outside} where
  pub consume_nonce-nonce_store :
      (now : ℕ) (nonce : String) (s : OauthState outside)
      → (consume_nonce now nonce s).1.nonce_store ≡ outside.nonces.pop now nonce s.nonce_store
  unfolding consume_nonce
  consume_nonce-nonce_store now nonce s =
      elim (Option-cases (outside.nonces.peek now s.nonce_store nonce)) [
        | inl gone ↦ rw gone refl
        | inr (session_id, found) ↦ rw found refl
      ]

  pub consume_nonce-found :
      (now : ℕ) (nonce session_id scheme_name : String) (s : OauthState outside)
      → (consume_nonce now nonce s).0 ≡ some (session_id, scheme_name)
      → (outside.nonces.peek now s.nonce_store nonce ≡ some session_id)
        × (outside.scheme_names.peek now s.nonce_scheme nonce ≡ some scheme_name)
  unfolding consume_nonce
  consume_nonce-found now nonce session_id scheme_name s h =
      elim (Option-cases (outside.nonces.peek now s.nonce_store nonce)) [
        | inl gone ↦ cc (rw (gone, consume_nonce) at h)
        | inr (i, found) ↦
            let h1 = rw (found, consume_nonce) at h in
            elim (Option-cases (outside.scheme_names.peek now s.nonce_scheme nonce)) [
              | inl lost ↦ cc (rw lost at h1)
              | inr (k, named) ↦
                  let same : ◌≡◌ {A = Option (String × String)} (some (i, k))
                      (some (session_id, scheme_name)) =
                    rw named at h1 in
                  (cc, cc)
            ]
      ]
