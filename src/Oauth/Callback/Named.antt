-- ===== src/Oauth/Callback/Named.antt =====
-- A state names the session that it was signed for, on texts.
use specmcp.Prelude.{
  String, ℕ, ◌+◌, ◌≤◌, ◌<◌, ◌^◌, length, ◌≡◌, refl, sym, subst, Option, none, some, inl, inr,
  Option-cases,
}
use specmcp.Auth.State.{Bytes, make_state, verify_state, payload_of}
use specmcp.Auth.State.Signed.{verify_state-make_state}
use specmcp.Auth.State.Named.{verify_state-named}
use specmcp.Oauth.{Outside}
use specmcp.Oauth.Login.{encoded, signed_state}
use specmcp.Oauth.Callback.{verified, verify_text}

module _ (outside : Outside) where
  pub verify_text-made :
      (session_id state found : String) (at now : ℕ) (o : Option Bytes)
      → make_state outside.hmac (outside.utf8 session_id) at ≡ o
      → signed_state outside session_id at ≡ some state
      → verify_text outside state now ≡ some found
      → found ≡ session_id
  unfolding signed_state verify_text
  verify_text-made session_id state found at now none made signed h = cc (rw made at signed)
  verify_text-made session_id state found at now (some token) made signed h =
      let text : some (outside.base64 token) ≡ some state = rw made at signed in
      let text' : state ≡ outside.base64 token = cc in
      let h1 : verified outside (outside.from_base64 (outside.base64 token)) now ≡ some found =
        subst (λ t. verified outside (outside.from_base64 t) now ≡ some found) text' h in
      let h2 : verified outside (some token) now ≡ some found =
        rw (outside.from_base64_base64 token) at h1 in
      elim (Option-cases (verify_state outside.hmac token now 600)) [
        | inl bad ↦ cc (rw bad at h2)
        | inr (bytes, good) ↦
            let h3 : outside.from_utf8 bytes ≡ some found = rw good at h2 in
            let same : bytes ≡ outside.utf8 session_id =
              verify_state-named outside.hmac (outside.utf8 session_id) at token bytes now 600 made
                good in
            let h4 : outside.from_utf8 (outside.utf8 session_id) ≡ some found =
              subst (λ b. outside.from_utf8 b ≡ some found) same h3 in
            cc (outside.from_utf8_utf8 session_id)
      ]

  -- A state that was signed is verified to its session within its ten minutes.
  pub verify_text-signed_state :
      (session_id state : String) (at now : ℕ) (token : Bytes)
      → make_state outside.hmac (outside.utf8 session_id) at ≡ some token
      → outside.base64 token ≡ state
      → 16 ≤ length (outside.hmac (payload_of (outside.utf8 session_id) at))
      → at < 2 ^ 64
      → at ≤ now
      → now ≤ at + 600
      → verify_text outside state now ≡ some session_id
  unfolding verify_text
  verify_text-signed_state session_id state at now token made text wide fits early late =
      rw (sym text) (
        rw (outside.from_base64_base64 token) (
          rw
            (verify_state-make_state outside.hmac (outside.utf8 session_id) at now 600 token wide
              fits made early late)
            (outside.from_utf8_utf8 session_id)))

  signed_text :
      (o : Option Bytes) (state : String)
      → encoded outside o ≡ some state
      → (token : Bytes) × (o ≡ some token) × (outside.base64 token ≡ state)
  signed_text none state h = cc
  signed_text (some token) state h = (token, refl, cc)

  -- The same of what the login signs.
  pub verify_text-signed :
      (session_id state : String) (at now : ℕ)
      → signed_state outside session_id at ≡ some state
      → 16 ≤ length (outside.hmac (payload_of (outside.utf8 session_id) at))
      → at < 2 ^ 64
      → at ≤ now
      → now ≤ at + 600
      → verify_text outside state now ≡ some session_id
  unfolding signed_state
  verify_text-signed session_id state at now signed wide fits early late =
      let (token, made, text) = signed_text _ state signed in
      verify_text-signed_state session_id state at now token made text wide fits early late
