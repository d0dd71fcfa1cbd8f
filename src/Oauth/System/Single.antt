-- ===== src/Oauth/System/Single.antt =====
-- A nonce is good for one login.
use native.Mathlib.Nat.{le_refl, le_trans}
use specmcp.Prelude.{
  ℕ, ◌+◌, ◌≤◌, String, ◌≡◌, refl, ap, ◌⊎◌, inl, inr, Bool, true, false, ◌&&◌, ◌==◌, some, List, [],
  ◌∷◌, arith, eq_iff, Bool-cases,
}
use specmcp.Errors.Result.{Result}
use specmcp.Auth.Tokens.{OauthTokens}
use specmcp.Oauth.{Settings, Outside, OauthState, Response, query}
use specmcp.Oauth.Nonces.{issue_nonce, consume_nonce, store_verifier, consume_verifier}
use specmcp.Oauth.Nonces.Consumed.{consume_nonce-nonce_store, consume_nonce-found}
use specmcp.Oauth.Login.{handle_login}
use specmcp.Oauth.Login.Cases.{is_redirect, login_cases}
use specmcp.Oauth.Callback.{Exchange, begin_callback}
use specmcp.Oauth.Callback.Begun.{begin_callback-IsBegun}
use specmcp.Oauth.Callback.Kept.{finish_callback-SameCaches}
use specmcp.Oauth.Session.Kept.{delete_session-SameCaches}
use specmcp.Oauth.Exchange.{exchanged}
use specmcp.Oauth.System.{
  Event, issued, login, callback, finished, rotated, delete_session, System, step, with_begun,
  finish, Reach, start, next,
}

abbrev pub counted : Bool → ℕ → ℕ
counted true n = n + 1
counted false n = n

-- How often a nonce was issued.
abbrev pub issues : List Event → String → ℕ
issues [] n = 0
issues (issued nonce session_id scheme_name ∷ log) n = counted (nonce == n) (issues log n)
issues (event ∷ log) n = issues log n

begun_store :
    {outside : Outside} (es : List Exchange) (r : OauthState outside × (Response ⊎ Exchange))
    (s : OauthState outside)
    → r.0.nonce_store ≡ s.nonce_store
    → (with_begun es r).state.nonce_store ≡ s.nonce_store
begun_store es (t, inl a) s h = h
begun_store es (t, inr e) s h = h

module _ (outside : Outside) (settings : Settings) where
  -- Whether an event sends a browser with this nonce on to the authorization server.
  abbrev redirects_with : ℕ → Event → OauthState outside → String → Bool
  redirects_with now (login verifier nonce) s n =
      is_redirect (handle_login outside settings now verifier nonce s).1 && (query nonce == n)
  redirects_with now event s n = false

  -- How often that happened.
  abbrev pub redirects :
      {stores : String → outside.store.State} {now : ℕ} {log : List Event} {c : System outside}
      → Reach outside settings stores now log c
      → String
      → ℕ
  redirects (start now) n = 0
  redirects (next now later log c event r h) n =
      counted (redirects_with later event c.state n) (redirects r n)

  module _ (n : String) where
    -- While the nonce can be used, it was used less often than it was issued.
    record IsSpent (now used given : ℕ) (store : outside.nonces.State) : Type 0 where
      bounded : used ≤ given
      live :
          (u : ℕ) (session_id : String)
          → now ≤ u
          → outside.nonces.peek u store n ≡ some session_id
          → used + 1 ≤ given

    issue-IsSpent :
        (now used given : ℕ) (nonce session_id scheme_name : String) (s : OauthState outside)
        → IsSpent now used given s.nonce_store
        → IsSpent now used
            (counted (nonce == n) given)
            (issue_nonce now nonce session_id scheme_name s).nonce_store
    unfolding issue_nonce
    issue-IsSpent now used given nonce session_id scheme_name s h = record {
      bounded = ground (arith, h.bounded);
      live = λ u i g e.
          elim (outside.nonces.peek_insert s.nonce_store nonce n session_id i now u g e) [
            | inl (same, found) ↦ ground (arith, h.bounded, eq_iff nonce n)
            | inr (differ, old) ↦ ground (arith, h.live u i g old)
          ];
    }

    pop-IsSpent :
        (now used given : ℕ) (nonce : String) (store : outside.nonces.State)
        → IsSpent now used given store
        → IsSpent now used given (outside.nonces.pop now nonce store)
    pop-IsSpent now used given nonce store h = record {
      bounded = h.bounded;
      live = λ u i g e. h.live u i g ((outside.nonces.peek_pop store nonce n i now u g e).1);
    }

    -- The use of a nonce that was there.
    use-IsSpent :
        (now used given : ℕ) (nonce session_id : String) (store : outside.nonces.State)
        → outside.nonces.peek now store nonce ≡ some session_id
        → IsSpent now used given store
        → IsSpent now (counted (nonce == n) used) given (outside.nonces.pop now nonce store)
    use-IsSpent now used given nonce session_id store found h = elim (Bool-cases (nonce == n)) [
      | inr differ ↦ rw differ (pop-IsSpent now used given nonce store h)
      | inl same ↦
          let e : nonce ≡ n = (eq_iff nonce n).0 same in
          let spare : used + 1 ≤ given = h.live now session_id (le_refl now) (rw e at found) in
          rw same (record {
            bounded = omega arith;
            live = λ u i g q. absurd ((outside.nonces.peek_pop store nonce n i now u g q).0 e);
          })
    ]

    consume-IsSpent :
        (now used given : ℕ) (nonce : String) (s : OauthState outside)
        → IsSpent now used given s.nonce_store
        → IsSpent now used given (consume_nonce now nonce s).1.nonce_store
    consume-IsSpent now used given nonce s h =
        rw consume_nonce-nonce_store (pop-IsSpent now used given nonce s.nonce_store h)

    login-IsSpent :
        (now used given : ℕ) (verifier nonce : String) (s : OauthState outside)
        → IsSpent now used given s.nonce_store
        → IsSpent now
            (counted (redirects_with now (login verifier nonce) s n) used)
            given
            (handle_login outside settings now verifier nonce s).0.nonce_store
    unfolding store_verifier
    login-IsSpent now used given verifier nonce s h =
        elim (login_cases outside settings now verifier nonce s) [
          | inl (same, stays) ↦ rw (same, stays) h
          | inr (inl (same, stays)) ↦
              rw (same, stays) (consume-IsSpent now used given (query nonce) s h)
          | inr (inr r) ↦
              rw (r.stored, r.target)
                (rw consume_nonce-nonce_store (
                  use-IsSpent now used given (query nonce) r.session_id s.nonce_store
                    (consume_nonce-found now (query nonce) r.session_id r.scheme_name s r.owner).0
                    h))
        ]

    -- The store of a callback is what it was.
    callback-nonce_store :
        (now : ℕ) (error state auth_code : String) (es : List Exchange) (s : OauthState outside)
        → (with_begun es
            (begin_callback outside settings now error state auth_code s)).state.nonce_store
          ≡ s.nonce_store
    unfolding consume_verifier
    callback-nonce_store now error state auth_code es s =
        let r = begin_callback outside settings now error state auth_code s in
        begun_store es r s
          (elim (begin_callback-IsBegun outside settings now error state auth_code s) [
            | inl (inl same, a) ↦ ap (λ (t : OauthState outside). t.nonce_store) same
            | inl (inr used, a) ↦ ap (λ (t : OauthState outside). t.nonce_store) used
            | inr (e, begun, b) ↦ ap (λ (t : OauthState outside). t.nonce_store) b.used
          ])

    finish-nonce_store :
        (result : Result OauthTokens) (es : List Exchange) (s : OauthState outside)
        → (finish outside settings result es s).state.nonce_store ≡ s.nonce_store
    finish-nonce_store result [] s = refl
    finish-nonce_store result (e ∷ es) s =
        (finish_callback-SameCaches outside settings e result s).same_nonces

    step-IsSpent :
        (now used given : ℕ) (log : List Event) (event : Event) (c : System outside)
        → given ≡ issues log n
        → IsSpent now used given c.state.nonce_store
        → IsSpent now
            (counted (redirects_with now event c.state n) used)
            (issues (event ∷ log) n)
            (step outside settings now event c).state.nonce_store
    unfolding step
    step-IsSpent now used given log (issued nonce session_id scheme_name) c e h =
        rw⁻¹ e (issue-IsSpent now used given nonce session_id scheme_name c.state h)
    step-IsSpent now used given log (login verifier nonce) c e h =
        rw⁻¹ e (login-IsSpent now used given verifier nonce c.state h)
    step-IsSpent now used given log (callback error state auth_code) c e h =
        rw⁻¹ e (rw (callback-nonce_store now error state auth_code c.exchanges c.state) h)
    step-IsSpent now used given log (finished ans) c e h =
        rw⁻¹ e (rw (finish-nonce_store (exchanged outside.python now ans) c.exchanges c.state) h)
    step-IsSpent now used given log rotated c e h = rw⁻¹ e h
    step-IsSpent now used given log (delete_session host header session_id) c e h = rw⁻¹ e (
        rw (delete_session-SameCaches outside settings host header session_id c.state).same_nonces
          h)

    Reach-IsSpent :
        {stores : String → outside.store.State} {now : ℕ} {log : List Event} {c : System outside}
        (r : Reach outside settings stores now log c)
        → IsSpent now (redirects r n) (issues log n) c.state.nonce_store
    Reach-IsSpent (start now) = record {
      bounded = omega arith;
      live = λ u i g e. cc (rw outside.nonces.peek_empty at e);
    }
    Reach-IsSpent (next now later log c event r h) =
        let before = Reach-IsSpent r in
        step-IsSpent later (redirects r n) (issues log n) log event c refl
          (record { bounded = before.bounded; live = λ u i g e. before.live u i (le_trans h g) e })

  -- However the requests are ordered, a nonce sends a browser on to the authorization server at most
  -- as often as it was issued: a login link that was issued once works once.
  pub redirects-le-issues :
      (stores : String → outside.store.State) (now : ℕ) (log : List Event) (c : System outside)
      (r : Reach outside settings stores now log c) (n : String)
      → redirects r n ≤ issues log n
  redirects-le-issues stores now log c r n = (Reach-IsSpent n r).bounded
