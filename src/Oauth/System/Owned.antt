-- ===== src/Oauth/System/Owned.antt =====
-- An exchange that is under way is for a session and a scheme that a nonce was issued for.
use native.Mathlib.Nat.{le_refl}
use specmcp.Prelude.{ℕ, String, ◌≡◌, refl, ap, ◌⊎◌, inl, inr, true, List, [], ◌∷◌, All, All-append}
use specmcp.Errors.Result.{Result}
use specmcp.Auth.Tokens.{OauthTokens}
use specmcp.Oauth.{Settings, Outside, OauthState, Response, query}
use specmcp.Oauth.Kept.{SameCaches}
use specmcp.Oauth.Login.{handle_login}
use specmcp.Oauth.Login.Cases.{login_cases}
use specmcp.Oauth.Callback.{Exchange, begin_callback}
use specmcp.Oauth.Callback.Named.{verify_text-made}
use specmcp.Oauth.Callback.Begun.{begin_callback-IsBegun, IsBegun}
use specmcp.Oauth.Callback.Kept.{finish_callback-SameCaches}
use specmcp.Oauth.Session.Kept.{delete_session-SameCaches}
use specmcp.Oauth.Exchange.{exchanged}
use specmcp.Oauth.System.{
  Event, issued, login, callback, finished, rotated, delete_session, System, step, with_begun,
  finish, rotate, Reach, start, next,
}
use specmcp.Oauth.System.Traced.{
  latest, was_issued, was_issued_later, IsTraced, IsTraced-later, IsTraced-quiet,
  issue_nonce-IsTraced, consume_nonce-IsTraced, consume_nonce-latest, store_verifier-IsTraced,
  consume_verifier-IsTraced,
}

-- Each exchange belongs to a session and a scheme that a nonce was issued for.
abbrev pub AreOwned : List Event → List Exchange → Type 0
AreOwned log es = All (λ e. was_issued log e.session_id e.scheme_name ≡ true) es

AreOwned-later :
    (event : Event) (log : List Event) (es : List Exchange)
    → AreOwned log es
    → AreOwned (event ∷ log) es
AreOwned-later event log [] h = tt
AreOwned-later event log (e ∷ es) (first, rest) =
    (was_issued_later event log e.session_id e.scheme_name first, AreOwned-later event log es rest)

AreOwned-rotate :
    (log : List Event) (es : List Exchange) → AreOwned log es → AreOwned log (rotate es)
AreOwned-rotate log [] h = tt
AreOwned-rotate log (e ∷ es) (first, rest) =
    All-append (λ d. was_issued log d.session_id d.scheme_name ≡ true) es (e ∷ []) rest (first, tt)

module _ (outside : Outside) where
  IsTraced-same :
      (now : ℕ) (log : List Event) (s t : OauthState outside)
      → SameCaches s t
      → IsTraced outside now log s
      → IsTraced outside now log t
  IsTraced-same now log s t same h = record {
    sessions = λ u n i g e. h.sessions u n i g (rw same.same_nonces at e);
    names = λ u n k g e. h.names u n k g (rw same.same_names at e);
    states = λ u state v k g e. h.states u state v k g (rw same.same_verifiers at e);
  }

  with_begun-inl :
      (es : List Exchange) (r : OauthState outside × (Response ⊎ Exchange)) (a : Response)
      → r.1 ≡ inl a
      → with_begun es r ≡ record { state = r.0; exchanges = es }
  with_begun-inl es (s, inl b) a h = refl
  with_begun-inl es (s, inr e) a h = cc

  with_begun-inr :
      (es : List Exchange) (r : OauthState outside × (Response ⊎ Exchange)) (e : Exchange)
      → r.1 ≡ inr e
      → with_begun es r ≡ record { state = r.0; exchanges = e ∷ es }
  with_begun-inr es (s, inl b) e h = cc
  with_begun-inr es (s, inr d) e h =
      ap (λ (x : Exchange). record { state = s; exchanges = x ∷ es }) (cc)

  -- What holds of a system at a time.
  pub record IsOwned (now : ℕ) (log : List Event) (c : System outside) : Type 0 where
    pub traced : IsTraced outside now log c.state
    pub owned : AreOwned log c.exchanges

  module _ (settings : Settings) (now : ℕ) (log : List Event) where
    login-IsTraced :
        (verifier nonce : String) (s : OauthState outside)
        → IsTraced outside now log s
        → IsTraced outside now log (handle_login outside settings now verifier nonce s).0
    login-IsTraced verifier nonce s t =
        let consumed = consume_nonce-IsTraced outside now log (query nonce) s t in
        elim (login_cases outside settings now verifier nonce s) [
          | inl (same, _) ↦ rw same t
          | inr (inl (same, _)) ↦ rw same consumed
          | inr (inr r) ↦ rw r.stored (
              store_verifier-IsTraced outside now log r.state verifier r.scheme_name r.session_id
                now _ r.signed
                (consume_nonce-latest outside now log (query nonce) r.session_id r.scheme_name s t
                  r.owner)
                consumed)
        ]

    begun_owned :
        (raw_state auth_code : String) (s after : OauthState outside) (e : Exchange)
        → IsTraced outside now log s
        → IsBegun outside settings now raw_state auth_code s after e
        → was_issued log e.session_id e.scheme_name ≡ true
    begun_owned raw_state auth_code s after e t b =
        let (session_id, at, signed, owned) =
          t.states now raw_state e.verifier e.scheme_name (le_refl now) b.kept in
        rw
          (verify_text-made outside session_id raw_state e.session_id at now _ refl signed
            b.verified)
          owned

    callback-IsOwned :
        (error state auth_code : String) (es : List Exchange) (s : OauthState outside)
        → IsTraced outside now log s
        → AreOwned log es
        → IsOwned now log
            (with_begun es (begin_callback outside settings now error state auth_code s))
    callback-IsOwned error state auth_code es s t owned =
        let used = consume_verifier-IsTraced outside now log (query state) s t in
        let r = begin_callback outside settings now error state auth_code s in
        elim (begin_callback-IsBegun outside settings now error state auth_code s) [
          | inl (inl same, (a, answered)) ↦
              rw (with_begun-inl es r a answered) (record { traced = rw same t; owned = owned })
          | inl (inr same, (a, answered)) ↦
              rw (with_begun-inl es r a answered) (record { traced = rw same used; owned = owned })
          | inr (e, begun, b) ↦ rw (with_begun-inr es r e begun) (record {
            traced = rw b.used used;
            owned = (begun_owned (query state) (query auth_code) s r.0 e t b, owned);
          })
        ]

    quiet :
        (event : Event) (c : System outside)
        → ((n : String) → latest log n ≡ latest (event ∷ log) n)
        → IsOwned now log c
        → IsOwned now (event ∷ log) c
    quiet event c same h = record {
      traced = IsTraced-quiet outside now event log c.state same h.traced;
      owned = AreOwned-later event log c.exchanges h.owned;
    }

    finish-IsOwned :
        (result : Result OauthTokens) (es : List Exchange) (s : OauthState outside)
        → IsTraced outside now log s
        → AreOwned log es
        → IsOwned now log (finish outside settings result es s)
    finish-IsOwned result [] s t h = record { traced = t; owned = tt }
    finish-IsOwned result (e ∷ es) s t (first, rest) = record {
      traced = IsTraced-same now log s _ (finish_callback-SameCaches outside settings e result s) t;
      owned = rest;
    }

    step-IsOwned :
        (event : Event) (c : System outside)
        → IsOwned now log c
        → IsOwned now (event ∷ log) (step outside settings now event c)
    unfolding step
    step-IsOwned (issued nonce session_id scheme_name) c h = record {
      traced = issue_nonce-IsTraced outside now nonce session_id scheme_name log c.state h.traced;
      owned = AreOwned-later (issued nonce session_id scheme_name) log c.exchanges h.owned;
    }
    step-IsOwned (login verifier nonce) c h =
        quiet (login verifier nonce) _ (λ n. refl)
          (record { traced = login-IsTraced verifier nonce c.state h.traced; owned = h.owned })
    step-IsOwned (callback error state auth_code) c h =
        quiet (callback error state auth_code) _ (λ n. refl)
          (callback-IsOwned error state auth_code c.exchanges c.state h.traced h.owned)
    step-IsOwned (finished ans) c h =
        quiet (finished ans) _ (λ n. refl)
          (finish-IsOwned (exchanged outside.python now ans) c.exchanges c.state h.traced h.owned)
    step-IsOwned rotated c h =
        quiet rotated _ (λ n. refl)
          (record { traced = h.traced; owned = AreOwned-rotate log c.exchanges h.owned })
    step-IsOwned (delete_session host header session_id) c h =
        quiet (delete_session host header session_id) _ (λ n. refl)
          (record {
            traced =
                IsTraced-same now log c.state _
                  (delete_session-SameCaches outside settings host header session_id c.state)
                  h.traced;
            owned = h.owned;
          })

  Reach-IsOwned :
      (settings : Settings) (stores : String → outside.store.State) (now : ℕ) (log : List Event)
      (c : System outside)
      → Reach outside settings stores now log c
      → IsOwned now log c
  Reach-IsOwned settings stores now log c (start _) = record {
    traced = record {
      sessions = λ u n i g e. cc (rw outside.nonces.peek_empty at e);
      names = λ u n k g e. cc (rw outside.scheme_names.peek_empty at e);
      states = λ u state v k g e. cc (rw outside.verifiers.peek_empty at e);
    };
    owned = tt;
  }
  Reach-IsOwned settings stores later _ _ (next now _ log c event r h) =
      let before = Reach-IsOwned settings stores now log c r in
      step-IsOwned settings later log event c (record {
        traced = IsTraced-later outside now later log c.state h before.traced;
        owned = before.owned;
      })

  -- However the requests are ordered and however many callbacks wait for their tokens, a callback
  -- exchanges a code only for a session and a scheme that the server issued a nonce for.
  pub Reach-AreOwned :
      (settings : Settings) (stores : String → outside.store.State) (now : ℕ) (log : List Event)
      (c : System outside)
      → Reach outside settings stores now log c
      → AreOwned log c.exchanges
  Reach-AreOwned settings stores now log c r = (Reach-IsOwned settings stores now log c r).owned
