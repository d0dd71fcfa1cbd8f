-- ===== src/Oauth/System/Traced.antt =====
-- Where the exchanges come from.
use specmcp.Prelude.{
  ℕ, ◌≤◌, String, ◌≡◌, refl, sym, ap, ◌∙◌, inl, inr, Bool, true, false, ◌&&◌, ◌||◌, ◌==◌, Option,
  none, some, List, [], ◌∷◌, arith, eq_iff, eq_false_of_ne, Option-cases, if◌then◌else◌,
}
use native.Mathlib.Nat.{le_trans}
use specmcp.Oauth.{Outside, OauthState}
use specmcp.Oauth.Nonces.{issue_nonce, consume_nonce, store_verifier, consume_verifier}
use specmcp.Oauth.Login.{signed_state}
use specmcp.Oauth.System.{Event, issued, login, callback, finished, rotated, delete_session}

-- The session and the scheme of the last issue of a nonce.
abbrev pub latest : List Event → String → Option (String × String)
latest [] n = none
latest (issued nonce session_id scheme_name ∷ log) n =
    if nonce == n then some (session_id, scheme_name) else latest log n
latest (event ∷ log) n = latest log n

-- Some nonce was issued for this session and this scheme.
abbrev pub was_issued : List Event → String → String → Bool
was_issued [] session_id scheme_name = false
was_issued (issued nonce s k ∷ log) session_id scheme_name =
    (s == session_id && k == scheme_name) || was_issued log session_id scheme_name
was_issued (event ∷ log) session_id scheme_name = was_issued log session_id scheme_name

pub was_issued_later :
    (event : Event) (log : List Event) (s k : String)
    → was_issued log s k ≡ true
    → was_issued (event ∷ log) s k ≡ true
was_issued_later (issued nonce t l) log s k h = ground arith
was_issued_later (login v n) log s k h = h
was_issued_later (callback e t c) log s k h = h
was_issued_later (finished r) log s k h = h
was_issued_later rotated log s k h = h
was_issued_later (delete_session a b c) log s k h = h

was_issued-latest :
    (log : List Event) (n s k : String) → latest log n ≡ some (s, k) → was_issued log s k ≡ true
was_issued-latest [] n s k h = cc
was_issued-latest (issued nonce t l ∷ log) n s k h =
    ground (arith, eq_iff t s, eq_iff l k, was_issued-latest log n s k)
was_issued-latest (login v m ∷ log) n s k h = was_issued-latest log n s k h
was_issued-latest (callback e t c ∷ log) n s k h = was_issued-latest log n s k h
was_issued-latest (finished r ∷ log) n s k h = was_issued-latest log n s k h
was_issued-latest (rotated ∷ log) n s k h = was_issued-latest log n s k h
was_issued-latest (delete_session a b c ∷ log) n s k h = was_issued-latest log n s k h

module _ (outside : Outside) where
  -- What the two caches of nonces and the verifiers hold, at a time and after it.
  pub record IsTraced (now : ℕ) (log : List Event) (s : OauthState outside) : Type 0 where
    pub sessions :
        (u : ℕ) (n session_id : String)
        → now ≤ u
        → outside.nonces.peek u s.nonce_store n ≡ some session_id
        → (k : String) × (latest log n ≡ some (session_id, k))
    pub names :
        (u : ℕ) (n k : String)
        → now ≤ u
        → outside.scheme_names.peek u s.nonce_scheme n ≡ some k
        → (session_id : String) × (latest log n ≡ some (session_id, k))
    pub states :
        (u : ℕ) (state verifier k : String)
        → now ≤ u
        → outside.verifiers.peek u s.pkce_store state ≡ some (verifier, k)
        → (session_id : String) × (t : ℕ) × (signed_state outside session_id t ≡ some state)
          × (was_issued log session_id k ≡ true)

  pub IsTraced-later :
      (now later : ℕ) (log : List Event) (s : OauthState outside)
      → now ≤ later
      → IsTraced now log s
      → IsTraced later log s
  IsTraced-later now later log s h t = record {
    sessions = λ u n session_id g. t.sessions u n session_id (le_trans h g);
    names = λ u n k g. t.names u n k (le_trans h g);
    states = λ u state verifier k g. t.states u state verifier k (le_trans h g);
  }

  -- An event that issues nothing.
  pub IsTraced-quiet :
      (now : ℕ) (event : Event) (log : List Event) (s : OauthState outside)
      → ((n : String) → latest log n ≡ latest (event ∷ log) n)
      → IsTraced now log s
      → IsTraced now (event ∷ log) s
  IsTraced-quiet now event log s same t = record {
    sessions =
        λ u n session_id g e. let (k, p) = t.sessions u n session_id g e in (k, sym (same n) ∙ p);
    names = λ u n k g e. let (i, p) = t.names u n k g e in (i, sym (same n) ∙ p);
    states = λ u state verifier k g e.
        let (i, at, p, q) = t.states u state verifier k g e in
        (i, at, p, was_issued_later event log i k q);
  }

  pub issue_nonce-IsTraced :
      (now : ℕ) (nonce session_id scheme_name : String) (log : List Event) (s : OauthState outside)
      → IsTraced now log s
      → IsTraced now
          (issued nonce session_id scheme_name ∷ log)
          (issue_nonce now nonce session_id scheme_name s)
  unfolding issue_nonce
  issue_nonce-IsTraced now nonce session_id scheme_name log s t = record {
    sessions = λ u n i g e.
        elim (outside.nonces.peek_insert s.nonce_store nonce n session_id i now u g e) [
          | inl (same, found) ↦
              (scheme_name, let here = (eq_iff nonce n).1 same in rw here (rw found refl))
          | inr (differ, old) ↦
              let (k, p) = t.sessions u n i g old in (k, rw (eq_false_of_ne nonce n differ) p)
        ];
    names = λ u n k g e.
        elim (outside.scheme_names.peek_insert s.nonce_scheme nonce n scheme_name k now u g e) [
          | inl (same, found) ↦
              (session_id, let here = (eq_iff nonce n).1 same in rw here (rw found refl))
          | inr (differ, old) ↦
              let (i, p) = t.names u n k g old in (i, rw (eq_false_of_ne nonce n differ) p)
        ];
    states = λ u state verifier k g e.
        let (i, at, p, q) = t.states u state verifier k g e in
        (i, at, p, was_issued_later (issued nonce session_id scheme_name) log i k q);
  }

  module _ (now : ℕ) (log : List Event) where
    pub consume_nonce-IsTraced :
        (nonce : String) (s : OauthState outside)
        → IsTraced now log s
        → IsTraced now log (consume_nonce now nonce s).1
    unfolding consume_nonce
    consume_nonce-IsTraced nonce s t =
        elim (Option-cases (outside.nonces.peek now s.nonce_store nonce)) [
          | inl gone ↦ rw gone (record {
            sessions = λ u n i g e.
                t.sessions u n i g ((outside.nonces.peek_pop s.nonce_store nonce n i now u g e).1);
            names = t.names;
            states = t.states;
          })
          | inr (session_id, found) ↦ rw found (record {
            sessions = λ u n i g e.
                t.sessions u n i g ((outside.nonces.peek_pop s.nonce_store nonce n i now u g e).1);
            names = λ u n k g e.
                t.names u n k g
                  ((outside.scheme_names.peek_pop s.nonce_scheme nonce n k now u g e).1);
            states = t.states;
          })
        ]

    pub consume_nonce-latest :
        (nonce session_id scheme_name : String) (s : OauthState outside)
        → IsTraced now log s
        → (consume_nonce now nonce s).0 ≡ some (session_id, scheme_name)
        → was_issued log session_id scheme_name ≡ true
    unfolding consume_nonce
    consume_nonce-latest nonce session_id scheme_name s t h =
        elim (Option-cases (outside.nonces.peek now s.nonce_store nonce)) [
          | inl gone ↦ cc (rw (gone, consume_nonce) at h)
          | inr (i, found) ↦
              let h1 = rw (found, consume_nonce) at h in
              elim (Option-cases (outside.scheme_names.peek now s.nonce_scheme nonce)) [
                | inl lost ↦ cc (rw lost at h1)
                | inr (k, named) ↦
                    let same : ◌≡◌ {A = Option (String × String)} (some (i, k))
                        (some (session_id, scheme_name)) =
                      rw named at h1 in
                    let (k', p) = t.sessions now nonce i (omega arith) found in
                    let (i', q) = t.names now nonce k (omega arith) named in
                    was_issued-latest log nonce session_id scheme_name (cc)
              ]
        ]

    pub store_verifier-IsTraced :
        (state verifier scheme_name session_id : String) (at : ℕ) (s : OauthState outside)
        → signed_state outside session_id at ≡ some state
        → was_issued log session_id scheme_name ≡ true
        → IsTraced now log s
        → IsTraced now log (store_verifier now state verifier scheme_name s)
    unfolding store_verifier
    store_verifier-IsTraced state verifier scheme_name session_id at s signed owned t = record {
      sessions = t.sessions;
      names = t.names;
      states = λ u j w k g e.
          elim (outside.verifiers.peek_insert s.pkce_store state j (verifier, scheme_name) (w, k)
            now u g e) [
              | inl (same, found) ↦ (
                session_id,
                at,
                signed ∙ ap some same,
                let same_name : k ≡ scheme_name = ap (λ (p : String × String). p.1) found in
                    rw same_name owned,
              )
              | inr (differ, old) ↦ t.states u j w k g old
            ];
    }

    pub consume_verifier-IsTraced :
        (state : String) (s : OauthState outside)
        → IsTraced now log s
        → IsTraced now log (consume_verifier now state s).1
    unfolding consume_verifier
    consume_verifier-IsTraced state s t = record {
      sessions = t.sessions;
      names = t.names;
      states = λ u j w k g e.
          t.states u j w k g ((outside.verifiers.peek_pop s.pkce_store state j (w, k) now u g e).1);
    }
