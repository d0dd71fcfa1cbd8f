-- ===== src/Auth/AuthCode/Applied.antt =====
-- What the handler injects, and where it sends the user.
use specmcp.Prelude.{
  ℕ, String, ◌≡◌, refl, subst, ◌∙◌, ◌⊎◌, inl, inr, true, false, Option, none, some, eq_refl,
  Bool-cases, Option-cases,
}
use specmcp.Prelude.Dict.{get, has}
use specmcp.Prelude.Text.{is_nil}
use specmcp.Json.{Json, obj, to_dict, Fields}
use specmcp.Errors.Result.{Result, ok, err, ◌>>=◌, auth_required, token_refresh, python_error}
use specmcp.Auth.Tokens.{bad_type, bad_value, OauthTokens, is_expired, from_token_response}
use specmcp.Auth.TokenStore.{IsMap, has_whole_refresh}
use specmcp.Auth.Injector.{Credentials, with_bearer}
use specmcp.Oauth.{Outside, OauthState}
use specmcp.Oauth.Nonces.{issue_nonce}
use specmcp.Oauth.Exchange.{TokenAnswer, answer, read_body}
use specmcp.Auth.AuthCode.{
  AuthCodeHandler, Applied, refreshed, login_url, require_login, after_refresh, try_refresh, apply,
}
use specmcp.Auth.AuthCode.Raised.{raises_only, refreshed-raises_only}

module _ (outside : Outside) (IsReady : outside.store.State → Type 0)
    (view : outside.store.State → String → Option OauthTokens)
    (law : IsMap outside.store IsReady view) (handler : AuthCodeHandler) (now later : ℕ)
    (ans : TokenAnswer) (session_id : String) (drawn : Option String) (s : OauthState outside)
    (c : Credentials) where
  -- The tokens are what the token endpoint gave for the refresh token of the stored ones, which were
  -- about to expire.
  pub record WasRefreshed (tokens : OauthTokens) : Type 0 where
    pub old : OauthTokens
    pub refresh_token : String
    pub stored : view (s.stores handler.scheme_name) session_id ≡ some old
    pub old_expired : is_expired now old ≡ true
    pub had : old.refresh_token ≡ some refresh_token
    pub given : refreshed outside.python later ans refresh_token ≡ ok tokens

  -- The credentials carry the access token that the store holds for the session from then on, which
  -- is not about to expire or was just given by the token endpoint.
  pub record IsApplied (after : OauthState outside) (out : Credentials) : Type 0 where
    pub tokens : OauthTokens
    pub held : view (after.stores handler.scheme_name) session_id ≡ some tokens
    pub carried : out ≡ with_bearer tokens.access_token c
    pub fresh : ((is_expired now tokens ≡ false) × (after ≡ s)) ⊎ WasRefreshed tokens

  -- The user is sent to the login of a nonce that was issued for the session and the scheme.
  pub record IsInvited (after : OauthState outside) (url : String) : Type 0 where
    pub nonce : String
    pub chosen : drawn ≡ some nonce
    pub target : url ≡ login_url handler nonce
    pub issued_at : ℕ
    pub timed : (issued_at ≡ now) ⊎ (issued_at ≡ later)
    pub issued : after ≡ issue_nonce issued_at nonce session_id handler.scheme_name s

  abbrev Outcome : Applied outside handler → Type 0
  Outcome (after, ok out) = IsApplied after out
  Outcome (after, err (auth_required (some url))) = IsInvited after url
  Outcome (after, err e) = Unit

  require_login-Outcome :
      (at : ℕ) (d : Option String)
      → (at ≡ now) ⊎ (at ≡ later)
      → drawn ≡ d
      → Outcome (require_login outside handler at session_id d s)
  unfolding require_login
  require_login-Outcome at none k h = tt
  require_login-Outcome at (some nonce) k h = record {
    nonce = nonce;
    chosen = h;
    target = refl;
    issued_at = at;
    timed = k;
    issued = refl;
  }

  module _ (ready : IsReady (s.stores handler.scheme_name))
      (whole : (old : OauthTokens) (r : String) (t : OauthTokens)
        → view (s.stores handler.scheme_name) session_id ≡ some old
        → old.refresh_token ≡ some r
        → refreshed outside.python later ans r ≡ ok t
        → has_whole_refresh t ≡ true) where
    after_refresh-Outcome :
        (old : OauthTokens) (r : String) (result : Result OauthTokens)
        → view (s.stores handler.scheme_name) session_id ≡ some old
        → is_expired now old ≡ true
        → old.refresh_token ≡ some r
        → refreshed outside.python later ans r ≡ result
        → raises_only result ≡ true
        → Outcome (after_refresh outside handler later session_id drawn result s c)
    after_refresh-Outcome old r (ok tokens) found expired had e h =
        let (store, saved, _, views) =
          law.save_view (s.stores handler.scheme_name) session_id tokens ready
            (whole old r tokens found had e) in
        rw saved (record {
          tokens = tokens;
          held = rw eq_refl (views session_id ∙ rw eq_refl refl);
          carried = refl;
          fresh = inr (record {
            old = old;
            refresh_token = r;
            stored = found;
            old_expired = expired;
            had = had;
            given = e;
          });
        })
    after_refresh-Outcome old r (err (token_refresh status)) found expired had e h =
        require_login-Outcome later drawn (inr refl) refl
    after_refresh-Outcome old r (err (auth_required (some url))) found expired had e h = cc
    after_refresh-Outcome old r (err other) found expired had e h = tt

    try_refresh-Outcome :
        (old : OauthTokens) (o : Option String)
        → view (s.stores handler.scheme_name) session_id ≡ some old
        → is_expired now old ≡ true
        → old.refresh_token ≡ o
        → Outcome (try_refresh outside handler now later ans session_id drawn o s c)
    try_refresh-Outcome old none found expired had = require_login-Outcome now drawn (inl refl) refl
    try_refresh-Outcome old (some r) found expired had =
        after_refresh-Outcome old r (refreshed outside.python later ans r) found expired had refl
          (refreshed-raises_only outside.python later ans r)

    apply-Outcome :
        is_nil session_id ≡ false
        → Outcome (apply outside handler now later ans drawn (some session_id) s c)
    unfolding apply
    apply-Outcome given =
        let e = law.get_view (s.stores handler.scheme_name) session_id ready in
        elim (Option-cases (view (s.stores handler.scheme_name) session_id)) [
          | inl absent ↦ rw (given, e, absent) (require_login-Outcome now drawn (inl refl) refl)
          | inr (tokens, found) ↦
              rw (given, e, found)
                (elim (Bool-cases (is_expired now tokens)) [
                  | inr valid ↦ rw valid (record {
                    tokens = tokens;
                    held = found;
                    carried = refl;
                    fresh = inl (valid, refl);
                  })
                  | inl old ↦
                      rw old (try_refresh-Outcome tokens tokens.refresh_token found old refl)
                ])
        ]

    -- When the handler returns for a session id that is not empty, the credentials carry the access
    -- token that the store has for the session from then on: either nothing changed and it is not
    -- about to expire, or it comes from the refresh that was just made with the refresh token of the
    -- stored tokens, which were about to expire. The store is ready, and a refresh with the stored
    -- refresh token, which is carried over where the answer omits one, gives no empty one.
    pub apply-IsApplied :
        (after : OauthState outside) (out : Credentials)
        → is_nil session_id ≡ false
        → apply outside handler now later ans drawn (some session_id) s c ≡ (after, ok out)
        → IsApplied after out
    apply-IsApplied after out given e = subst Outcome e (apply-Outcome given)

    -- When the handler asks for a login, its URL has the nonce that was drawn, and all that changes
    -- is that this nonce is issued for the session and the scheme.
    pub apply-IsInvited :
        (after : OauthState outside) (url : String)
        → is_nil session_id ≡ false
        → apply outside handler now later ans drawn (some session_id) s c
          ≡ (after, err (auth_required (some url)))
        → IsInvited after url
    apply-IsInvited after url given e = subst Outcome e (apply-Outcome given)

-- Where the tokens of the session are about to expire and have a refresh token, and the answer to the
-- refresh is 200 with an access token and a lifetime that `float` refuses, by TypeError or by
-- ValueError, the handler raises this exception, changes nothing and sends nobody to a login.
pub apply_raises :
    (outside : Outside) (IsReady : outside.store.State → Type 0)
    (view : outside.store.State → String → Option OauthTokens)
    (law : IsMap outside.store IsReady view) (handler : AuthCodeHandler) (now later : ℕ)
    (fs : Fields) (lifetime access : Json) (session_id refresh_token : String)
    (drawn : Option String) (tokens : OauthTokens) (s : OauthState outside) (c : Credentials)
    → IsReady (s.stores handler.scheme_name)
    → is_nil session_id ≡ false
    → view (s.stores handler.scheme_name) session_id ≡ some tokens
    → is_expired now tokens ≡ true
    → tokens.refresh_token ≡ some refresh_token
    → has (to_dict fs) "access_token" ≡ true
    → get (to_dict fs) "access_token" ≡ some access
    → get (to_dict fs) "expires_in" ≡ some lifetime
    → (outside.python.float lifetime ≡ bad_type) ⊎ (outside.python.float lifetime ≡ bad_value)
    → apply outside handler now later (answer 200 (some (obj fs))) drawn (some session_id) s c
      ≡ (s, err python_error)
unfolding apply refreshed read_body from_token_response ◌>>=◌
apply_raises outside IsReady view law handler now later fs lifetime access session_id refresh_token
      drawn tokens s c ready given found old refresh there access_there lifetime_there bad =
    rw (given, law.get_view (s.stores handler.scheme_name) session_id ready, found)
      (rw old (
        rw refresh (
          rw (there) (
            rw (access_there, lifetime_there)
              (elim bad [
                | inl type_error ↦ rw type_error refl
                | inr value_error ↦ rw value_error refl
              ])))))
