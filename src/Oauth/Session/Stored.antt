-- ===== src/Oauth/Session/Stored.antt =====
-- The tokens that a callback stores, and the status after it.
use specmcp.Prelude.{
  String, ℕ, ◌≡◌, refl, ap, ◌∙◌, inl, inr, Bool, true, false, Option, some, List, [], ◌∷◌, elem,
  any, ◌&&◌, if◌then◌else◌, ◌==◌, eq_iff, eq_refl, Bool-cases,
}
use specmcp.Prelude.Dict.{keys, has}
use specmcp.Prelude.Text.{is_nil}
use specmcp.Errors.Result.{ok}
use specmcp.Auth.Tokens.{OauthTokens, is_expired}
use specmcp.Auth.TokenStore.{IsMap, has_whole_refresh}
use specmcp.Oauth.{Settings, Outside, OauthState, query, set_store, authenticated, html, success}
use specmcp.Oauth.Callback.{Exchange, finish_callback, scope_checks}
use specmcp.Oauth.Session.{handle_status}
use specmcp.Oauth.Session.Status.{has_valid, handle_status_lem}

any_of_elem :
    (p : String → Bool) (k : String) (ks : List String)
    → elem k ks ≡ true
    → p k ≡ true
    → any p ks ≡ true
any_of_elem p k [] h q = cc
any_of_elem p k (j ∷ ks) h q = elim (Bool-cases (j == k)) [
  | inl same ↦ let e : p j ≡ true = ap p ((eq_iff j k).0 same) ∙ q in rw e refl
  | inr differ ↦ elim (Bool-cases (p j)) [
    | inl here ↦ rw here refl
    | inr later ↦ rw later (any_of_elem p k ks (rw differ at h) q)
  ]
]

module _ (outside : Outside) (IsReady : outside.store.State → Type 0)
    (view : outside.store.State → String → Option OauthTokens)
    (law : IsMap outside.store IsReady view) (settings : Settings) (e : Exchange)
    (tokens : OauthTokens) (s : OauthState outside) where
  -- The tokens are stored for the session and the scheme of the exchange, and nothing else changes.
  pub record IsStored (after : OauthState outside) : Type 0 where
    pub ready : (j : String) → IsReady (after.stores j)
    pub views :
        (name j : String)
        → view (after.stores name) j ≡ (
            if (e.scheme_name == name) && (e.session_id == j)
            then some tokens
            else view (s.stores name) j)

  -- When the token endpoint has given tokens, the callback stores them for the session and the scheme
  -- that its state stands for, leaves all other tokens alone, and shows the page of success; the
  -- status of the session is true at a time up to a minute before the tokens expire. The stores
  -- are ready, the scheme is configured, the scope can be read, the refresh token is not empty, and
  -- the session id is not empty and has no outer blanks.
  pub finish_callback-IsStored :
      (now : ℕ)
      → ((j : String) → IsReady (s.stores j))
      → is_expired now tokens ≡ false
      → scope_checks outside settings e.scheme_name tokens ≡ true
      → has_whole_refresh tokens ≡ true
      → has settings.schemes e.scheme_name ≡ true
      → query e.session_id ≡ e.session_id
      → is_nil e.session_id ≡ false
      → IsStored (finish_callback outside settings e (ok tokens) s).0
        × ((finish_callback outside settings e (ok tokens) s).1
            ≡ html 200 (success "You are now authenticated."))
        × (handle_status outside settings now e.session_id
              (finish_callback outside settings e (ok tokens) s).0
            ≡ authenticated 200 true)
  unfolding finish_callback
  finish_callback-IsStored now ready fresh scope whole known stripped given =
      let (store, saved, open_after, views) =
        law.save_view (s.stores e.scheme_name) e.session_id tokens (ready e.scheme_name) whole in
      let after : OauthState outside = record s {
        stores = set_store s.stores e.scheme_name store;
      } in
      let ready_after : (j : String) → IsReady (after.stores j) = λ j.
        elim (Bool-cases (e.scheme_name == j)) [
          | inl same ↦ rw same open_after
          | inr differ ↦ rw differ (ready j)
        ] in
      let held : view store e.session_id ≡ some tokens = views e.session_id ∙ rw eq_refl refl in
      rw scope (
        rw saved (
          record {
            ready = ready_after;
            views = λ name j. elim (Bool-cases (e.scheme_name == name)) [
              | inl same ↦ rw same (views j ∙ rw ((eq_iff e.scheme_name name).0 same) refl)
              | inr differ ↦ rw differ refl
            ];
          },
          refl,
          handle_status_lem outside IsReady view law now e.session_id after ready_after settings
                e.session_id stripped given
              ∙ ap (authenticated 200) (
                  any_of_elem
                    (has_valid outside IsReady view law now e.session_id after ready_after)
                    e.scheme_name (keys settings.schemes) known
                    (rw eq_refl (rw held (rw fresh refl)))),
        ))
