-- ===== src/Serve/Closed.antt =====
-- The end of an MCP connection, in _handle_sse of cli/serve.py: the tokens of its session are deleted.
use specmcp.Prelude.{
  String, ◌≡◌, refl, ap, ◌∙◌, Bool-cases, Bool, true, false, ◌&&◌, ◌||◌, inl, inr, Option, none,
  some, List, [], ◌∷◌, ◌==◌, eq_iff, elem, if◌then◌else◌, arith,
}
use specmcp.Errors.Result.{Result, ok, err}
use specmcp.Auth.Tokens.{OauthTokens}
use specmcp.Auth.TokenStore.{IsMap, has_whole_refresh}
use specmcp.Oauth.{Settings, Outside, OauthState, set_store}
use specmcp.Oauth.Callback.{Exchange, finish_callback, scope_checks}

module _ (outside : Outside) where
  -- An exception of the store is swallowed.
  abbrev purged : String → Result outside.store.State → OauthState outside → OauthState outside
  purged name (ok store) s = record s { stores = set_store s.stores name store }
  purged name (err e) s = s

  unfoldable pub close_session : String → List String → OauthState outside → OauthState outside
  close_session session_id [] s = s
  close_session session_id (name ∷ names) s =
      close_session session_id names
        (purged name (outside.store.delete (s.stores name) session_id) s)

  module _ (IsReady : outside.store.State → Type 0)
      (view : outside.store.State → String → Option OauthTokens)
      (law : IsMap outside.store IsReady view) where
    purged-IsReady :
        (name session_id : String) (s : OauthState outside)
        → ((j : String) → IsReady (s.stores j))
        → (j : String)
        → IsReady ((purged name (outside.store.delete (s.stores name) session_id) s).stores j)
    purged-IsReady name session_id s ready j =
        let (store, e, open_after, _) = law.delete_view (s.stores name) session_id (ready name) in
        rw e (elim (Bool-cases (name == j)) [
          | inl same ↦ rw same open_after
          | inr differ ↦ rw differ (ready j)
        ])

    close_session-IsReady :
        (session_id : String) (names : List String) (s : OauthState outside)
        → ((j : String) → IsReady (s.stores j))
        → (j : String) → IsReady ((close_session session_id names s).stores j)
    unfolding close_session
    close_session-IsReady session_id [] s ready j = ready j
    close_session-IsReady session_id (name ∷ names) s ready j =
        close_session-IsReady session_id names _ (purged-IsReady name session_id s ready) j

    purged-view :
        (name session_id : String) (s : OauthState outside)
        → ((j : String) → IsReady (s.stores j))
        → (i j : String)
        → view ((purged name (outside.store.delete (s.stores name) session_id) s).stores i) j
          ≡ (if (session_id == j) && (name == i) then none else view (s.stores i) j)
    purged-view name session_id s ready i j =
        let (store, e, open_after, views) =
          law.delete_view (s.stores name) session_id (ready name) in
        rw e (elim (Bool-cases (name == i)) [
          | inl same ↦ rw same (views j ∙ rw ((eq_iff name i).0 same) (settle (session_id == j) _))
          | inr differ ↦ rw differ (kept (session_id == j) _)
        ])
      where
        settle :
            (b : Bool) (v : Option OauthTokens)
            → (if b then none else v) ≡ (if b && true then none else v)
        settle b v = ground arith

        kept : (b : Bool) (v : Option OauthTokens) → v ≡ (if b && false then none else v)
        kept b v = ground arith

    -- What the end of a connection leaves in the stores.
    close_session-view :
        (session_id : String) (names : List String) (s : OauthState outside)
        → ((j : String) → IsReady (s.stores j))
        → (i j : String)
        → view ((close_session session_id names s).stores i) j
          ≡ (if (session_id == j) && elem i names then none else view (s.stores i) j)
    unfolding close_session
    close_session-view session_id [] s ready i j = elim (Bool-cases (session_id == j)) [
      | inl own ↦ rw own refl
      | inr other ↦ rw other refl
    ]
    close_session-view session_id (name ∷ names) s ready i j =
        close_session-view session_id names _ (purged-IsReady name session_id s ready) i j
        ∙ ap (λ v. if (session_id == j) && elem i names then none else v)
            (purged-view name session_id s ready i j)
        ∙ settle (session_id == j) (name == i) (elem i names) _
      where
        settle :
            (a b c : Bool) (v : Option OauthTokens)
            → (if a && c then none else (if a && b then none else v))
              ≡ (if a && (b || c) then none else v)
        settle a b c v = ground arith

    -- At the end of its connection the tokens of a session are deleted in every scheme named, and no
    -- others. A callback that waited for its tokens and ends after that stores them all the same, and
    -- nothing else; where its scheme is one of those named, it had no tokens in between. The stores are
    -- ready, the scope can be read and the refresh token is not empty.
    pub finish_callback-close_session :
        (settings : Settings) (e : Exchange) (tokens : OauthTokens) (names : List String)
        (s : OauthState outside)
        → ((j : String) → IsReady (s.stores j))
        → scope_checks outside settings e.scheme_name tokens ≡ true
        → has_whole_refresh tokens ≡ true
        → (i j : String)
        → (view ((close_session e.session_id names s).stores i) j
            ≡ (if (e.session_id == j) && elem i names then none else view (s.stores i) j))
          × (view
                ((finish_callback outside settings e
                    (ok tokens)
                    (close_session e.session_id names s)).0.stores
                  i)
                j
              ≡ (if (e.scheme_name == i) && (e.session_id == j)
                  then some tokens
                  else if (e.session_id == j) && elem i names
                  then none
                  else view (s.stores i) j))
    unfolding finish_callback
    finish_callback-close_session settings e tokens names s ready scope whole i j =
        let after = close_session e.session_id names s in
        let closed = close_session-view e.session_id names s ready i j in
        let (store, saved, _, views) =
          law.save_view (after.stores e.scheme_name) e.session_id tokens
            (close_session-IsReady e.session_id names s ready e.scheme_name) whole in
        (
          closed,
          rw scope (
              rw saved (elim (Bool-cases (e.scheme_name == i)) [
                | inl same ↦ rw same (
                    views j
                    ∙ ap (λ v. if e.session_id == j then some tokens else v)
                        (rw ((eq_iff e.scheme_name i).0 same) closed))
                | inr differ ↦ rw differ closed
              ])),
        )
