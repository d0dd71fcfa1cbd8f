-- ===== src/Oauth/Session/Deleted.antt =====
-- What a deletion leaves in the stores.
use specmcp.Prelude.{
  String, ◌≡◌, refl, ◌∙◌, inl, inr, Bool, true, false, Option, none, List, [], ◌∷◌, elem, ◌==◌,
  eq_iff, Bool-cases, Option-cases, arith, ◌&&◌, if◌then◌else◌,
}
use specmcp.Prelude.Dict.{keys}
use specmcp.Prelude.Text.{is_nil}
use specmcp.Auth.Tokens.{OauthTokens}
use specmcp.Auth.TokenStore.{IsMap}
use specmcp.Oauth.{Settings, Outside, OauthState, query}
use specmcp.Oauth.Session.{
  Deletion, find, deleted, delete_found, delete_among, check_management_access,
  handle_delete_session,
}

module _ (outside : Outside) (IsReady : outside.store.State → Type 0)
    (view : outside.store.State → String → Option OauthTokens)
    (law : IsMap outside.store IsReady view) (session_id : String) where
  abbrev is_deleted : List String → String → String → Bool
  is_deleted names name j = (session_id == j) && elem name names

  -- The stores after the deletion of a session among some schemes: what each scheme holds of each
  -- session.
  pub record IsDeleted (names : List String) (before after : OauthState outside) : Type 0 where
    pub ready : (name : String) → IsReady (after.stores name)
    pub views :
        (name j : String)
        → view (after.stores name) j
          ≡ (if is_deleted names name j then none else view (before.stores name) j)

  unchanged-IsDeleted :
      (name : String) (s : OauthState outside)
      → ((j : String) → IsReady (s.stores j))
      → view (s.stores name) session_id ≡ none
      → IsDeleted (name ∷ []) s s
  unchanged-IsDeleted name s ready absent = record {
    ready = ready;
    views = λ i j. elim (Bool-cases (session_id == j)) [
      | inl own ↦ elim (Bool-cases (name == i)) [
        | inl same ↦
            let e : view (s.stores i) j ≡ view (s.stores name) session_id =
              rw ((eq_iff name i).0 same, (eq_iff session_id j).0 own) refl in
            rw (own, same) (e ∙ absent)
        | inr differ ↦ rw (own, differ) refl
      ]
      | inr other ↦ rw other refl
    ];
  }

  deleted-IsDeleted :
      (name : String) (s : OauthState outside) (any : Bool)
      → ((j : String) → IsReady (s.stores j))
      → IsDeleted
          (name ∷ [])
          s
          (deleted outside name (outside.store.delete (s.stores name) session_id) (s, any)).0
  deleted-IsDeleted name s any ready =
      let (store, e, open_after, views) = law.delete_view (s.stores name) session_id (ready name) in
      rw e (record {
        ready = λ j. elim (Bool-cases (name == j)) [
          | inl same ↦ rw same open_after
          | inr differ ↦ rw differ (ready j)
        ];
        views = λ i j. elim (Bool-cases (name == i)) [
          | inl same ↦
              let v : view store j ≡ (if session_id == j then none else view (s.stores i) j) =
                views j ∙ rw ((eq_iff name i).0 same) refl in
              rw same (v ∙ ground arith)
          | inr differ ↦ rw differ (ground arith)
        ];
      })

  delete_found-IsDeleted :
      (name : String) (s : OauthState outside) (any : Bool)
      → ((j : String) → IsReady (s.stores j))
      → IsDeleted
          (name ∷ [])
          s
          (delete_found outside session_id name (find outside s session_id name) (s, any)).0
  delete_found-IsDeleted name s any ready =
      let e = law.get_view (s.stores name) session_id (ready name) in
      elim (Option-cases (view (s.stores name) session_id)) [
        | inl absent ↦ rw (e, absent) (unchanged-IsDeleted name s ready absent)
        | inr (tokens, found) ↦ rw (e, found) (deleted-IsDeleted name s any ready)
      ]

  IsDeleted-cons :
      (name : String) (names : List String) (s t u : OauthState outside)
      → IsDeleted (name ∷ []) s t
      → IsDeleted names t u
      → IsDeleted (name ∷ names) s u
  IsDeleted-cons name names s t u first rest = record {
    ready = rest.ready;
    views = λ i j. ground (arith, rest.views i j, first.views i j);
  }

  delete_among-IsDeleted :
      (names : List String) (d : Deletion outside)
      → ((j : String) → IsReady (d.0.stores j))
      → IsDeleted names d.0 (delete_among outside session_id names d).0
  unfolding delete_among
  delete_among-IsDeleted [] d ready = record { ready = ready; views = λ i j. ground arith }
  delete_among-IsDeleted (name ∷ names) (s, any) ready =
      let found = find outside s session_id name in
      let first = delete_found-IsDeleted name s any ready in
      let d = delete_found outside session_id name found (s, any) in
      IsDeleted-cons name names s d.0 _ first (delete_among-IsDeleted names d first.ready)

  -- After a deletion that is let in, no scheme holds tokens of the session, the tokens of all other
  -- sessions are as they were, and the stores stay ready, whatever stores they are. The session id is
  -- not empty and has no outer blanks.
  pub handle_delete_session-IsDeleted :
      (settings : Settings) (client_host : Option String) (auth_header session_param : String)
      (s : OauthState outside)
      → ((j : String) → IsReady (s.stores j))
      → check_management_access settings client_host auth_header ≡ true
      → query session_param ≡ session_id
      → is_nil session_id ≡ false
      → IsDeleted
          (keys settings.schemes)
          s
          (handle_delete_session outside settings client_host auth_header session_param s).0
  unfolding handle_delete_session
  handle_delete_session-IsDeleted settings client_host auth_header session_param s ready allowed e
        given =
      rw (allowed, e, given) (delete_among-IsDeleted (keys settings.schemes) (s, false) ready)
