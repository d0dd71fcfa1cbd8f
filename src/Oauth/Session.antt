-- ===== src/Oauth/Session.antt =====
-- _handle_status, _handle_delete_session and _check_management_access.
pub mod Kept
pub mod Access
pub mod Status
pub mod Stored
pub mod Deleted
use Prim.Native.String
use specmcp.Prelude.{
  ℕ, zero, suc, String, Bool, true, false, not, ◌||◌, ◌&&◌, ◌==◌, Option, none, some, List, [], ◌∷◌,
  if◌then◌else◌, elem,
}
use specmcp.Prelude.Dict.{keys}
use specmcp.Prelude.Text.{is_nil, has_prefix, strip, is_space}
use specmcp.Errors.Result.{Result, ok, err}
use specmcp.Auth.Tokens.{OauthTokens, is_expired}
use specmcp.Oauth.{
  Settings, Outside, OauthState, Response, authenticated, empty, raised, query, set_store,
}

-- s[n:]
abbrev pub drop_chars : ℕ → String → String
drop_chars zero s = s
drop_chars (suc n) String.[] = String.[]
drop_chars (suc n) (String.◌∷◌ c s) = drop_chars n s

abbrev pub loopback_hosts : List String
loopback_hosts = "127.0.0.1" ∷ "::1" ∷ "localhost" ∷ "::ffff:127.0.0.1" ∷ []

abbrev host_text : Option String → String
host_text none = ""
host_text (some host) = host

-- The client's host and the authorization header of the request, "" if it has none.
unfoldable pub check_management_access : Settings → Option String → String → Bool
unfolding strip
check_management_access settings client_host auth_header =
    if not settings.management_bind_all
    then elem (host_text client_host) loopback_hosts
    else elim settings.management_token [
      | none ↦ false
      | some expected ↦
          if not (has_prefix auth_header "Bearer ")
          then false
          else strip is_space (drop_chars 7 auth_header) == expected
    ]

module _ (outside : Outside) where
  -- The tokens of the session in the store of a scheme.
  abbrev pub find : OauthState outside → String → String → Result (Option OauthTokens)
  find s session_id name = outside.store.get (s.stores name) session_id

  abbrev is_valid : ℕ → Option OauthTokens → Bool
  is_valid now none = false
  is_valid now (some tokens) = not (is_expired now tokens)

  abbrev or_later : ℕ → Result (Option OauthTokens) → Response → Response
  or_later now (err e) later = raised
  or_later now (ok found) later = if is_valid now found then authenticated 200 true else later

  -- The loop over the schemes.
  unfoldable pub status_among : ℕ → String → List String → OauthState outside → Response
  status_among now session_id [] s = authenticated 200 false
  status_among now session_id (name ∷ names) s =
      or_later now (find s session_id name) (status_among now session_id names s)

  -- The first false answer has the key "error" too.
  unfoldable pub handle_status : Settings → ℕ → String → OauthState outside → Response
  unfolding status_among strip
  handle_status settings now session_param s =
      let session_id = query session_param in
      if is_nil session_id
      then authenticated 400 false
      else status_among now session_id (keys settings.schemes) s

  -- The state, and whether tokens were deleted.
  abbrev pub Deletion : Type 0
  Deletion = OauthState outside × Bool

  abbrev deleted : String → Result outside.store.State → Deletion → Deletion
  deleted name (ok store) (s, any) = (record s { stores = set_store s.stores name store }, true)
  deleted name (err e) d = d

  -- The body of the loop, whose exceptions are swallowed.
  abbrev delete_found : String → String → Result (Option OauthTokens) → Deletion → Deletion
  delete_found session_id name (ok (some tokens)) (s, any) =
      deleted name (outside.store.delete (s.stores name) session_id) (s, any)
  delete_found session_id name r d = d

  unfoldable pub delete_among : String → List String → Deletion → Deletion
  delete_among session_id [] d = d
  delete_among session_id (name ∷ names) (s, any) =
      delete_among session_id names (delete_found session_id name (find s session_id name) (s, any))

  abbrev deletion_answer : Deletion → OauthState outside × Response
  deletion_answer (s, any) = (s, if any then empty 204 else empty 404)

  unfoldable pub handle_delete_session :
      Settings
      → Option String
      → String
      → String
      → OauthState outside
      → OauthState outside × Response
  unfolding check_management_access delete_among strip
  handle_delete_session settings client_host auth_header session_param s =
      let session_id = query session_param in
      if not (check_management_access settings client_host auth_header)
      then (s, empty 403)
      else if is_nil session_id
      then (s, empty 400)
      else deletion_answer (delete_among session_id (keys settings.schemes) (s, false))
