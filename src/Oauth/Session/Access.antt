-- ===== src/Oauth/Session/Access.antt =====
-- Who may delete the tokens of a session.

use specmcp.Prelude.{
  String, ◌≡◌, ◌≢◌, refl, ◌⊎◌, inl, inr, true, false, Option, some, elem, eq_iff, Bool-cases, ◌==◌,
  Option-cases,
}
use specmcp.Prelude.Text.{strip, is_space, has_prefix}
use specmcp.Oauth.{Settings, Outside, OauthState, empty}
use specmcp.Oauth.Session.{
  drop_chars, host_text, loopback_hosts, check_management_access, handle_delete_session,
}

-- The request comes from this machine, where the endpoint is bound to it, or else carries the
-- management token.
abbrev pub IsAuthorized : Settings → Option String → String → Type 0
IsAuthorized settings client_host auth_header =
    ((settings.management_bind_all ≡ false) × (elem (host_text client_host) loopback_hosts ≡ true))
    ⊎ ((settings.management_bind_all ≡ true)
        × (settings.management_token ≡ some (strip is_space (drop_chars 7 auth_header)))
        × (has_prefix auth_header "Bearer " ≡ true))

check-IsAuthorized :
    (settings : Settings) (client_host : Option String) (auth_header : String)
    → check_management_access settings client_host auth_header ≡ true
    → IsAuthorized settings client_host auth_header
unfolding check_management_access
check-IsAuthorized settings client_host auth_header h =
    elim (Bool-cases settings.management_bind_all) [
      | inr local ↦ inl (local, rw local at h)
      | inl all ↦
          let h1 = rw all at h in
          elim (Option-cases settings.management_token) [
            | inl unset ↦ cc (rw (unset, check_management_access) at h1)
            | inr (token, set) ↦
                let h2 = rw set at h1 in
                elim (Bool-cases (has_prefix auth_header "Bearer ")) [
                  | inr other ↦ cc (rw other at h2)
                  | inl bearer ↦
                      let same : (strip is_space (drop_chars 7 auth_header) == token) ≡ true =
                        rw bearer at h2 in
                      let e = (eq_iff (strip is_space (drop_chars 7 auth_header)) token).0 same in
                      inr (all, rw e set, bearer)
                ]
          ]
    ]

-- A request to delete a session that is not refused with 403, or that changes anything, comes from
-- the loopback interface where the endpoint is bound to it, and carries the management token where it
-- is bound to all, where one must be set.
pub handle_delete_session-IsAuthorized :
    (outside : Outside) (settings : Settings) (client_host : Option String)
    (auth_header session_param : String) (s : OauthState outside)
    → handle_delete_session outside settings client_host auth_header session_param s
      ≢ (s, empty 403)
    → IsAuthorized settings client_host auth_header
unfolding handle_delete_session
handle_delete_session-IsAuthorized outside settings client_host auth_header session_param s h =
    elim (Bool-cases (check_management_access settings client_host auth_header)) [
      | inl allowed ↦ check-IsAuthorized settings client_host auth_header allowed
      | inr refused ↦ absurd (h (rw (refused, handle_delete_session) refl))
    ]
