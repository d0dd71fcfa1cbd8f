-- ===== src/Normalize/Server/Resolved.antt =====
-- What a resolved server URL looks like.

use specmcp.Prelude.{
  Bool-cases, inl, inr, subst, Char, String, ◌≡◌, refl, Bool, true, false, ◌&&◌, Option, List, [],
  ◌∷◌, arith,
}
use specmcp.Prelude.Dict.{Dict}
use specmcp.Prelude.Text.{is_nil, rstrip, any_char, ends_with_char, ends-rstrip}
use specmcp.Json.{Json}
use specmcp.Errors.Result.{
  ok, Returns, Returns-ok, Returns-err, Returns-bind, Returns-if, ok_injective,
}
use specmcp.Normalize.Server.{
  is_slash, is_close, closes, has_variable, server_url, is_given, resolve_server_url,
}

any_char-rstrip :
    (p q : Char → Bool) (s : String) → any_char p (rstrip q s) ≡ true → any_char p s ≡ true
unfolding rstrip
any_char-rstrip p q String.[] h = h
any_char-rstrip p q (String.◌∷◌ c s) h = ground (arith, any_char-rstrip p q s)

closes-rstrip : (q : Char → Bool) (s : String) → closes (rstrip q s) ≡ true → closes s ≡ true
unfolding rstrip
closes-rstrip q String.[] h = h
closes-rstrip q (String.◌∷◌ c s) h = elim (Bool-cases (is_nil (rstrip q s) && q c)) [
  | inl gone ↦ cc (rw gone at h)
  | inr kept ↦
      let k : closes (String.◌∷◌ c (rstrip q s)) ≡ true = rw kept at h in
      ground (arith, any_char-rstrip is_close q s)
]

-- Stripping on the right brings no variable into being.
has_variable-rstrip :
    (q : Char → Bool) (s : String) → has_variable s ≡ false → has_variable (rstrip q s) ≡ false
unfolding rstrip
has_variable-rstrip q String.[] h = h
has_variable-rstrip q (String.◌∷◌ c s) h =
    ground (arith, has_variable-rstrip q s, closes-rstrip q s)

-- A base URL that a path can be appended to.
pub record IsBaseUrl (url : String) : Type 0 where
  pub no_variable : has_variable url ≡ false
  pub no_slash : ends_with_char is_slash url ≡ false

server_url-IsBaseUrl :
    (given : Dict String) (server : Json) → Returns IsBaseUrl (server_url given server)
unfolding server_url
server_url-IsBaseUrl given server_raw = Returns-bind _ _ λ server _. Returns-bind _ _ λ url _.
    Returns-bind _ _ λ variables _. Returns-bind _ _ λ filled _.
      Returns-if _ _ _ (λ _. Returns-err _)
        λ none_left. Returns-ok _ (record {
          no_variable = has_variable-rstrip is_slash filled none_left;
          no_slash = ends-rstrip is_slash filled;
        })

-- Without an override, a server URL that is returned has no unresolved variable and no slash at its
-- end.
pub resolve_server_url-IsBaseUrl :
    (servers : List Json) (given : Dict String) (override : Option String) (url : String)
    → is_given override ≡ false
    → resolve_server_url servers given override ≡ ok url
    → IsBaseUrl url
unfolding resolve_server_url
resolve_server_url-IsBaseUrl [] given override url h e =
    subst IsBaseUrl (ok_injective (rw h at e)) (record { no_variable = refl; no_slash = refl })
resolve_server_url-IsBaseUrl (server ∷ rest) given override url h e =
    (server_url-IsBaseUrl given server).at url (rw h at e)
