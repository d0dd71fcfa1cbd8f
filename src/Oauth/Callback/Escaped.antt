-- ===== src/Oauth/Callback/Escaped.antt =====
-- The page that shows an error of the authorization server.
use Prim.Native.String
use Prim.Native.Char.{Char, code}
use specmcp.Prelude.{ℕ, String, ◌≡◌, refl, inl, Bool, true, false, not, ◌||◌, eqb, if◌then◌else◌}
use specmcp.Prelude.Text.{all_chars, all_chars-append, is_nil}
use specmcp.Oauth.{Settings, Outside, OauthState, html, failure, query}
use specmcp.Oauth.Callback.{escaped_char, escape, begin_callback}

-- No character that opens or closes a tag or a quoted attribute.
abbrev pub is_plain : Char → Bool
is_plain c = let n = code c in not (eqb n b'<' || (eqb n b'>' || (eqb n 34 || eqb n 39)))

plain_if :
    (b : Bool) (s t : String)
    → all_chars is_plain s ≡ true
    → (b ≡ false → all_chars is_plain t ≡ true)
    → all_chars is_plain (if b then s else t) ≡ true
plain_if true s t h k = h
plain_if false s t h k = k refl

escaped_char-plain : (c : Char) → all_chars is_plain (escaped_char c) ≡ true
escaped_char-plain c = plain_if (eqb (code c) b'&') _ _ refl λ _.
    plain_if (eqb (code c) b'<') _ _ refl λ lt. plain_if (eqb (code c) b'>') _ _ refl λ gt.
      plain_if (eqb (code c) 34) _ _ refl
        λ double. plain_if (eqb (code c) 39) _ _ refl λ single. rw (lt, gt, double, single) refl

escape-plain : (s : String) → all_chars is_plain (escape s) ≡ true
unfolding escape
escape-plain String.[] = refl
escape-plain (String.◌∷◌ c s) = rw all_chars-append (rw (escaped_char-plain c, escape-plain s) refl)

-- A callback with an error of the authorization server changes nothing, whatever else it carries, and
-- its page has the error's text only in an escaped form, which no tag or attribute begins or ends in.
pub begin_callback-plain :
    (outside : Outside) (settings : Settings) (now : ℕ) (error state auth_code : String)
    (s : OauthState outside)
    → is_nil (query error) ≡ false
    → (begin_callback outside settings now error state auth_code s ≡ (
      s,
      inl (html 200 (failure (String.◌++◌ "Authorization failed: " (escape (query error))))),
    ))
      × (all_chars is_plain (escape (query error)) ≡ true)
unfolding begin_callback
begin_callback-plain outside settings now error state auth_code s given =
    (rw given refl, escape-plain (query error))
