-- ===== src/Auth/AuthCode/Raised.antt =====
-- What a refresh may raise.
use specmcp.Prelude.{
  ℕ, String, ◌≡◌, refl, Bool, true, false, not, Option, none, some, eqb, if◌then◌else◌,
}
use specmcp.Prelude.Dict.{Dict, get, has}
use specmcp.Json.{Json, str, arr, obj, to_dict, holds_str}
use specmcp.Errors.Result.{Error, Result, ok, err, ◌>>=◌, token_refresh, python_error}
use specmcp.Auth.Tokens.{
  Parsed, value, bad_value, bad_type, Python, from_token_response, item, expiry, or_raise,
}
use specmcp.Oauth.Exchange.{TokenAnswer, unreachable, answer, read_body, has_substring}
use specmcp.Auth.AuthCode.{refreshed}

-- The exceptions that a refresh raises.
abbrev pub is_refresh_error : Error → Bool
is_refresh_error python_error = true
is_refresh_error (token_refresh status) = true
is_refresh_error e = false

abbrev pub raises_only {ℓ} : {A : Type ℓ} → Result A → Bool
raises_only (ok a) = true
raises_only (err e) = is_refresh_error e

raises_only_bind {ℓ κ} :
    {A : Type ℓ} {B : Type κ} (m : Result A) (f : A → Result B)
    → raises_only m ≡ true
    → ((a : A) → raises_only (f a) ≡ true)
    → raises_only (m >>= f) ≡ true
unfolding ◌>>=◌
raises_only_bind (ok a) f h k = k a
raises_only_bind (err e) f h k = h

raises_only_if {ℓ} :
    {A : Type ℓ} (b : Bool) (m n : Result A)
    → raises_only m ≡ true
    → raises_only n ≡ true
    → raises_only (if b then m else n) ≡ true
raises_only_if true m n h k = h
raises_only_if false m n h k = k

read_body-raises_only :
    (body : Option Json) → raises_only (read_body (token_refresh none) body) ≡ true
unfolding read_body
read_body-raises_only none = refl
read_body-raises_only (some (obj fs)) =
    raises_only_if (has (to_dict fs) "access_token") _ _ refl refl
read_body-raises_only (some (arr vs)) = raises_only_if (holds_str "access_token" vs) _ _ refl refl
read_body-raises_only (some (str s)) = raises_only_if (has_substring s "access_token") _ _ refl refl
read_body-raises_only (some v) = refl

item-raises_only : (o : Option Json) → raises_only (item o) ≡ true
item-raises_only none = refl
item-raises_only (some v) = refl

parsed-raises_only : (p : Parsed ℕ) → raises_only (or_raise p) ≡ true
parsed-raises_only (value v) = refl
parsed-raises_only bad_value = refl
parsed-raises_only bad_type = refl

expiry-raises_only :
    (py : Python) (now : ℕ) (o : Option Json) → raises_only (expiry py now o) ≡ true
expiry-raises_only py now none = refl
expiry-raises_only py now (some v) =
    raises_only_bind (or_raise (py.float v)) _ (parsed-raises_only (py.float v)) (λ lifetime. refl)

from_token_response-raises_only :
    (py : Python) (now : ℕ) (body : Dict Json) (existing : Option String)
    → raises_only (from_token_response py now body existing) ≡ true
unfolding from_token_response
from_token_response-raises_only py now body existing =
    raises_only_bind _ _ (item-raises_only (get body "access_token")) λ access.
      raises_only_bind _ _ (expiry-raises_only py now (get body "expires_in")) λ expires. refl

-- A refresh raises TokenRefreshError, or an exception of Python.
pub refreshed-raises_only :
    (py : Python) (now : ℕ) (ans : TokenAnswer) (refresh_token : String)
    → raises_only (refreshed py now ans refresh_token) ≡ true
unfolding refreshed
refreshed-raises_only py now unreachable refresh_token = refl
refreshed-raises_only py now (answer status body) refresh_token =
    raises_only_if (not (eqb status 200)) _ _ refl (
      raises_only_bind _ _ (read_body-raises_only body)
        λ fields. from_token_response-raises_only py now fields (some refresh_token))
