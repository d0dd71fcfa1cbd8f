-- ===== src/Auth/Tokens.antt =====
-- The tokens of a session, OAuthTokens of auth/token_store.py. Times are whole seconds. What Python
-- does with floats and with the repr of nested values is the record `Python` of functions.
use specmcp.Prelude.{ℕ, ◌+◌, String, ◌≡◌, Bool, false, Option, none, some, eqb, leb, if◌then◌else◌}
use specmcp.Prelude.Dict.{Dict, get}
use specmcp.Json.{Json, num, str, get_or}
use specmcp.Errors.Result.{Result, ok, err, ◌>>=◌, python_error}
use specmcp.Dispatch.Serialize.{py_str}

-- What reading a value gives: the value, a ValueError or KeyError, or a TypeError.
pub data Parsed {ℓ} (A : Type ℓ) : Type ℓ where
  value : A → Parsed A
  bad_value bad_type : Parsed A

pub record Python : Type 0 where
  -- float(v), for a result that is not negative
  pub float : Json → Parsed ℕ
  -- json.dumps of a float
  pub print : ℕ → String
  pub nested_text : Json → String
  pub float_print : (t : ℕ) → float (num (print t)) ≡ value t

pub record OauthTokens : Type 0 where
  pub access_token : String
  pub refresh_token : Option String
  -- 0 where the server gave no lifetime
  pub expires_at : ℕ
  pub token_type : Json
  pub scope : Json

-- `now >= expires_at - buffer_seconds`, with the default buffer
abbrev pub is_expired : ℕ → OauthTokens → Bool
is_expired now tokens = if eqb tokens.expires_at 0 then false else leb tokens.expires_at (now + 60)

-- The result of an expression that raises where the reading fails.
abbrev pub or_raise {ℓ} : {A : Type ℓ} → Parsed A → Result A
or_raise (value v) = ok v
or_raise p = err python_error

abbrev pub expiry : Python → ℕ → Option Json → Result ℕ
expiry py now none = ok 0
expiry py now (some v) = or_raise (py.float v) >>= λ lifetime. ok (now + lifetime)

abbrev pub item : Option Json → Result Json
item none = err python_error
item (some v) = ok v

abbrev pub refresh_from : Python → Option Json → Option String → Option String
refresh_from py none existing = existing
refresh_from py (some v) existing = some (py_str py.nested_text v)

unfoldable pub from_token_response : Python → ℕ → Dict Json → Option String → Result OauthTokens
unfolding ◌>>=◌ get get_or
from_token_response py now body existing = do
  access ← item (get body "access_token")
  expires ← expiry py now (get body "expires_in")
  ok (record {
    access_token = py_str py.nested_text access;
    refresh_token = refresh_from py (get body "refresh_token") existing;
    expires_at = expires;
    token_type = get_or body "token_type" (str "Bearer");
    scope = get_or body "scope" (str "");
  })
