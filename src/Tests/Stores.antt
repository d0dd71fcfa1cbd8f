-- ===== src/Tests/Stores.antt =====
-- Examples of the token stores and of the handler of authorization codes.

use specmcp.Prelude.{
  elem, ◌-◌, ◌≡◌, refl, ap, Option, none, some, List, [], ◌∷◌, ◌++◌, length, length-append, arith,
}
use specmcp.Prelude.Dict.{get, set, remove, keys}
use specmcp.Json.{null, str}
use specmcp.Errors.Result.{ok, ◌>>=◌}
use specmcp.Auth.State.{Bytes, take}
use specmcp.Auth.State.Signed.{take-append}
use specmcp.Auth.Encryption.{Crypto}
use specmcp.Auth.Tokens.{OauthTokens}
use specmcp.Auth.TokenStore.Memory.{memory_store}
use specmcp.Auth.TokenStore.Sqlite.{Outside, sqlite_store}
use specmcp.Auth.TokenStore.Runs.{
  Call, find, save, delete, sessions, found, listed, run, run-sqlite_store,
}
use specmcp.Tests.Codec.{codes, from_codes, from_codes-codes, python}
use specmcp.Tests.Dumped.{dumps, loads, loads-dumps}

abbrev zeros : Bytes
zeros = 0 ∷ 0 ∷ 0 ∷ 0 ∷ 0 ∷ 0 ∷ 0 ∷ 0 ∷ 0 ∷ 0 ∷ 0 ∷ 0 ∷ 0 ∷ 0 ∷ 0 ∷ 0 ∷ []

-- A cipher that keeps the text and puts a tag of zeros behind it.
abbrev opened : Bytes → Option Bytes
opened body = some (take (length body - 16) body)

opened_lem : (text : Bytes) → opened (text ++ zeros) ≡ some text
opened_lem text =
    ap some (
      take-append (length (text ++ zeros) - 16) text zeros
        (omega (arith, length-append text zeros)))

abbrev crypto : Crypto
crypto = record {
  hkdf = λ key context. key;
  seal = λ key nonce text. text ++ zeros;
  unseal = λ key nonce body. opened body;
  utf8 = codes;
  from_utf8 = from_codes;
  unseal_seal = λ key nonce text. opened_lem text;
  length_seal = λ key nonce text. length-append text zeros;
  from_utf8_utf8 = from_codes-codes;
}

abbrev sqlite_outside : Outside
sqlite_outside = record {
  python = python;
  crypto = crypto;
  dumps = dumps;
  loads = loads;
  select_ids = λ table. keys table;
  nonce_at = λ n. n ∷ 0 ∷ 0 ∷ 0 ∷ 0 ∷ 0 ∷ 0 ∷ 0 ∷ 0 ∷ 0 ∷ 0 ∷ 0 ∷ [];
  time_at = λ n. n;
  loads_dumps = λ tokens. loads-dumps _;
  nonce_size = λ n. refl;
  selected = λ table k. refl;
}

abbrev tokens : OauthTokens
tokens = record {
  access_token = "at";
  refresh_token = none;
  expires_at = 50;
  token_type = str "Bearer";
  scope = null;
}

abbrev calls : List Call
calls = save "s" tokens ∷ find "s" ∷ find "t" ∷ sessions ∷ delete "s" ∷ find "s" ∷ []

run-sqlite_store_example :
    run (sqlite_store sqlite_outside (7 ∷ [])) (record { db = some []; writes = 0 }) calls
    ≡ run memory_store [] calls
run-sqlite_store_example = run-sqlite_store sqlite_outside (7 ∷ []) 0 calls refl

run_test :
    run memory_store [] calls
    ≡ ok (found (some tokens) ∷ found none ∷ listed (λ k. elem k ("s" ∷ [])) ∷ found none ∷ [])
unfolding run get set remove ◌>>=◌
run_test = refl
