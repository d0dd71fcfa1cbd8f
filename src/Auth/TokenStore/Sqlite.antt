-- ===== src/Auth/TokenStore/Sqlite.antt =====
-- SqliteTokenStore. The table has the session id as its key, so that it is a dictionary of rows; the
-- order in which SELECT lists its rows, json and the random nonces and times of the writes are
-- parameters. The lock makes each call one step.
pub mod Refined
use specmcp.Prelude.{
  ℕ, ◌+◌, String, ◌≡◌, refl, Bool, true, false, Option, none, some, List, elem, [], ◌∷◌, length,
  suc, if◌then◌else◌,
}
use specmcp.Prelude.Dict.{Dict, get, set, remove, has}
use specmcp.Prelude.Text.{is_nil}
use specmcp.Json.{Json, null, num, str, obj, object, to_dict, truthy, get_or}
use specmcp.Errors.Result.{Result, ok, err, ◌>>=◌, python_error}
use specmcp.Dispatch.Serialize.{py_str}
use specmcp.Auth.State.{Bytes}
use specmcp.Auth.Encryption.{Crypto, derive_key, encrypt, decrypt}
use specmcp.Auth.Tokens.{Parsed, value, bad_value, bad_type, Python, OauthTokens}
use specmcp.Auth.TokenStore.{TokenStore}

pub record Row : Type 0 where
  pub encrypted_blob : Bytes
  pub updated_at : ℕ

abbrev pub Table : Type 0
Table = Dict Row

abbrev refresh_json : Option String → Json
refresh_json none = null
refresh_json (some r) = if is_nil r then null else str r

-- The dictionary that _tokens_to_json dumps.
unfoldable pub tokens_to_dict : Python → OauthTokens → Dict Json
tokens_to_dict py tokens =
    ("access_token", str tokens.access_token)
    ∷ ("refresh_token", refresh_json tokens.refresh_token)
    ∷ ("expires_at", num (py.print tokens.expires_at))
    ∷ ("token_type", tokens.token_type)
    ∷ ("scope", tokens.scope)
    ∷ []

-- What the store calls.
pub record Outside : Type 0 where
  pub python : Python
  pub crypto : Crypto
  pub dumps : Json → String
  -- `none` is JSONDecodeError
  pub loads : String → Option Json
  pub select_ids : Table → List String
  -- The nonce and the time of each write.
  pub nonce_at : ℕ → Bytes
  pub time_at : ℕ → ℕ
  pub loads_dumps :
      (tokens : OauthTokens)
      → loads (dumps (object (tokens_to_dict python tokens)))
        ≡ some (object (tokens_to_dict python tokens))
  pub nonce_size : (n : ℕ) → length (nonce_at n) ≡ 12
  pub selected : (table : Table) (k : String) → elem k (select_ids table) ≡ has table k

-- `_db`, with the number of writes so far.
pub record SqliteState : Type 0 where
  pub db : Option Table
  pub writes : ℕ

abbrev or_bad : Option Json → Parsed Json
or_bad none = bad_value
or_bad (some v) = value v

abbrev then_parse {ℓ} : {A B : Type ℓ} → Parsed A → (A → Parsed B) → Parsed B
then_parse (value v) f = f v
then_parse bad_value f = bad_value
then_parse bad_type f = bad_type

module _ (outside : Outside) where
  abbrev sensitive : Json → String
  sensitive v = py_str outside.python.nested_text v

  abbrev stored_refresh : Json → Option String
  stored_refresh v = if truthy v then some (sensitive v) else none

  -- The part of _tokens_from_json after json.loads, on a dictionary.
  tokens_from_dict : Dict Json → Parsed OauthTokens
  unfolding get get_or
  tokens_from_dict body = then_parse (or_bad (get body "access_token")) λ access.
      then_parse (or_bad (get body "expires_at")) λ expires.
        then_parse (outside.python.float expires) λ expires_at. value (record {
          access_token = sensitive access;
          refresh_token = stored_refresh (get_or body "refresh_token" null);
          expires_at = expires_at;
          token_type = get_or body "token_type" (str "Bearer");
          scope = get_or body "scope" (str "");
        })

  unfoldable pub tokens_from_json : String → Parsed OauthTokens
  unfolding tokens_from_dict
  tokens_from_json raw = elim (outside.loads raw) [
    | none ↦ bad_value
    | some v ↦ elim v [ obj fs ↦ tokens_from_dict (to_dict fs) | other ↦ bad_type ]
  ]

  module _ (encryption_key : Bytes) where
    abbrev derived_key : Bytes
    derived_key = derive_key outside.crypto encryption_key "token_store_v1"

    abbrev parsed : Option String → Parsed OauthTokens
    parsed none = bad_value
    parsed (some raw) = tokens_from_json raw

    unfoldable pub row_tokens : Row → Parsed OauthTokens
    unfolding tokens_from_json decrypt derive_key
    row_tokens row = parsed (decrypt outside.crypto row.encrypted_blob derived_key)

    -- ValueError, KeyError and JSONDecodeError are caught.
    abbrev or_none : Parsed OauthTokens → Result (Option OauthTokens)
    or_none (value tokens) = ok (some tokens)
    or_none bad_value = ok none
    or_none bad_type = err python_error

    abbrev read_row : Option Row → Result (Option OauthTokens)
    read_row none = ok none
    read_row (some row) = or_none (row_tokens row)

    -- `RuntimeError("SqliteTokenStore not open")`
    abbrev table_of : SqliteState → Result Table
    table_of s = elim s.db [ none ↦ err python_error | some table ↦ ok table ]

    abbrev new_row : ℕ → OauthTokens → Row
    new_row n tokens = record {
      encrypted_blob =
          encrypt outside.crypto (outside.nonce_at n)
            (outside.dumps (object (tokens_to_dict outside.python tokens))) derived_key;
      updated_at = outside.time_at n;
    }

    unfoldable pub sqlite_get : SqliteState → String → Result (Option OauthTokens)
    unfolding ◌>>=◌ get row_tokens
    sqlite_get s session_id = table_of s >>= λ table. read_row (get table session_id)

    -- INSERT … ON CONFLICT(session_id) DO UPDATE
    unfoldable pub sqlite_save : SqliteState → String → OauthTokens → Result SqliteState
    unfolding ◌>>=◌ set encrypt tokens_to_dict derive_key
    sqlite_save s session_id tokens = table_of s >>= λ table. ok (record {
      db = some (set table session_id (new_row s.writes tokens));
      writes = s.writes + 1;
    })

    unfoldable pub sqlite_delete : SqliteState → String → Result SqliteState
    unfolding ◌>>=◌ remove
    sqlite_delete s session_id =
        table_of s >>= λ table. ok (record s { db = some (remove table session_id) })

    unfoldable pub sqlite_all_sessions : SqliteState → Result (List String)
    unfolding ◌>>=◌
    sqlite_all_sessions s = table_of s >>= λ table. ok (outside.select_ids table)

    abbrev pub sqlite_store : TokenStore
    sqlite_store = record {
      State = SqliteState;
      get = sqlite_get;
      save = sqlite_save;
      delete = sqlite_delete;
      all_sessions = sqlite_all_sessions;
    }

-- `open` connects to the file, whose table is the argument, and `close` lets go of it.
unfoldable pub open_store : Table → SqliteState → SqliteState
open_store file s = record s { db = some file }

unfoldable pub close_store : SqliteState → SqliteState
close_store s = record s { db = none }
