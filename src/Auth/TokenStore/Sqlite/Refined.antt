-- ===== src/Auth/TokenStore/Sqlite/Refined.antt =====
-- The store in the database implements the same map as the store in memory.
use specmcp.Prelude.{
  is_some, ap, ◌∙◌, ◌+◌, ℕ, String, ◌≡◌, refl, Bool, true, false, ◌&&◌, Option, none, some, [], ◌∷◌,
  ◌==◌, if◌then◌else◌, Bool-cases, inl, inr,
}
use specmcp.Prelude.Dict.{
  get, set, remove, has, get-set, get-remove, all_entries, all_entries-set, all_entries-remove,
}
use specmcp.Prelude.Text.{is_nil}
use specmcp.Json.{object, to_dict-from_dict, get_or}
use specmcp.Errors.Result.{ok, ◌>>=◌}
use specmcp.Auth.State.{Bytes}
use specmcp.Auth.Encryption.{decrypt-encrypt}
use specmcp.Auth.Tokens.{Parsed, value, bad_value, bad_type, OauthTokens}
use specmcp.Auth.TokenStore.{IsMap, Changed, has_whole_refresh, is_whole}
use specmcp.Auth.TokenStore.Sqlite.{
  Row, Table, Outside, SqliteState, tokens_to_dict, tokens_from_json, tokens_from_dict, row_tokens,
  new_row, derived_key, read_row, or_none, refresh_json, stored_refresh, sqlite_get, sqlite_save,
  sqlite_delete, sqlite_all_sessions, sqlite_store,
}

and_both : (a b : Bool) → (a && b) ≡ true → (a ≡ true) × (b ≡ true)
and_both true b h = (refl, h)
and_both false b h = cc

module _ (outside : Outside) where
  stored_refresh-refresh_json :
      (r : Option String) → is_whole r ≡ true → stored_refresh outside (refresh_json r) ≡ r
  stored_refresh-refresh_json none h = refl
  stored_refresh-refresh_json (some r) h = elim (Bool-cases (is_nil r)) [
    | inl empty ↦ cc (rw empty at h)
    | inr whole ↦ rw whole (rw whole refl)
  ]

  tokens_from-to_dict :
      (tokens : OauthTokens)
      → has_whole_refresh tokens ≡ true
      → tokens_from_dict outside (tokens_to_dict outside.python tokens) ≡ value tokens
  unfolding tokens_from_dict tokens_to_dict get get_or
  tokens_from-to_dict tokens h = rw (outside.python.float_print tokens.expires_at) (
      ap (λ (r : Option String). value (record tokens { refresh_token = r }))
        (stored_refresh-refresh_json tokens.refresh_token h))

  module _ (encryption_key : Bytes) where
    new_row-holds :
        (n : ℕ) (tokens : OauthTokens)
        → has_whole_refresh tokens ≡ true
        → row_tokens outside encryption_key (new_row outside encryption_key n tokens) ≡ value tokens
    unfolding row_tokens tokens_from_json
    new_row-holds n tokens h =
        rw
          (decrypt-encrypt outside.crypto (outside.nonce_at n) (derived_key outside encryption_key)
            (outside.dumps (object (tokens_to_dict outside.python tokens))) (outside.nonce_size n))
          (rw (outside.loads_dumps tokens, tokens_from_json)
            (rw to_dict-from_dict (tokens_from-to_dict tokens h)))

    abbrev is_value : Parsed OauthTokens → Bool
    is_value (value v) = true
    is_value p = false

    abbrev held : Parsed OauthTokens → Option OauthTokens
    held (value tokens) = some tokens
    held p = none

    abbrev is_readable : String → Row → Bool
    is_readable k row = is_value (row_tokens outside encryption_key row)

    -- The store is open, and each of its rows can be read.
    pub record IsOpen (s : SqliteState) : Type 0 where
      pub table : Table
      pub open_db : s.db ≡ some table
      pub readable : all_entries is_readable table ≡ true

    abbrev row_view : Option Row → Option OauthTokens
    row_view none = none
    row_view (some row) = held (row_tokens outside encryption_key row)

    abbrev db_view : Option Table → String → Option OauthTokens
    db_view none k = none
    db_view (some table) k = row_view (get table k)

    abbrev pub sqlite_view : SqliteState → String → Option OauthTokens
    sqlite_view s k = db_view s.db k

    value_held :
        (p : Parsed OauthTokens)
        → is_value p ≡ true
        → (or_none outside encryption_key p ≡ ok (held p)) × (true ≡ is_some (held p))
    value_held (value tokens) h = (refl, refl)
    value_held bad_value h = cc
    value_held bad_type h = cc

    get-readable :
        (table : Table) (k : String)
        → all_entries is_readable table ≡ true
        → (read_row outside encryption_key (get table k) ≡ ok (row_view (get table k)))
          × (has table k ≡ is_some (row_view (get table k)))
    unfolding get
    get-readable [] k h = (refl, refl)
    get-readable ((j, row) ∷ table) k h =
        let (first, rest) = and_both _ _ h in
        elim (Bool-cases (j == k)) [
          | inl here ↦ rw here (value_held (row_tokens outside encryption_key row) first)
          | inr later ↦ rw later (get-readable table k rest)
        ]

    view-set :
        (table : Table) (k j : String) (n : ℕ) (tokens : OauthTokens)
        → has_whole_refresh tokens ≡ true
        → row_view (get (set table k (new_row outside encryption_key n tokens)) j)
          ≡ (if k == j then some tokens else row_view (get table j))
    view-set table k j n tokens h = rw get-set (elim (Bool-cases (k == j)) [
      | inl same ↦ rw same (ap held (new_row-holds n tokens h))
      | inr differ ↦ rw differ refl
    ])

    view-remove :
        (table : Table) (k j : String)
        → row_view (get (remove table k) j) ≡ (if k == j then none else row_view (get table j))
    view-remove table k j =
        rw get-remove
          (elim (Bool-cases (k == j)) [ inl same ↦ rw same refl | inr differ ↦ rw differ refl ])

    save-Changed :
        (s : SqliteState) (k : String) (tokens : OauthTokens)
        → IsOpen s
        → has_whole_refresh tokens ≡ true
        → Changed IsOpen sqlite_view
            (sqlite_save outside encryption_key s k tokens)
            s
            k
            (some tokens)
    unfolding sqlite_save ◌>>=◌
    save-Changed s k tokens o h =
        let row = new_row outside encryption_key s.writes tokens in
        (
          record { db = some (set o.table k row); writes = s.writes + 1 },
          rw o.open_db refl,
          record {
            table = set o.table k row;
            open_db = refl;
            readable =
                all_entries-set is_readable o.table k row
                  (ap is_value (new_row-holds s.writes tokens h)) o.readable;
          },
          λ j. rw o.open_db (view-set o.table k j s.writes tokens h),
        )

    delete-Changed :
        (s : SqliteState) (k : String)
        → IsOpen s
        → Changed IsOpen sqlite_view (sqlite_delete outside encryption_key s k) s k none
    unfolding sqlite_delete ◌>>=◌
    delete-Changed s k o = (
      record s { db = some (remove o.table k) },
      rw o.open_db refl,
      record {
        table = remove o.table k;
        open_db = refl;
        readable = all_entries-remove is_readable o.table k o.readable;
      },
      λ j. rw o.open_db (view-remove o.table k j),
    )

    -- While it is open and its rows can be read, the store in the database is a map from session ids
    -- to tokens, as the store in memory is: what is saved is encrypted, decrypted and got back until
    -- it is deleted, other sessions are left alone, and the sessions listed are those that have
    -- tokens. Tokens with an empty refresh token are left out.
    pub sqlite_store-IsMap : IsMap (sqlite_store outside encryption_key) IsOpen sqlite_view
    unfolding sqlite_get sqlite_all_sessions ◌>>=◌
    sqlite_store-IsMap = record {
      get_view = λ s k o. rw o.open_db ((get-readable o.table k o.readable).0);
      save_view = save-Changed;
      delete_view = delete-Changed;
      sessions_view = λ s o. (
        outside.select_ids o.table,
        rw o.open_db refl,
        λ k. outside.selected o.table k ∙ rw o.open_db ((get-readable o.table k o.readable).1),
      );
    }
