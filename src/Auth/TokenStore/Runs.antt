-- ===== src/Auth/TokenStore/Runs.antt =====
-- Sequences of calls of a token store.
use mathlib.Core.Path.{fun_ext}
use specmcp.Prelude.{
  elem, is_some, ℕ, String, ◌≡◌, refl, sym, ap, ◌∙◌, Bool, true, false, ◌&&◌, Option, none, some,
  List, [], ◌∷◌, ◌==◌, if◌then◌else◌,
}
use specmcp.Prelude.Dict.{get}
use specmcp.Errors.Result.{Result, ok, ◌>>=◌}
use specmcp.Auth.State.{Bytes}
use specmcp.Auth.Tokens.{OauthTokens}
use specmcp.Auth.TokenStore.{TokenStore, IsMap, has_whole_refresh}
use specmcp.Auth.TokenStore.Memory.{memory_store, memory_store-IsMap}
use specmcp.Auth.TokenStore.Sqlite.{Outside, sqlite_store, SqliteState}
use specmcp.Auth.TokenStore.Sqlite.Refined.{IsOpen, sqlite_view, sqlite_store-IsMap}

pub data Call : Type 0 where
  find : String → Call
  save : String → OauthTokens → Call
  delete : String → Call
  sessions : Call

-- The answer to a lookup, and to `all_sessions` the set of the ids in its list: the order of a SELECT
-- is not fixed.
pub data Answer : Type 0 where
  found : Option OauthTokens → Answer
  listed : (String → Bool) → Answer

-- The answers to the lookups and listings among the calls.
unfoldable pub run : (S : TokenStore) → S.State → List Call → Result (List Answer)
run S s [] = ok []
run S s (find k ∷ calls) = S.get s k >>= λ o. run S s calls >>= λ os. ok (found o ∷ os)
run S s (sessions ∷ calls) =
    S.all_sessions s >>= λ ks. run S s calls >>= λ os. ok (listed (λ k. elem k ks) ∷ os)
run S s (save k tokens ∷ calls) = S.save s k tokens >>= λ after. run S after calls
run S s (delete k ∷ calls) = S.delete s k >>= λ after. run S after calls

-- What a map answers.
run_map : (String → Option OauthTokens) → List Call → List Answer
run_map m [] = []
run_map m (find k ∷ calls) = found (m k) ∷ run_map m calls
run_map m (sessions ∷ calls) = listed (λ k. is_some (m k)) ∷ run_map m calls
run_map m (save k tokens ∷ calls) = run_map (λ j. if k == j then some tokens else m j) calls
run_map m (delete k ∷ calls) = run_map (λ j. if k == j then none else m j) calls

-- No call saves an empty refresh token.
abbrev pub are_whole : List Call → Bool
are_whole [] = true
are_whole (save k tokens ∷ calls) = has_whole_refresh tokens && are_whole calls
are_whole (call ∷ calls) = are_whole calls

and_both : (a b : Bool) → (a && b) ≡ true → (a ≡ true) × (b ≡ true)
and_both true b h = (refl, h)
and_both false b h = cc

module _ (S : TokenStore) (IsReady : S.State → Type 0)
    (view : S.State → String → Option OauthTokens) (law : IsMap S IsReady view) where
  run-run_map :
      (s : S.State) (m : String → Option OauthTokens) (calls : List Call)
      → IsReady s
      → ((j : String) → view s j ≡ m j)
      → are_whole calls ≡ true
      → run S s calls ≡ ok (run_map m calls)
  unfolding run run_map ◌>>=◌
  run-run_map s m [] ready same h = refl
  run-run_map s m (find k ∷ calls) ready same h =
      rw (law.get_view s k ready, same k) (rw (run-run_map s m calls ready same h) refl)
  run-run_map s m (sessions ∷ calls) ready same h =
      let (ks, e, members) = law.sessions_view s ready in
      let sets : (λ k. elem k ks) ≡ (λ k. is_some (m k)) =
        fun_ext λ k. members k ∙ ap is_some (same k) in
      rw e
        (rw (run-run_map s m calls ready same h) (ap (λ f. ok (listed f ∷ run_map m calls)) sets))
  run-run_map s m (save k tokens ∷ calls) ready same h =
      let (whole, rest) = and_both _ _ h in
      let (after, saved, open_after, views) = law.save_view s k tokens ready whole in
      rw saved (
        run-run_map after (λ j. if k == j then some tokens else m j) calls open_after
          (λ j. views j ∙ ap (λ o. if k == j then some tokens else o) (same j)) rest)
  run-run_map s m (delete k ∷ calls) ready same h =
      let (after, deleted, open_after, views) = law.delete_view s k ready in
      rw deleted (
        run-run_map after (λ j. if k == j then none else m j) calls open_after
          (λ j. views j ∙ ap (λ o. if k == j then none else o) (same j)) h)

-- On the same sequence of lookups, saves, deletions and listings of the sessions, where no empty
-- refresh token is saved, the store in the database, opened on an empty table, gives the answers that
-- the store in memory gives, a list of sessions compared as a set.
pub run-sqlite_store :
    (outside : Outside) (encryption_key : Bytes) (writes : ℕ) (calls : List Call)
    → are_whole calls ≡ true
    → run (sqlite_store outside encryption_key) (record { db = some []; writes = writes }) calls
      ≡ run memory_store [] calls
unfolding get
run-sqlite_store outside encryption_key writes calls h =
    let empty : SqliteState = record { db = some []; writes = writes } in
    let opened : IsOpen outside encryption_key empty = record {
      table = [];
      open_db = refl;
      readable = refl;
    } in
    run-run_map (sqlite_store outside encryption_key) (IsOpen outside encryption_key)
      (sqlite_view outside encryption_key) (sqlite_store-IsMap outside encryption_key) empty
      (λ j. none) calls opened (λ j. refl) h
    ∙ sym (
        run-run_map memory_store (λ d. Unit) (λ d k. get d k) memory_store-IsMap [] (λ j. none)
          calls tt (λ j. refl) h)
