-- ===== src/Auth/TtlCache.antt =====
-- cachetools.TTLCache, which the login nonces and the verifiers are kept in, as its documentation
-- describes it: an item is there until its time is over, or until another insertion makes it leave.
pub mod Table
use specmcp.Prelude.{ℕ, ◌+◌, ◌≤◌, ◌<◌, String, ◌≡◌, ◌≢◌, ◌⊎◌, Option, none, some}

pub record TtlCache (V : Type 0) : Type 1 where
  pub State : Type 0
  pub ttl : ℕ
  pub empty : State
  -- What a lookup at a time finds.
  pub peek : ℕ → State → String → Option V
  pub insert : ℕ → String → V → State → State
  pub pop : ℕ → String → State → State
  pub peek_empty : (now : ℕ) (k : String) → peek now empty k ≡ none
  -- An item does not come back.
  pub peek_earlier :
      (s : State) (k : String) (now later : ℕ) (v : V)
      → now ≤ later
      → peek later s k ≡ some v
      → peek now s k ≡ some v
  -- An item that was just inserted is there for its time.
  pub peek_inserted :
      (s : State) (k : String) (v : V) (now later : ℕ)
      → now ≤ later
      → later < now + ttl
      → peek later (insert now k v s) k ≡ some v
  -- Nothing else comes in, and the old item of the key is gone.
  pub peek_insert :
      (s : State) (k j : String) (v w : V) (now later : ℕ)
      → now ≤ later
      → peek later (insert now k v s) j ≡ some w
      → ((k ≡ j) × (w ≡ v)) ⊎ ((k ≢ j) × (peek later s j ≡ some w))
  pub peek_pop :
      (s : State) (k j : String) (w : V) (now later : ℕ)
      → now ≤ later
      → peek later (pop now k s) j ≡ some w
      → (k ≢ j) × (peek later s j ≡ some w)
