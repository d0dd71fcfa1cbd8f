-- ===== src/Auth/LoginNonce.antt =====
-- LoginNonceStore, auth/login_nonce.py. The random nonce is an argument; the lock makes each call one
-- step.
use specmcp.Prelude.{ℕ, String, Option}
use specmcp.Auth.TtlCache.{TtlCache}

module _ (cache : TtlCache String) where
  abbrev pub issue : ℕ → String → String → cache.State → cache.State
  issue now nonce session_id store = cache.insert now nonce session_id store

  abbrev pub consume : ℕ → String → cache.State → Option String × cache.State
  consume now nonce store = (cache.peek now store nonce, cache.pop now nonce store)
