-- ===== src/Auth/TokenCache.antt =====
-- The cache of an access token, auth/token_cache.py. A time is a natural number of a fixed unit, of
-- which a second has `second`. The lock makes a call one step.
use specmcp.Prelude.{
  ℕ, ◌+◌, ◌<◌, String, ◌≡◌, refl, Bool, false, Option, none, some, leb, if◌then◌else◌, arith,
}
use specmcp.Errors.Result.{Result, ok, err}

pub record CachedToken : Type 0 where
  pub access_token : String
  pub expires_at : ℕ

-- `now >= expires_at - buffer_seconds`
abbrev pub is_expired : ℕ → ℕ → CachedToken → Bool
is_expired buffer now t = leb t.expires_at (now + buffer)

-- `_token`
abbrev pub TokenCache : Type 0
TokenCache = Option CachedToken

abbrev refreshed : Result CachedToken → TokenCache → TokenCache × Result String
refreshed (ok t) cache = (some t, ok t.access_token)
refreshed (err e) cache = (cache, err e)

-- The cache and the token, where `fetched` is what `refresh_fn` would give.
unfoldable pub get_or_refresh : ℕ → ℕ → Result CachedToken → TokenCache → TokenCache × Result String
get_or_refresh buffer now fetched none = refreshed fetched none
get_or_refresh buffer now fetched (some t) =
    if is_expired buffer now t then refreshed fetched (some t) else (some t, ok t.access_token)

abbrev pub invalidate : TokenCache → TokenCache
invalidate cache = none

-- What is fetched is used exactly if there is no token, or one that expires within the buffer; and a
-- token that is returned is the cached one from then on.
pub get_or_refresh_lem :
    (buffer now : ℕ) (fetched other : Result CachedToken) (t : CachedToken)
    → now + buffer < t.expires_at
    → (get_or_refresh buffer now fetched (some t) ≡ (some t, ok t.access_token))
      × (get_or_refresh buffer now other (get_or_refresh buffer now fetched (some t)).0
          ≡ (some t, ok t.access_token))
unfolding get_or_refresh
get_or_refresh_lem buffer now fetched other t h =
    let fresh : is_expired buffer now t ≡ false = ground arith in
    (rw fresh refl, rw fresh (rw fresh refl))
