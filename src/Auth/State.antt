-- ===== src/Auth/State.antt =====
-- The signed state of the OAuth flow, auth/state.py, on the bytes of the token: the base64 text
-- around it is left out, and so is the UTF-8 form of the session id. The HMAC is a function of the
-- payload, of which the first 16 bytes are taken.
pub mod Signed
pub mod Authentic
pub mod Named
use specmcp.Prelude.{
  ℕ, zero, suc, ◌+◌, ◌-◌, ◌*◌, ◌/◌, ◌%◌, ◌^◌, Bool, true, false, not, ◌&&◌, ◌||◌, Option, none,
  some, List, [], ◌∷◌, ◌++◌, length, is_empty, ltb, eqb, if◌then◌else◌,
}

abbrev pub Bytes : Type 0
Bytes = List ℕ

-- A number in n bytes, the high ones first, as struct.pack does.
unfoldable pub pack : ℕ → ℕ → Bytes
pack zero v = []
pack (suc n) v = pack n (v / 256) ++ v % 256 ∷ []

unfoldable pub unpack : ℕ → Bytes → ℕ
unpack acc [] = acc
unpack acc (b ∷ bs) = unpack (acc * 256 + b) bs

-- bs[:n] and bs[n:]
unfoldable pub take : ℕ → Bytes → Bytes
take zero bs = []
take (suc n) [] = []
take (suc n) (b ∷ bs) = b ∷ take n bs

unfoldable pub drop : ℕ → Bytes → Bytes
drop zero bs = bs
drop (suc n) [] = []
drop (suc n) (b ∷ bs) = drop n bs

abbrev pub same_bytes : Bytes → Bytes → Bool
same_bytes [] [] = true
same_bytes (b ∷ bs) (c ∷ cs) = eqb b c && same_bytes bs cs
same_bytes _ _ = false

abbrev pub payload_of : Bytes → ℕ → Bytes
payload_of sid ts = pack 2 (length sid) ++ sid ++ pack 8 ts

module _ (hmac : Bytes → Bytes) where
  abbrev pub mac : Bytes → Bytes
  mac payload = take 16 (hmac payload)

  -- `none` is the ValueError of an empty or too long id.
  unfoldable pub make_state : Bytes → ℕ → Option Bytes
  unfolding pack take
  make_state sid ts =
      if is_empty sid
      then none
      else if ltb 65535 (length sid)
      then none
      else some (payload_of sid ts ++ mac (payload_of sid ts))

  -- The part after the two checks of the length; `sid_len` is what the token says.
  verify_parts : Bytes → ℕ → ℕ → ℕ → Option Bytes
  unfolding take drop unpack
  verify_parts raw sid_len now ttl =
      let payload_end = 2 + sid_len + 8 in
      let payload = take payload_end raw in
      let ts = unpack 0 (take 8 (drop (2 + sid_len) raw)) in
      if ltb (length raw) (payload_end + 16)
      then none
      else if not (same_bytes (mac payload) (take 16 (drop payload_end raw)))
      then none
      else if ltb now ts || ltb ttl (now - ts)
      then none
      else some (take sid_len (drop 2 raw))

  unfoldable pub verify_state : Bytes → ℕ → ℕ → Option Bytes
  unfolding verify_parts take unpack
  verify_state raw now ttl =
      if ltb (length raw) 27 then none else verify_parts raw (unpack 0 (take 2 raw)) now ttl
