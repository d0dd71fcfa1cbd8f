-- ===== src/Auth/State/Authentic.antt =====
-- What a state that is accepted looks like.
use specmcp.Prelude.{
  refl, ℕ, ◌+◌, ◌-◌, ◌≤◌, ◌≡◌, ◌||◌, some, length, ltb, arith, Bool-cases, inl, inr,
}
use specmcp.Auth.State.{Bytes, unpack, take, drop, same_bytes, mac, verify_parts, verify_state}
use specmcp.Auth.State.Signed.{same_bytes→eq}

-- A state that is accepted has the length it says, a valid signature, and a time that is not over.
pub record IsAuthentic (hmac : Bytes → Bytes) (raw sid : Bytes) (now ttl : ℕ) : Type 0 where
  pub sid_len : ℕ
  pub length_field : unpack 0 (take 2 raw) ≡ sid_len
  pub signed : mac hmac (take (2 + sid_len + 8) raw) ≡ take 16 (drop (2 + sid_len + 8) raw)
  pub whole : 2 + sid_len + 8 + 16 ≤ length raw
  pub named : sid ≡ take sid_len (drop 2 raw)
  pub not_before : unpack 0 (take 8 (drop (2 + sid_len) raw)) ≤ now
  pub not_after : now ≤ unpack 0 (take 8 (drop (2 + sid_len) raw)) + ttl

parts-IsAuthentic :
    (hmac : Bytes → Bytes) (raw sid : Bytes) (n now ttl : ℕ)
    → unpack 0 (take 2 raw) ≡ n
    → verify_parts hmac raw n now ttl ≡ some sid
    → IsAuthentic hmac raw sid now ttl
unfolding verify_parts
parts-IsAuthentic hmac raw sid n now ttl size h =
    let ts = unpack 0 (take 8 (drop (2 + n) raw)) in
    let same = same_bytes (mac hmac (take (2 + n + 8) raw)) (take 16 (drop (2 + n + 8) raw)) in
    elim (Bool-cases (ltb (length raw) (2 + n + 8 + 16))) [
      | inl short ↦ cc (rw (short, verify_parts) at h)
      | inr long ↦
          let h1 = rw (long, verify_parts) at h in
          elim (Bool-cases same) [
            | inr forged ↦ cc (rw forged at h1)
            | inl valid ↦
                let h2 = rw valid at h1 in
                elim (Bool-cases (ltb now ts || ltb ttl (now - ts))) [
                  | inl over ↦ cc (rw over at h2)
                  | inr timely ↦
                      let found : some (take n (drop 2 raw)) ≡ some sid = rw timely at h2 in
                      record {
                        sid_len = n;
                        length_field = size;
                        signed = same_bytes→eq _ _ valid;
                        whole = ground arith;
                        named = cc;
                        not_before = ground arith;
                        not_after = ground arith;
                      }
                ]
          ]
    ]

-- Whatever the bytes, a state that is verified carries the signature of its payload, is long enough
-- for the length that its first two bytes say, names the session id that is returned, and is neither from the future
-- nor too old.
pub verify_state-IsAuthentic :
    (hmac : Bytes → Bytes) (raw sid : Bytes) (now ttl : ℕ)
    → verify_state hmac raw now ttl ≡ some sid
    → IsAuthentic hmac raw sid now ttl
unfolding verify_state
verify_state-IsAuthentic hmac raw sid now ttl h = elim (Bool-cases (ltb (length raw) 27)) [
  | inl short ↦ cc (rw (short, verify_state) at h)
  | inr long ↦
      parts-IsAuthentic hmac raw sid (unpack 0 (take 2 raw)) now ttl refl
        (rw (long, verify_state) at h)
]
