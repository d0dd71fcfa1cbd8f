-- ===== src/Auth/State/Signed.antt =====
-- A state that was made is verified, within its time.

use specmcp.Prelude.{
  ℕ, zero, suc, ◌+◌, ◌-◌, ◌*◌, ◌/◌, ◌%◌, ◌^◌, ◌≤◌, ◌<◌, ◌≡◌, refl, sym, ap, ap₂, ◌∙◌, true, false,
  ◌||◌, some, [], ◌∷◌, ◌++◌, length, length-append, ltb, eqb, arith, Bool-cases, inl, inr,
}
use mathlib.Core.List.{append_assoc}
use specmcp.Auth.State.{
  Bytes, pack, unpack, take, drop, same_bytes, payload_of, mac, make_state, verify_parts,
  verify_state,
}

unpack-append : (acc : ℕ) (bs cs : Bytes) → unpack acc (bs ++ cs) ≡ unpack (unpack acc bs) cs
unfolding unpack
unpack-append acc [] cs = refl
unpack-append acc (b ∷ bs) cs = unpack-append (acc * 256 + b) bs cs

-- 256 to the power of n
unfoldable pub limit : ℕ → ℕ
limit zero = 1
limit (suc n) = limit n * 256

pub unpack-pack : (n v : ℕ) → v < limit n → unpack 0 (pack n v) ≡ v
unfolding pack unpack limit
unpack-pack zero v h = omega arith
unpack-pack (suc n) v h =
    unpack-append 0 (pack n (v / 256)) (v % 256 ∷ [])
    ∙ ap (λ (m : ℕ). m * 256 + v % 256) (unpack-pack n (v / 256) (omega arith))
    ∙ omega arith

pub length-pack : (n v : ℕ) → length (pack n v) ≡ n
unfolding pack
length-pack zero v = refl
length-pack (suc n) v =
    length-append (pack n (v / 256)) (v % 256 ∷ []) ∙ omega (arith, length-pack n (v / 256))

pub take-append : (n : ℕ) (bs cs : Bytes) → length bs ≡ n → take n (bs ++ cs) ≡ bs
unfolding take
take-append zero [] cs h = refl
take-append zero (b ∷ bs) cs h = absurd (omega arith)
take-append (suc n) [] cs h = absurd (omega arith)
take-append (suc n) (b ∷ bs) cs h = ap (λ (l : Bytes). b ∷ l) (take-append n bs cs (omega arith))

pub drop-append : (n : ℕ) (bs cs : Bytes) → length bs ≡ n → drop n (bs ++ cs) ≡ cs
unfolding drop
drop-append zero [] cs h = refl
drop-append zero (b ∷ bs) cs h = absurd (omega arith)
drop-append (suc n) [] cs h = absurd (omega arith)
drop-append (suc n) (b ∷ bs) cs h = drop-append n bs cs (omega arith)

take-all : (n : ℕ) (bs : Bytes) → length bs ≡ n → take n bs ≡ bs
unfolding take
take-all zero [] h = refl
take-all zero (b ∷ bs) h = absurd (omega arith)
take-all (suc n) [] h = absurd (omega arith)
take-all (suc n) (b ∷ bs) h = ap (λ (l : Bytes). b ∷ l) (take-all n bs (omega arith))

length-take : (n : ℕ) (bs : Bytes) → n ≤ length bs → length (take n bs) ≡ n
unfolding take
length-take zero bs h = refl
length-take (suc n) [] h = absurd (omega arith)
length-take (suc n) (b ∷ bs) h = ap suc (length-take n bs (omega arith))

same_bytes_refl : (bs : Bytes) → same_bytes bs bs ≡ true
same_bytes_refl [] = refl
same_bytes_refl (b ∷ bs) = ground (arith, same_bytes_refl bs)

pub same_bytes→eq : (bs cs : Bytes) → same_bytes bs cs ≡ true → bs ≡ cs
same_bytes→eq [] [] h = refl
same_bytes→eq [] (c ∷ cs) h = cc
same_bytes→eq (b ∷ bs) [] h = cc
same_bytes→eq (b ∷ bs) (c ∷ cs) h =
    let first : eqb b c ≡ true = ground arith in
    let rest : same_bytes bs cs ≡ true = ground arith in
    ap₂ (λ (x : ℕ) (l : Bytes). x ∷ l) (ground arith) (same_bytes→eq bs cs rest)

module _ (hmac : Bytes → Bytes) where
  -- What the verification reads of the bytes of a state.
  record IsToken (raw sid payload signature : Bytes) (ts : ℕ) : Type 0 where
    size : length raw ≡ 2 + length sid + 8 + 16
    length_field : unpack 0 (take 2 raw) ≡ length sid
    payload_field : take (2 + length sid + 8) raw ≡ payload
    mac_field : take 16 (drop (2 + length sid + 8) raw) ≡ signature
    time_field : unpack 0 (take 8 (drop (2 + length sid) raw)) ≡ ts
    id_field : take (length sid) (drop 2 raw) ≡ sid

  verify-IsToken :
      (raw sid payload : Bytes) (ts now ttl : ℕ)
      → IsToken raw sid payload (mac hmac payload) ts
      → 0 < length sid
      → ts ≤ now
      → now ≤ ts + ttl
      → verify_state hmac raw now ttl ≡ some sid
  unfolding verify_state verify_parts
  verify-IsToken raw sid payload ts now ttl t some_id early late =
      let long : ltb (length raw) 27 ≡ false = ground (arith, t.size) in
      let enough : ltb (length raw) (2 + length sid + 8 + 16) ≡ false = ground (arith, t.size) in
      let timely : (ltb now ts || ltb ttl (now - ts)) ≡ false = ground arith in
      rw (long, verify_state)
        (rw (t.length_field, verify_parts)
          (rw
            (
              enough,
              t.payload_field,
              t.mac_field,
              same_bytes_refl (mac hmac payload),
              t.time_field,
              timely,
              t.id_field,
            )
            refl))

  unfoldable pub token_of : (sid : Bytes) (ts : ℕ) → Bytes
  token_of sid ts = payload_of sid ts ++ mac hmac (payload_of sid ts)

  token_of-IsToken :
      (sid : Bytes) (ts : ℕ)
      → 16 ≤ length (hmac (payload_of sid ts))
      → length sid ≤ 65535
      → ts < 2 ^ 64
      → IsToken (token_of sid ts) sid (payload_of sid ts) (mac hmac (payload_of sid ts)) ts
  unfolding token_of limit pack
  token_of-IsToken sid ts wide short early =
      let head = pack 2 (length sid) in
      let time = pack 8 ts in
      let payload = payload_of sid ts in
      let signature = mac hmac payload in
      let head_size : length head ≡ 2 = length-pack 2 (length sid) in
      let time_size : length time ≡ 8 = length-pack 8 ts in
      let signature_size : length signature ≡ 16 = length-take 16 (hmac payload) wide in
      let payload_size : length payload ≡ 2 + length sid + 8 =
        length-append head (sid ++ time)
        ∙ omega (arith, length-append sid time, head_size, time_size) in
      let by_head : token_of sid ts ≡ head ++ (sid ++ (time ++ signature)) =
        append_assoc head (sid ++ time) signature
        ∙ ap (λ (l : Bytes). head ++ l) (append_assoc sid time signature) in
      let by_time : token_of sid ts ≡ (head ++ sid) ++ (time ++ signature) =
        by_head ∙ sym (append_assoc head sid (time ++ signature)) in
      let front_size : length (head ++ sid) ≡ 2 + length sid =
        length-append head sid ∙ omega (arith, head_size) in
      record {
        size = length-append payload signature ∙ omega (arith, payload_size, signature_size);
        length_field =
            ap (λ (l : Bytes). unpack 0 (take 2 l)) by_head
            ∙ ap (unpack 0) (take-append 2 head _ head_size)
            ∙ unpack-pack 2 (length sid) (omega arith);
        payload_field = take-append (2 + length sid + 8) payload signature payload_size;
        mac_field =
            ap (take 16) (drop-append (2 + length sid + 8) payload signature payload_size)
            ∙ take-all 16 signature signature_size;
        time_field =
            ap (λ (l : Bytes). unpack 0 (take 8 (drop (2 + length sid) l))) by_time
            ∙ ap (λ (l : Bytes). unpack 0 (take 8 l))
                (drop-append (2 + length sid) (head ++ sid) _ front_size)
            ∙ ap (unpack 0) (take-append 8 time signature time_size)
            ∙ unpack-pack 8 ts (omega arith);
        id_field =
            ap (λ (l : Bytes). take (length sid) (drop 2 l)) by_head
            ∙ ap (take (length sid)) (drop-append 2 head _ head_size)
            ∙ take-append (length sid) sid _ refl;
      }

-- A state that was made for a session id is verified to that id, until its time is over: the id is
-- not empty and at most 65535 bytes long, the time fits eight bytes, and the HMAC has at least 16
-- bytes.
pub verify_state-make_state :
    (hmac : Bytes → Bytes) (sid : Bytes) (ts now ttl : ℕ) (state : Bytes)
    → 16 ≤ length (hmac (payload_of sid ts))
    → ts < 2 ^ 64
    → make_state hmac sid ts ≡ some state
    → ts ≤ now
    → now ≤ ts + ttl
    → verify_state hmac state now ttl ≡ some sid
unfolding make_state token_of
verify_state-make_state hmac [] ts now ttl state wide fits made early late = cc
verify_state-make_state hmac (b ∷ sid) ts now ttl state wide fits made early late =
    elim (Bool-cases (ltb 65535 (length (b ∷ sid)))) [
      | inl long ↦ cc (rw long at made)
      | inr short ↦
          let same : some (token_of hmac (b ∷ sid) ts) ≡ some state = rw short at made in
          let e : token_of hmac (b ∷ sid) ts ≡ state = cc in
          rw⁻¹ e (
            verify-IsToken hmac (token_of hmac (b ∷ sid) ts) (b ∷ sid) (payload_of (b ∷ sid) ts) ts
              now ttl (token_of-IsToken hmac (b ∷ sid) ts wide (ground arith) fits) (omega arith)
              early late)
    ]
