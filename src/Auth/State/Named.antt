-- ===== src/Auth/State/Named.antt =====
-- The session id of a state that was made.
use mathlib.Core.List.{append_assoc}
use specmcp.Prelude.{
  ℕ, ◌≤◌, ◌≡◌, refl, sym, ap, ap₂, ◌∙◌, some, ◌++◌, length, ltb, arith, Bool-cases, inl, inr,
  is_empty,
}
use specmcp.Auth.State.{Bytes, pack, unpack, take, drop, payload_of, mac, make_state, verify_state}
use specmcp.Auth.State.Signed.{unpack-pack, length-pack, take-append, drop-append, limit, token_of}
use specmcp.Auth.State.Authentic.{IsAuthentic, verify_state-IsAuthentic}

module _ (hmac : Bytes → Bytes) (sid : Bytes) (ts : ℕ) where
  by_length :
      token_of hmac sid ts
      ≡ pack 2 (length sid) ++ (sid ++ (pack 8 ts ++ mac hmac (payload_of sid ts)))
  unfolding token_of pack
  by_length =
      append_assoc (pack 2 (length sid)) (sid ++ pack 8 ts) (mac hmac (payload_of sid ts))
      ∙ ap (λ (l : Bytes). pack 2 (length sid) ++ l)
          (append_assoc sid (pack 8 ts) (mac hmac (payload_of sid ts)))

  length_field : length sid ≤ 65535 → unpack 0 (take 2 (token_of hmac sid ts)) ≡ length sid
  unfolding limit
  length_field h =
      ap (λ (l : Bytes). unpack 0 (take 2 l)) by_length
      ∙ ap (unpack 0) (take-append 2 (pack 2 (length sid)) _ (length-pack 2 (length sid)))
      ∙ unpack-pack 2 (length sid) (omega arith)

  id_field : take (length sid) (drop 2 (token_of hmac sid ts)) ≡ sid
  id_field =
      ap (λ (l : Bytes). take (length sid) (drop 2 l)) by_length
      ∙ ap (take (length sid)) (drop-append 2 (pack 2 (length sid)) _ (length-pack 2 (length sid)))
      ∙ take-append (length sid) sid _ refl

  made_short :
      (state : Bytes)
      → make_state hmac sid ts ≡ some state
      → (length sid ≤ 65535) × (state ≡ token_of hmac sid ts)
  unfolding make_state token_of
  made_short state h = elim (Bool-cases (is_empty sid)) [
    | inl none_given ↦ cc (rw none_given at h)
    | inr given ↦
        let h1 = rw given at h in
        elim (Bool-cases (ltb 65535 (length sid))) [
          | inl long ↦ cc (rw long at h1)
          | inr short ↦
              let same : some (token_of hmac sid ts) ≡ some state = rw short at h1 in
              (ground arith, cc)
        ]
  ]

  -- A state that was made for a session id is verified to no other id, whatever the times.
  pub verify_state-named :
      (state found : Bytes) (now ttl : ℕ)
      → make_state hmac sid ts ≡ some state
      → verify_state hmac state now ttl ≡ some found
      → found ≡ sid
  verify_state-named state found now ttl made h =
      let (short, same) = made_short state made in
      let a : IsAuthentic hmac state found now ttl =
        verify_state-IsAuthentic hmac state found now ttl h in
      let size : a.sid_len ≡ length sid =
        sym a.length_field ∙ ap (λ (l : Bytes). unpack 0 (take 2 l)) same ∙ length_field short in
      a.named ∙ ap₂ (λ (n : ℕ) (l : Bytes). take n (drop 2 l)) size same ∙ id_field
