-- ===== src/Auth/Encryption.antt =====
-- The encryption of the token store, auth/encryption.py. AES-GCM, HKDF and UTF-8 are the functions
-- of `Crypto`, with their documented laws; the random nonce is an argument.
use specmcp.Prelude.{
  ◌+◌, String, ◌≡◌, false, Option, none, some, ◌++◌, length, length-append, ltb, if◌then◌else◌,
  arith,
}
use specmcp.Auth.State.{Bytes, take, drop}
use specmcp.Auth.State.Signed.{take-append, drop-append}

pub record Crypto : Type 0 where
  -- HKDF with SHA256, 32 bytes, no salt and the context as info
  pub hkdf : Bytes → String → Bytes
  -- AESGCM(key).encrypt(nonce, plaintext, None), the tag at its end
  pub seal : Bytes → Bytes → Bytes → Bytes
  -- AESGCM(key).decrypt(nonce, body, None); `none` is InvalidTag
  pub unseal : Bytes → Bytes → Bytes → Option Bytes
  pub utf8 : String → Bytes
  pub from_utf8 : Bytes → Option String
  pub unseal_seal : (key nonce text : Bytes) → unseal key nonce (seal key nonce text) ≡ some text
  pub length_seal : (key nonce text : Bytes) → length (seal key nonce text) ≡ length text + 16
  pub from_utf8_utf8 : (text : String) → from_utf8 (utf8 text) ≡ some text

module _ (crypto : Crypto) where
  unfoldable pub derive_key : Bytes → String → Bytes
  derive_key master_key context = crypto.hkdf master_key context

  -- The first argument is os.urandom(12).
  unfoldable pub encrypt : Bytes → String → Bytes → Bytes
  encrypt nonce plaintext key = nonce ++ crypto.seal key nonce (crypto.utf8 plaintext)

  abbrev decoded : Option Bytes → Option String
  decoded none = none
  decoded (some bytes) = crypto.from_utf8 bytes

  -- `none` is ValueError.
  unfoldable pub decrypt : Bytes → Bytes → Option String
  unfolding take drop
  decrypt ciphertext key =
      if ltb (length ciphertext) 28
      then none
      else decoded (crypto.unseal key (take 12 ciphertext) (drop 12 ciphertext))

  -- What was encrypted under a nonce of 12 bytes is decrypted with the same key, whatever the text.
  pub decrypt-encrypt :
      (nonce key : Bytes) (plaintext : String)
      → length nonce ≡ 12
      → decrypt (encrypt nonce plaintext key) key ≡ some plaintext
  unfolding decrypt encrypt
  decrypt-encrypt nonce key plaintext h =
      let body = crypto.seal key nonce (crypto.utf8 plaintext) in
      let long : ltb (length (nonce ++ body)) 28 ≡ false =
        ground
          (arith, length-append nonce body, crypto.length_seal key nonce (crypto.utf8 plaintext)) in
      rw
        (
          long,
          take-append 12 nonce body h,
          drop-append 12 nonce body h,
          crypto.unseal_seal key nonce (crypto.utf8 plaintext),
        )
        (crypto.from_utf8_utf8 plaintext)
