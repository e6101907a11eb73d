-- ===== src/Crypto/Aead.antt =====
-- crypto/src/aead.rs.
use cmp.Base.{◌≡◌, arith}
use cmp.Base.Bytes.{Bytes}
use cmp.Crypto.Error.{Result, ok, encryption_failed, decryption_failed, ok_or, ◌>>=◌}
use cmp.Crypto.Primitives.{Primitives, AesCorrect}
use cmp.Crypto.Kdf.{derive_message_keys}

module _ (p : Primitives) where
  -- The cipher and the nonce of a message key.
  unfoldable pub prepare_cipher : Bytes → Result (Bytes × Bytes)
  prepare_cipher message_key = do
    keys ← derive_message_keys p message_key
    cipher ← ok_or (p.aes_new keys.aes_key) encryption_failed
    ok (cipher, keys.nonce)

  unfoldable pub encrypt : Bytes → Bytes → Bytes → Result Bytes
  unfolding prepare_cipher
  encrypt message_key plaintext aad = do
    c ← prepare_cipher message_key
    ok_or (p.aes_encrypt c.0 c.1 plaintext aad) encryption_failed

  unfoldable pub decrypt : Bytes → Bytes → Bytes → Result Bytes
  unfolding prepare_cipher
  decrypt message_key ciphertext aad = do
    c ← prepare_cipher message_key
    ok_or (p.aes_decrypt c.0 c.1 ciphertext aad) decryption_failed

  -- What was encrypted under a message key decrypts under it, with the same associated data.
  pub decrypt-encrypt :
      AesCorrect p
      → (key plaintext aad c : Bytes) → encrypt key plaintext aad ≡ ok c
      → decrypt key c aad ≡ ok plaintext
  unfolding encrypt decrypt
  decrypt-encrypt correct key plaintext aad c h = grind (arith, correct)
