-- ===== src/Crypto/Kdf.antt =====
-- crypto/src/kdf.rs. Wiping of key material (`Zeroize`) has no counterpart: values are immutable.
use cmp.Base.{ℕ, zero, suc, [], ◌∷◌, take, drop}
use cmp.Base.Bytes.{Bytes, ascii}
use cmp.Crypto.Error.{Result, ok, kdf_failure, ok_or, ◌>>=◌}
use cmp.Crypto.Primitives.{Primitives}

abbrev pub hkdf_info_ratchet : Bytes
hkdf_info_ratchet = ascii "CMP_RATCHET"

abbrev pub hkdf_info_msg_key : Bytes
hkdf_info_msg_key = ascii "CMP_MsgKey"

abbrev pub hkdf_info_x3dh : Bytes
hkdf_info_x3dh = ascii "CMP_X3DH"

abbrev pub zeros : ℕ → Bytes
zeros zero = []
zeros (suc n) = 0 ∷ zeros n

pub record RootKeyOutput : Type 0 where
  pub root_key : Bytes
  pub chain_key : Bytes

pub record ChainKeyOutput : Type 0 where
  pub chain_key : Bytes
  pub message_key : Bytes

pub record MessageKeys : Type 0 where
  pub aes_key : Bytes
  pub nonce : Bytes

module _ (p : Primitives) where
  unfoldable pub hkdf_expand : Bytes → Bytes → Bytes → ℕ → Result Bytes
  hkdf_expand salt ikm info len = ok_or (p.hkdf_sha256 salt ikm info len) kdf_failure

  unfoldable pub kdf_rk : Bytes → Bytes → Result RootKeyOutput
  unfolding hkdf_expand
  kdf_rk root_key dh_output = do
    output ← hkdf_expand root_key dh_output hkdf_info_ratchet 64
    ok (record { root_key = take 32 output; chain_key = drop 32 output })

  unfoldable pub hmac : Bytes → Bytes → Result Bytes
  hmac key d = ok_or (p.hmac_sha256 key d) kdf_failure

  unfoldable pub kdf_ck : Bytes → Result ChainKeyOutput
  unfolding hmac
  kdf_ck chain_key = do
    message_key ← hmac chain_key (1 ∷ [])
    new_chain_key ← hmac chain_key (2 ∷ [])
    ok (record { chain_key = new_chain_key; message_key = message_key })

  unfoldable pub derive_message_keys : Bytes → Result MessageKeys
  unfolding hkdf_expand
  derive_message_keys message_key = do
    output ← hkdf_expand (zeros 32) message_key hkdf_info_msg_key 44
    ok (record { aes_key = take 32 output; nonce = take 12 (drop 32 output) })
