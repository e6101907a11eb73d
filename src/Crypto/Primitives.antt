-- ===== src/Crypto/Primitives.antt =====
-- The third-party crates that the crate `crypto` calls (hkdf, hmac, aes-gcm, x25519-dalek,
-- ed25519-dalek), as functions on byte strings, and what their documentation promises.
use cmp.Base.{ℕ, ◌≡◌, Bool, true, Option, some}
use cmp.Base.Bytes.{Bytes}

pub record Primitives : Type 0 where
  -- `Hkdf::<Sha256>::new(Some(salt), ikm).expand(info, out)` for an output of so many bytes.
  pub hkdf_sha256 : Bytes → Bytes → Bytes → ℕ → Option Bytes
  -- `Hmac::<Sha256>::new_from_slice(key)`, updated with the data and finalized.
  pub hmac_sha256 : Bytes → Bytes → Option Bytes
  -- `Aes256Gcm::new_from_slice(key)`: the cipher is represented by bytes.
  pub aes_new : Bytes → Option Bytes
  -- `cipher.encrypt(nonce, Payload { msg, aad })`, and `decrypt`: cipher, nonce, message, aad.
  pub aes_encrypt : Bytes → Bytes → Bytes → Bytes → Option Bytes
  pub aes_decrypt : Bytes → Bytes → Bytes → Bytes → Option Bytes
  -- `StaticSecret::diffie_hellman` and `PublicKey::from(&secret)`.
  pub diffie_hellman : Bytes → Bytes → Bytes
  pub x25519_public : Bytes → Bytes
  -- Ed25519: the public key of a seed, the scalar of a seed, signing and verifying, and the
  -- Montgomery form of a public key.
  pub ed25519_public : Bytes → Bytes
  pub ed25519_scalar : Bytes → Bytes
  pub ed25519_sign : Bytes → Bytes → Bytes
  pub ed25519_verify : Bytes → Bytes → Bytes → Bool
  pub to_montgomery : Bytes → Bytes

-- AES-GCM decrypts what it encrypted under the same cipher, nonce and associated data.
abbrev pub AesCorrect : Primitives → Type 0
AesCorrect p =
    (k n m aad c : Bytes) → p.aes_encrypt k n m aad ≡ some c → p.aes_decrypt k n c aad ≡ some m

-- Both ends of a Diffie-Hellman exchange compute the same value.
abbrev pub DhAgrees : Primitives → Type 0
DhAgrees p =
    (a b : Bytes) → p.diffie_hellman a (p.x25519_public b) ≡ p.diffie_hellman b (p.x25519_public a)

-- The Montgomery form of an Ed25519 public key is the X25519 public key of its scalar.
abbrev pub MontgomeryAgrees : Primitives → Type 0
MontgomeryAgrees p =
    (seed : Bytes)
    → p.to_montgomery (p.ed25519_public seed) ≡ p.x25519_public (p.ed25519_scalar seed)

-- A signature verifies under the public key of the seed that made it.
abbrev pub SignatureCorrect : Primitives → Type 0
SignatureCorrect p =
    (seed m : Bytes) → p.ed25519_verify (p.ed25519_public seed) m (p.ed25519_sign seed m) ≡ true

-- HKDF fills an output of the length asked for. It refuses only outputs above 255 * 32 bytes.
pub record HkdfTotal (p : Primitives) : Type 0 where
  pub root : (salt ikm info : Bytes) → (o : Bytes) × (p.hkdf_sha256 salt ikm info 64 ≡ some o)
  pub message : (salt ikm info : Bytes) → (o : Bytes) × (p.hkdf_sha256 salt ikm info 44 ≡ some o)
  pub secret : (salt ikm info : Bytes) → (o : Bytes) × (p.hkdf_sha256 salt ikm info 32 ≡ some o)

-- HMAC accepts a key of any length.
abbrev pub HmacTotal : Primitives → Type 0
HmacTotal p = (k d : Bytes) → (o : Bytes) × (p.hmac_sha256 k d ≡ some o)
