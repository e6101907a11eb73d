-- ===== src/Crypto.antt =====
-- The crate `crypto`: key derivation, authenticated encryption, X3DH and the Double Ratchet.
pub mod Error
pub mod Primitives
pub mod Kdf
pub mod Aead
pub mod Keys
pub mod X3dh
pub mod Session
pub mod Ratchet
pub mod Fingerprint
