-- ===== src/Crypto/Keys.antt =====
-- crypto/src/keys.rs. What the generator of random numbers returns is an argument: `secret` for
-- one draw, a function of the draw's number for a batch.
use cmp.Base.{ℕ, zero, suc, ◌+◌, List, [], ◌∷◌, leb, if◌then◌else◌}
use cmp.Base.Bytes.{Bytes, u32_max}
use cmp.Crypto.Error.{Result, ok, err, invalid_bundle, invalid_signature}
use cmp.Crypto.Primitives.{Primitives}

-- A long-term Ed25519 key, by its seed.
pub record IdentityKeyPair : Type 0 where
  pub signing_key : Bytes

pub record SignedPreKey : Type 0 where
  pub key_id : ℕ
  pub secret : Bytes
  pub public : Bytes
  pub signature : Bytes

pub record OneTimePreKey : Type 0 where
  pub key_id : ℕ
  pub secret : Bytes
  pub public : Bytes

pub record EphemeralKeyPair : Type 0 where
  pub secret : Bytes
  pub public : Bytes

pub record RatchetKeyPair : Type 0 where
  pub secret_bytes : Bytes
  pub public_bytes : Bytes

module _ (p : Primitives) where
  unfoldable pub verifying_key : IdentityKeyPair → Bytes
  verifying_key identity = p.ed25519_public identity.signing_key

  unfoldable pub to_x25519_secret : IdentityKeyPair → Bytes
  to_x25519_secret identity = p.ed25519_scalar identity.signing_key

  unfoldable pub verifying_key_to_x25519 : Bytes → Bytes
  verifying_key_to_x25519 vk = p.to_montgomery vk

  unfoldable pub generate_signed_prekey : ℕ → IdentityKeyPair → Bytes → SignedPreKey
  generate_signed_prekey key_id identity secret =
      let public = p.x25519_public secret in
      record {
        key_id = key_id;
        secret = secret;
        public = public;
        signature = p.ed25519_sign identity.signing_key public;
      }

  unfoldable pub verify_signed_prekey : SignedPreKey → Bytes → Result (Unit {0})
  verify_signed_prekey k identity_key =
      if p.ed25519_verify identity_key k.public k.signature then ok tt else err invalid_signature

  unfoldable pub generate_one_time_prekey : ℕ → Bytes → OneTimePreKey
  generate_one_time_prekey key_id secret = record {
    key_id = key_id;
    secret = secret;
    public = p.x25519_public secret;
  }

  -- `(start_id..start_id + count).map(OneTimePreKey::generate)`.
  unfoldable pub one_time_prekey_range : ℕ → ℕ → (ℕ → Bytes) → List OneTimePreKey
  unfolding generate_one_time_prekey
  one_time_prekey_range start_id zero random = []
  one_time_prekey_range start_id (suc count) random =
      generate_one_time_prekey start_id (random start_id)
      ∷ one_time_prekey_range (start_id + 1) count random

  unfoldable pub generate_one_time_prekeys : ℕ → ℕ → (ℕ → Bytes) → Result (List OneTimePreKey)
  unfolding one_time_prekey_range
  generate_one_time_prekeys start_id count random =
      if leb (start_id + count) u32_max
      then ok (one_time_prekey_range start_id count random)
      else err (invalid_bundle "pre-key ID range overflow")

  unfoldable pub generate_ephemeral : Bytes → EphemeralKeyPair
  generate_ephemeral secret = record { secret = secret; public = p.x25519_public secret }

  unfoldable pub generate_ratchet : Bytes → RatchetKeyPair
  generate_ratchet secret = record { secret_bytes = secret; public_bytes = p.x25519_public secret }
