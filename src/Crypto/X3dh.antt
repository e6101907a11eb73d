-- ===== src/Crypto/X3dh.antt =====
-- crypto/src/x3dh.rs.
pub mod Agreement
use cmp.Base.{ℕ, zero, suc, [], ◌∷◌, Option, none, some, ◌++◌}
use cmp.Base.Bytes.{Bytes}
use cmp.Crypto.Error.{Result, ok, invalid_signature, guard, ◌>>=◌, ◌>>◌}
use cmp.Crypto.Primitives.{Primitives}
use cmp.Crypto.Kdf.{hkdf_expand, hkdf_info_x3dh, zeros}
use cmp.Crypto.Keys.{
  IdentityKeyPair, SignedPreKey, OneTimePreKey, to_x25519_secret, verifying_key_to_x25519,
  generate_ephemeral,
}
use mathlib.Core.Option

abbrev pub ones : ℕ → Bytes
ones zero = []
ones (suc n) = 255 ∷ ones n

abbrev x3dh_domain_separator : Bytes
x3dh_domain_separator = ones 32

abbrev x3dh_salt : Bytes
x3dh_salt = zeros 32

pub record X3dhInitResult : Type 0 where
  pub shared_secret : Bytes
  pub ephemeral_public : Bytes

pub record PeerPreKeyBundle : Type 0 where
  pub identity_key : Bytes
  pub signed_prekey : Bytes
  pub signed_prekey_id : ℕ
  pub signed_prekey_signature : Bytes
  pub one_time_prekey : Option (ℕ × Bytes)

abbrev optional_bytes : Option Bytes → Bytes
optional_bytes none = []
optional_bytes (some b) = b

module _ (p : Primitives) where
  unfoldable pub derive_x3dh_secret : Bytes → Bytes → Bytes → Option Bytes → Result Bytes
  derive_x3dh_secret dh1 dh2 dh3 dh4 =
      let ikm = x3dh_domain_separator ++ (dh1 ++ (dh2 ++ (dh3 ++ optional_bytes dh4))) in
      hkdf_expand p x3dh_salt ikm hkdf_info_x3dh 32

  -- `secret` is the ephemeral secret that the random generator returns.
  unfoldable pub alice_initiate : IdentityKeyPair → PeerPreKeyBundle → Bytes → Result X3dhInitResult
  unfolding to_x25519_secret verifying_key_to_x25519 generate_ephemeral
  alice_initiate alice_identity bob_bundle secret = do
    guard
        (p.ed25519_verify bob_bundle.identity_key bob_bundle.signed_prekey
          bob_bundle.signed_prekey_signature)
        invalid_signature
    let ephemeral = generate_ephemeral p secret
    let alice_x25519_secret = to_x25519_secret p alice_identity
    let bob_x25519_identity = verifying_key_to_x25519 p bob_bundle.identity_key
    let dh1 = p.diffie_hellman alice_x25519_secret bob_bundle.signed_prekey
    let dh2 = p.diffie_hellman ephemeral.secret bob_x25519_identity
    let dh3 = p.diffie_hellman ephemeral.secret bob_bundle.signed_prekey
    let dh4 =
        Option.map (λ (opk : ℕ × Bytes). p.diffie_hellman ephemeral.secret opk.1)
          bob_bundle.one_time_prekey
    shared_secret ← derive_x3dh_secret dh1 dh2 dh3 dh4
    ok (record { shared_secret = shared_secret; ephemeral_public = ephemeral.public })

  unfoldable pub bob_respond :
      IdentityKeyPair → SignedPreKey → Option OneTimePreKey → Bytes → Bytes → Result Bytes
  unfolding to_x25519_secret verifying_key_to_x25519
  bob_respond bob_identity bob_signed_prekey bob_one_time_prekey alice_identity_key
        alice_ephemeral_key =
      let alice_x25519_identity = verifying_key_to_x25519 p alice_identity_key in
      let bob_x25519_secret = to_x25519_secret p bob_identity in
      let dh1 = p.diffie_hellman bob_signed_prekey.secret alice_x25519_identity in
      let dh2 = p.diffie_hellman bob_x25519_secret alice_ephemeral_key in
      let dh3 = p.diffie_hellman bob_signed_prekey.secret alice_ephemeral_key in
      let dh4 =
        Option.map (λ (pk : OneTimePreKey). p.diffie_hellman pk.secret alice_ephemeral_key)
          bob_one_time_prekey in
      derive_x3dh_secret dh1 dh2 dh3 dh4
