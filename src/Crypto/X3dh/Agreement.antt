-- ===== src/Crypto/X3dh/Agreement.antt =====
-- x3dh.rs: `alice_initiate` and `bob_respond` derive the same secret.
use cmp.Base.{ℕ, ◌≡◌, Option, none, some, arith}
use cmp.Base.Bytes.{Bytes}
use cmp.Crypto.Error.{ok}
use cmp.Crypto.Primitives.{Primitives, DhAgrees, MontgomeryAgrees, SignatureCorrect, HkdfTotal}
use cmp.Crypto.Kdf.{hkdf_expand}
use cmp.Crypto.Keys.{
  IdentityKeyPair, SignedPreKey, OneTimePreKey, verifying_key, generate_signed_prekey,
  generate_one_time_prekey,
}
use cmp.Crypto.X3dh.{
  X3dhInitResult, PeerPreKeyBundle, derive_x3dh_secret, alice_initiate, bob_respond,
}
use mathlib.Core.Option

module _ (p : Primitives) where
  -- The bundle that Bob publishes: his identity, a signed pre-key, and perhaps a one-time pre-key.
  abbrev pub published : IdentityKeyPair → SignedPreKey → Option OneTimePreKey → PeerPreKeyBundle
  published bob spk opk = record {
    identity_key = verifying_key p bob;
    signed_prekey = spk.public;
    signed_prekey_id = spk.key_id;
    signed_prekey_signature = spk.signature;
    one_time_prekey = Option.map (λ (k : OneTimePreKey). (k.key_id, k.public)) opk;
  }

  abbrev pub one_time : Option (ℕ × Bytes) → Option OneTimePreKey
  one_time none = none
  one_time (some (key_id, secret)) = some (generate_one_time_prekey p key_id secret)

  expand_total :
      HkdfTotal p → (salt ikm info : Bytes) → (s : Bytes) × (hkdf_expand p salt ikm info 32 ≡ ok s)
  unfolding hkdf_expand
  expand_total total salt ikm info = let (s, e) = total.secret salt ikm info in (s, rw e)

  derive_total :
      HkdfTotal p
      → (a b c : Bytes) (d : Option Bytes) → (s : Bytes) × (derive_x3dh_secret p a b c d ≡ ok s)
  unfolding derive_x3dh_secret
  derive_total total a b c d = expand_total total _ _ _

  -- The two sides meet: the initiation succeeds, and the response has its shared secret.
  abbrev pub Agree :
      IdentityKeyPair → IdentityKeyPair → SignedPreKey → Option OneTimePreKey → Bytes → Type 0
  Agree alice bob spk opk secret =
      (r : X3dhInitResult) × (alice_initiate p alice (published bob spk opk) secret ≡ ok r)
      × (bob_respond p bob spk opk (verifying_key p alice) r.ephemeral_public ≡ ok r.shared_secret)

  -- Whatever secrets are drawn, with or without a one-time pre-key, Alice's initiation with the
  -- bundle that Bob published succeeds, and Bob's response to it derives the same shared secret,
  -- if Diffie-Hellman, the conversion of keys, signatures and HKDF do what they document.
  pub alice_initiate-bob_respond :
      (alice bob : IdentityKeyPair) (spk_id : ℕ) (spk_secret secret : Bytes)
      (opk : Option (ℕ × Bytes))
      → DhAgrees p
      → MontgomeryAgrees p
      → SignatureCorrect p
      → HkdfTotal p
      → Agree alice bob (generate_signed_prekey p spk_id bob spk_secret) (one_time opk) secret
  unfolding alice_initiate bob_respond verifying_key generate_signed_prekey generate_one_time_prekey
  alice_initiate-bob_respond alice bob spk_id spk_secret secret none dh mont sig total =
      let a = p.ed25519_scalar alice.signing_key in
      let b = p.ed25519_scalar bob.signing_key in
      let spk = p.x25519_public spk_secret in
      let (s, e) =
        derive_total total (p.diffie_hellman a spk)
          (p.diffie_hellman secret (p.to_montgomery (p.ed25519_public bob.signing_key)))
          (p.diffie_hellman secret spk) none in
      (
        record { shared_secret = s; ephemeral_public = p.x25519_public secret },
        ground (arith, e, sig bob.signing_key spk),
        ground (
          arith,
          e,
          mont alice.signing_key,
          mont bob.signing_key,
          dh a spk_secret,
          dh secret b,
          dh secret spk_secret,
        ),
      )
  alice_initiate-bob_respond alice bob spk_id spk_secret secret (some (key_id, opk)) dh mont sig
        total =
      let a = p.ed25519_scalar alice.signing_key in
      let b = p.ed25519_scalar bob.signing_key in
      let spk = p.x25519_public spk_secret in
      let (s, e) =
        derive_total total (p.diffie_hellman a spk)
          (p.diffie_hellman secret (p.to_montgomery (p.ed25519_public bob.signing_key)))
          (p.diffie_hellman secret spk) (some (p.diffie_hellman secret (p.x25519_public opk))) in
      (
        record { shared_secret = s; ephemeral_public = p.x25519_public secret },
        ground (arith, e, sig bob.signing_key spk),
        ground (
          arith,
          e,
          mont alice.signing_key,
          mont bob.signing_key,
          dh a spk_secret,
          dh secret b,
          dh secret spk_secret,
          dh secret opk,
        ),
      )
