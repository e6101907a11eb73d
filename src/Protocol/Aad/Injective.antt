-- ===== src/Protocol/Aad/Injective.antt =====
-- aad.rs and ratchet.rs: the associated data determines every field that it is built from.
use cmp.Base.{
  ℕ, ◌≤◌, ◌≡◌, refl, ◌≢◌, ap, ◌++◌, Option, none, some, arith, length, length-append, drop,
}
use cmp.Base.Bytes.{Bytes, u32_max, be32, length-be32, be32-injective, append-injective}
use cmp.Crypto.Session.{RatchetHeader, to_aad, authenticated_data}
use cmp.Protocol.Aad.{domain, prefix, prekey_header, ratchet, prekey, one_time_field}

-- The arguments of `prekey`.
pub record PrekeyContext : Type 0 where
  pub version : ℕ
  pub identity_key : Bytes
  pub ephemeral_key : Bytes
  pub signed_prekey_id : ℕ
  pub one_time_prekey_id : Option ℕ

abbrev pub context : PrekeyContext → Bytes
context c = prekey c.version c.identity_key c.ephemeral_key c.signed_prekey_id c.one_time_prekey_id

abbrev pub FitsU32 : Option ℕ → Type 0
FitsU32 none = Unit
FitsU32 (some n) = n ≤ u32_max

-- What the Rust types ensure: arrays of 32 bytes, and u32.
pub record IsContext (c : PrekeyContext) : Type 0 where
  pub version : c.version ≤ u32_max
  pub identity_key : length c.identity_key ≡ 32
  pub ephemeral_key : length c.ephemeral_key ≡ 32
  pub signed_prekey_id : c.signed_prekey_id ≤ u32_max
  pub one_time_prekey_id : FitsU32 c.one_time_prekey_id

pub record IsHeader (h : RatchetHeader) : Type 0 where
  pub ratchet_key : length h.ratchet_key ≡ 32
  pub previous_chain_length : h.previous_chain_length ≤ u32_max
  pub message_number : h.message_number ≤ u32_max

length-prefix : (v t : ℕ) → length (prefix v t) ≡ 21
unfolding prefix be32
length-prefix v t = refl

prefix-injective :
    (v w t u : ℕ) → v ≤ u32_max → w ≤ u32_max → prefix v t ≡ prefix w u → (v ≡ w) × (t ≡ u)
unfolding prefix
prefix-injective v w t u hv hw e =
    let tail = append-injective domain domain refl e in
    let parts =
      append-injective (be32 v) (be32 w) (omega (arith, length-be32 v, length-be32 w)) tail.1 in
    (be32-injective v w hv hw parts.0, ground (arith, parts.1))

length-one_time_field : (o : Option ℕ) → length (one_time_field o) ≡ 5
unfolding one_time_field be32
length-one_time_field none = refl
length-one_time_field (some n) = refl

one_time_field-injective :
    (o q : Option ℕ) → FitsU32 o → FitsU32 q → one_time_field o ≡ one_time_field q → o ≡ q
unfolding one_time_field
one_time_field-injective none none h k e = refl
one_time_field-injective none (some n) h k e = ground (arith, e)
one_time_field-injective (some m) none h k e = ground (arith, e)
one_time_field-injective (some m) (some n) h k e = ground (arith, e, be32-injective m n h k)

to_aad-injective : (h g : RatchetHeader) → IsHeader h → IsHeader g → to_aad h ≡ to_aad g → h ≡ g
unfolding to_aad
to_aad-injective h g hh hg e =
    let key =
      append-injective h.ratchet_key g.ratchet_key (omega (arith, hh.ratchet_key, hg.ratchet_key))
        e in
    let counters =
      append-injective (be32 h.previous_chain_length) (be32 g.previous_chain_length)
        (omega (arith, length-be32 h.previous_chain_length, length-be32 g.previous_chain_length))
        key.1 in
    let previous =
      be32-injective h.previous_chain_length g.previous_chain_length hh.previous_chain_length
        hg.previous_chain_length counters.0 in
    let number =
      be32-injective h.message_number g.message_number hh.message_number hg.message_number
        counters.1 in
    ground (arith, key.0, previous, number)

length-context : (c : PrekeyContext) → IsContext c → length (context c) ≡ 94
unfolding prekey
length-context c i = omega (
  arith,
  length-append (prefix c.version prekey_header) (
      c.identity_key
      ++ (c.ephemeral_key ++ (be32 c.signed_prekey_id ++ one_time_field c.one_time_prekey_id))),
  length-append c.identity_key
      (c.ephemeral_key ++ (be32 c.signed_prekey_id ++ one_time_field c.one_time_prekey_id)),
  length-append c.ephemeral_key (be32 c.signed_prekey_id ++ one_time_field c.one_time_prekey_id),
  length-append (be32 c.signed_prekey_id) (one_time_field c.one_time_prekey_id),
  length-prefix c.version prekey_header,
  i.identity_key,
  i.ephemeral_key,
  length-be32 c.signed_prekey_id,
  length-one_time_field c.one_time_prekey_id,
)

context-injective :
    (c d : PrekeyContext) → IsContext c → IsContext d → context c ≡ context d → c ≡ d
unfolding prekey
context-injective c d i j e =
    let start =
      append-injective (prefix c.version prekey_header) (prefix d.version prekey_header)
        (omega
          (arith, length-prefix c.version prekey_header, length-prefix d.version prekey_header))
        e in
    let identity =
      append-injective c.identity_key d.identity_key (omega (arith, i.identity_key, j.identity_key))
        start.1 in
    let ephemeral =
      append-injective c.ephemeral_key d.ephemeral_key
        (omega (arith, i.ephemeral_key, j.ephemeral_key)) identity.1 in
    let ids =
      append-injective (be32 c.signed_prekey_id) (be32 d.signed_prekey_id)
        (omega (arith, length-be32 c.signed_prekey_id, length-be32 d.signed_prekey_id))
        ephemeral.1 in
    let version =
      (prefix-injective c.version d.version prekey_header prekey_header i.version j.version
        start.0).0 in
    let signed =
      be32-injective c.signed_prekey_id d.signed_prekey_id i.signed_prekey_id j.signed_prekey_id
        ids.0 in
    let one_time =
      one_time_field-injective c.one_time_prekey_id d.one_time_prekey_id i.one_time_prekey_id
        j.one_time_prekey_id ids.1 in
    ground (arith, version, identity.0, ephemeral.0, signed, one_time)

length-to_aad : (h : RatchetHeader) → IsHeader h → length (to_aad h) ≡ 40
unfolding to_aad
length-to_aad h i = omega (
  arith,
  length-append h.ratchet_key (be32 h.previous_chain_length ++ be32 h.message_number),
  length-append (be32 h.previous_chain_length) (be32 h.message_number),
  length-be32 h.previous_chain_length,
  length-be32 h.message_number,
  i.ratchet_key,
)

-- Two first messages with the same associated data have the same protocol version, sender keys,
-- pre-key ids and ratchet header, if the keys have 32 bytes and the numbers fit u32.
pub authenticated_data-injective :
    (c d : PrekeyContext) (h g : RatchetHeader)
    → IsContext c
    → IsContext d
    → IsHeader h
    → IsHeader g
    → authenticated_data (context c) h ≡ authenticated_data (context d) g
    → (c ≡ d) × (h ≡ g)
unfolding authenticated_data
authenticated_data-injective c d h g i j hh hg e =
    let parts =
      append-injective (context c) (context d)
        (omega (arith, length-context c i, length-context d j)) e in
    (context-injective c d i j parts.0, to_aad-injective h g hh hg parts.1)

-- Associated data of a first message and of a message of an established session differ in the byte
-- that names the kind of header: whatever the version, the keys, the ids and the ratchet headers are,
-- and whatever follows, they are not the same, so neither is the beginning of the other.
pub authenticated_data-separates :
    (c : PrekeyContext) (version : ℕ) (h g : RatchetHeader) (more other : Bytes)
    → authenticated_data (context c) h ++ more ≢ authenticated_data (ratchet version) g ++ other
unfolding authenticated_data ratchet prekey prefix be32
authenticated_data-separates c version h g more other e = absurd (ground (arith, ap (drop 20) e))
