-- ===== src/Crypto/Ratchet/Handshake.antt =====
-- ratchet.rs: from `initialize_alice` and `initialize_bob` on, two sessions that answer one another
-- stay in step, with a new ratchet key at every turn.
use cmp.Base.{
  ℕ, ◌+◌, ◌≤◌, ◌≡◌, refl, ◌≢◌, none, some, arith, inl, inr, pair_eq, list_eq, nat_eq, option_eq,
  option_beq_iff, take, drop,
}
use cmp.Base.Bytes.{Bytes, checked_succ}
use cmp.Base.HashMap.{get}
use cmp.Crypto.Error.{ok, Result-cases}
use cmp.Crypto.Primitives.{Primitives, AesCorrect, DhAgrees, HkdfTotal}
use cmp.Crypto.Kdf.{RootKeyOutput, ChainKeyOutput, kdf_rk, kdf_ck, hkdf_info_ratchet}
use cmp.Crypto.Aead
use cmp.Crypto.Keys.{generate_ratchet}
use cmp.Crypto.Session.{RatchetHeader, RatchetMessage, SessionState, authenticated_data}
use cmp.Crypto.Ratchet.{
  initialize_alice, initialize_bob, encrypt, decrypt, dh_step, receive, skip_message_keys,
}

module _ (p : Primitives) where
  -- `s` has opened a sending chain that `r` has not seen: `r` derives its first chain key from the
  -- ratchet key of `s`, and neither waits for messages of an earlier chain.
  pub record Linked (s r : SessionState) : Type 0 where
    pub our_secret : Bytes
    pub our_pair : s.our_ratchet ≡ generate_ratchet p our_secret
    pub their_secret : Bytes
    pub their_pair : r.our_ratchet ≡ generate_ratchet p their_secret
    pub chain_key : Bytes
    pub sending : s.sending_chain_key ≡ some chain_key
    pub knows : s.their_ratchet_key ≡ some r.our_ratchet.public_bytes
    pub derives :
        kdf_rk p r.root_key (p.diffie_hellman r.our_ratchet.secret_bytes s.our_ratchet.public_bytes)
        ≡ ok (record { root_key = s.root_key; chain_key = chain_key })
    pub unseen : r.their_ratchet_key ≢ some s.our_ratchet.public_bytes
    pub no_keys : (i : ℕ) → get (s.our_ratchet.public_bytes, i) r.skipped ≡ none
    pub first : s.send_count ≡ 0
    pub caught_up : s.previous_send_count ≤ r.recv_count
    pub heard : r.send_count ≤ s.recv_count

  -- Alice's first session and Bob's are linked, when they start from one shared secret.
  pub initialize-Linked :
      DhAgrees p
      → (alice_secret bob_secret shared_secret : Bytes) (a : SessionState)
      → initialize_alice p alice_secret shared_secret (p.x25519_public bob_secret) ≡ ok a
      → Linked a (initialize_bob p shared_secret (generate_ratchet p bob_secret))
  unfolding initialize_alice initialize_bob generate_ratchet get
  initialize-Linked dh alice_secret bob_secret shared_secret a started =
      elim (Result-cases
        (kdf_rk p shared_secret (p.diffie_hellman alice_secret (p.x25519_public bob_secret)))) [
          | inl (rk, e) ↦ record {
            our_secret = alice_secret;
            our_pair = ground (arith, e);
            their_secret = bob_secret;
            their_pair = refl;
            chain_key = rk.chain_key;
            sending = ground (arith, e);
            knows = ground (arith, e);
            derives = ground (arith, e, dh alice_secret bob_secret);
            unseen = λ h. cc;
            no_keys = λ i. refl;
            first = ground (arith, e);
            caught_up = ground (arith, e);
            heard = ground (arith, e);
          }
          | inr (x, e) ↦ absurd (ground (arith, e))
        ]

  pub kdf_rk_total :
      HkdfTotal p
      → (root_key dh_output : Bytes)
      → (out : RootKeyOutput) × (kdf_rk p root_key dh_output ≡ ok out)
  unfolding kdf_rk
  kdf_rk_total total root_key dh_output =
      let (o, e) = total.root root_key dh_output hkdf_info_ratchet in
      (record { root_key = take 32 o; chain_key = drop 32 o }, ground (arith, e))

  -- Nobody has used the ratchet key that the receiver draws.
  pub record IsFresh (secret : Bytes) (s r : SessionState) : Type 0 where
    pub other : r.our_ratchet.public_bytes ≢ p.x25519_public secret
    pub no_keys : (i : ℕ) → get (p.x25519_public secret, i) s.skipped ≡ none

  -- The receiver after the Diffie-Hellman step.
  abbrev pub stepped :
      RootKeyOutput → RootKeyOutput → Bytes → SessionState → SessionState → SessionState
  stepped rk rk2 secret s r = record r {
    root_key = rk2.root_key;
    our_ratchet = generate_ratchet p secret;
    their_ratchet_key = some s.our_ratchet.public_bytes;
    sending_chain_key = some rk2.chain_key;
    receiving_chain_key = some rk.chain_key;
    send_count = 0;
    recv_count = 0;
    previous_send_count = r.send_count;
  }

  skip_none :
      (current until : ℕ) (r : SessionState)
      → until ≤ current
      → skip_message_keys p current until r ≡ (ok tt, r)
  unfolding skip_message_keys
  skip_none current until r le = ground arith

  dh_step_lem :
      (header : RatchetHeader) (secret : Bytes) (s r : SessionState) (l : Linked s r)
      (rk2 : RootKeyOutput)
      → header.ratchet_key ≡ s.our_ratchet.public_bytes
      → header.previous_chain_length ≤ r.recv_count
      → kdf_rk p s.root_key (p.diffie_hellman secret s.our_ratchet.public_bytes) ≡ ok rk2
      → dh_step p header secret r ≡ (
        ok tt,
        stepped (record { root_key = s.root_key; chain_key = l.chain_key }) rk2 secret s r,
      )
  unfolding dh_step generate_ratchet
  dh_step_lem header secret s r l rk2 same le e2 =
      ground (arith, skip_none r.recv_count header.previous_chain_length r le, l.derives)

  -- The next message of a chain, at the session that holds its chain key.
  pub receive_next :
      AesCorrect p
      → (header : RatchetHeader) (plaintext envelope_aad ciphertext chain_key : Bytes)
        (out : ChainKeyOutput) (t : SessionState)
      → header.message_number ≡ t.recv_count
      → checked_succ t.recv_count ≡ some (t.recv_count + 1)
      → t.receiving_chain_key ≡ some chain_key
      → kdf_ck p chain_key ≡ ok out
      → Aead.encrypt p out.message_key plaintext (authenticated_data envelope_aad header)
        ≡ ok ciphertext
      → receive p header ciphertext envelope_aad t ≡ (
        ok plaintext,
        record t { receiving_chain_key = some out.chain_key; recv_count = t.recv_count + 1 },
      )
  unfolding receive
  receive_next correct header plaintext envelope_aad ciphertext ck out t number small holds e
        sealed =
      ground (
        arith,
        skip_none t.recv_count header.message_number t,
        Aead.decrypt-encrypt p correct out.message_key plaintext
            (authenticated_data envelope_aad header) ciphertext sealed,
      )

  -- What `encrypt` did, where it succeeded.
  pub record Encrypted (s s' : SessionState) (plaintext envelope_aad chain_key : Bytes)
      (m : RatchetMessage) : Type 0 where
    pub out : ChainKeyOutput
    pub derived : kdf_ck p chain_key ≡ ok out
    pub sealed :
        Aead.encrypt p out.message_key plaintext (authenticated_data envelope_aad m.header)
        ≡ ok m.ciphertext
    pub key : m.header.ratchet_key ≡ s.our_ratchet.public_bytes
    pub number : m.header.message_number ≡ s.send_count
    pub small : checked_succ s.send_count ≡ some (s.send_count + 1)
    pub previous : m.header.previous_chain_length ≡ s.previous_send_count
    pub left :
        s' ≡ record s { sending_chain_key = some out.chain_key; send_count = s.send_count + 1 }

  pub encrypt-Encrypted :
      (s s' : SessionState) (plaintext envelope_aad chain_key : Bytes) (m : RatchetMessage)
      → s.sending_chain_key ≡ some chain_key
      → encrypt p plaintext envelope_aad s ≡ (ok m, s')
      → Encrypted s s' plaintext envelope_aad chain_key m
  unfolding encrypt checked_succ
  encrypt-Encrypted s s' plaintext envelope_aad chain_key m holds done =
      elim (Result-cases (kdf_ck p chain_key)) [
        | inl (out, e) ↦ record {
          out = out;
          derived = e;
          sealed = ground (arith, e);
          key = ground (arith, e);
          number = ground (arith, e);
          small = ground (arith, e);
          previous = ground (arith, e);
          left = ground (arith, e);
        }
        | inr (x, e) ↦ absurd (ground (arith, e))
      ]

  -- The receiver after the first message of the new chain.
  abbrev pub answered : RootKeyOutput → Bytes → Bytes → SessionState → SessionState → SessionState
  answered rk2 next secret s r =
      record (stepped (record { root_key = s.root_key; chain_key = next }) rk2 secret s r) {
        receiving_chain_key = some next;
        recv_count = 1;
      }

  pub decrypt_first :
      AesCorrect p
      → (secret plaintext envelope_aad : Bytes) (m : RatchetMessage) (s s' r : SessionState)
        (l : Linked s r) (rk2 : RootKeyOutput)
        (d : Encrypted s s' plaintext envelope_aad l.chain_key m)
      → kdf_rk p s.root_key (p.diffie_hellman secret s.our_ratchet.public_bytes) ≡ ok rk2
      → decrypt p secret m.header m.ciphertext envelope_aad r
        ≡ (ok plaintext, answered rk2 d.out.chain_key secret s r)
  unfolding decrypt
  decrypt_first correct secret plaintext envelope_aad m s s' r l rk2 d e2 =
      let t = stepped (record { root_key = s.root_key; chain_key = l.chain_key }) rk2 secret s r in
      ground (
        arith,
        d.key,
        l.unseen,
        l.no_keys m.header.message_number,
        l.caught_up,
        d.previous,
        d.number,
        l.first,
        option_beq_iff r.their_ratchet_key (some m.header.ratchet_key),
        dh_step_lem m.header secret s r l rk2,
        receive_next correct m.header plaintext envelope_aad m.ciphertext l.chain_key d.out t,
        d.small,
        d.derived,
        d.sealed,
        e2,
      )
