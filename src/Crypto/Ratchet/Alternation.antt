-- ===== src/Crypto/Ratchet/Alternation.antt =====
-- ratchet.rs: two sessions that answer one another, for any number of turns and of messages in each.
use cmp.Base.{
  Bool, true, false, ℕ, ◌+◌, ◌≡◌, refl, arith, some, none, pair_eq, list_eq, nat_eq, option_eq,
  option_beq_iff,
}
use cmp.Base.HashMap.{get}
use cmp.Base.Bytes.{Bytes}
use cmp.Crypto.Error.{Result, ok}
use cmp.Crypto.Primitives.{Primitives, AesCorrect, DhAgrees, HkdfTotal}
use cmp.Crypto.Kdf.{RootKeyOutput, kdf_rk}
use cmp.Crypto.Keys.{generate_ratchet}
use cmp.Crypto.Session.{RatchetMessage, SessionState}
use cmp.Crypto.Ratchet.{initialize_alice, initialize_bob, encrypt, decrypt}
use cmp.Crypto.Ratchet.Handshake.{
  Linked, receive_next, initialize-Linked, IsFresh, Encrypted, encrypt-Encrypted, answered,
  decrypt_first, kdf_rk_total,
}

module _ (p : Primitives) where
  -- The roles change: the receiver has opened a chain that the sender will derive.
  answered-Linked :
      DhAgrees p
      → (secret plaintext envelope_aad : Bytes) (m : RatchetMessage) (s s' r : SessionState)
        (l : Linked p s r) (rk2 : RootKeyOutput)
        (d : Encrypted p s s' plaintext envelope_aad l.chain_key m)
      → IsFresh p secret s r
      → kdf_rk p s.root_key (p.diffie_hellman secret s.our_ratchet.public_bytes) ≡ ok rk2
      → Linked p (answered p rk2 d.out.chain_key secret s r) s'
  unfolding generate_ratchet
  answered-Linked dh secret plaintext envelope_aad m s s' r l rk2 d fresh e2 = record {
    our_secret = secret;
    our_pair = refl;
    their_secret = l.our_secret;
    their_pair = ground (arith, d.left, l.our_pair);
    chain_key = rk2.chain_key;
    sending = refl;
    knows = ground (arith, d.left);
    derives = ground (arith, d.left, l.our_pair, e2, dh secret l.our_secret);
    unseen = λ e. fresh.other (ground (arith, e, d.left, l.knows));
    no_keys = λ i. ground (arith, d.left, fresh.no_keys i);
    first = refl;
    caught_up = ground (arith, d.left, l.heard);
    heard = ground (arith, d.left, l.first);
  }

  -- The receiver follows the chain on which the sender goes on.
  record Follows (s r : SessionState) : Type 0 where
    knows : r.their_ratchet_key ≡ some s.our_ratchet.public_bytes
    chain_key : Bytes
    sending : s.sending_chain_key ≡ some chain_key
    receiving : r.receiving_chain_key ≡ some chain_key
    level : s.send_count ≡ r.recv_count
    none_stored : (i : ℕ) → get (s.our_ratchet.public_bytes, i) r.skipped ≡ none

  -- During a turn: the receiver follows, and could take the next turn.
  record InTurn (s r : SessionState) : Type 0 where
    follows : Follows s r
    link : Linked p r s

  -- What one message does: the plaintext arrives, and the turn goes on.
  abbrev Heard : Bytes → SessionState → Result Bytes × SessionState → Type 0
  Heard plaintext s' r = (r.0 ≡ ok plaintext) × InTurn s' r.1

  -- The first message of a turn.
  opening :
      AesCorrect p
      → DhAgrees p
      → HkdfTotal p
      → (secret plaintext envelope_aad : Bytes) (m : RatchetMessage) (s s' r : SessionState)
      → Linked p s r
      → encrypt p plaintext envelope_aad s ≡ (ok m, s')
      → IsFresh p secret s r
      → Heard plaintext s' (decrypt p secret m.header m.ciphertext envelope_aad r)
  opening correct dh total secret plaintext envelope_aad m s s' r l done fresh =
      let (rk2, e2) =
        kdf_rk_total p total s.root_key (p.diffie_hellman secret s.our_ratchet.public_bytes) in
      let d = encrypt-Encrypted p s s' plaintext envelope_aad l.chain_key m l.sending done in
      rw (decrypt_first p correct secret plaintext envelope_aad m s s' r l rk2 d e2) (
        refl,
        record {
          follows = record {
            knows = ground (arith, d.left);
            chain_key = d.out.chain_key;
            sending = ground (arith, d.left);
            receiving = refl;
            level = ground (arith, d.left, l.first);
            none_stored = λ i. ground (arith, d.left, l.no_keys i);
          };
          link = answered-Linked dh secret plaintext envelope_aad m s s' r l rk2 d fresh e2;
        },
      )

  -- The receiver after a further message of the turn.
  abbrev followed : Bytes → SessionState → SessionState
  followed next r = record r { receiving_chain_key = some next; recv_count = r.recv_count + 1 }

  decrypt_next :
      AesCorrect p
      → (secret plaintext envelope_aad : Bytes) (m : RatchetMessage) (s s' r : SessionState)
        (f : Follows s r) (d : Encrypted p s s' plaintext envelope_aad f.chain_key m)
      → decrypt p secret m.header m.ciphertext envelope_aad r
        ≡ (ok plaintext, followed d.out.chain_key r)
  unfolding decrypt
  decrypt_next correct secret plaintext envelope_aad m s s' r f d = ground (
    arith,
    d.key,
    f.knows,
    f.none_stored m.header.message_number,
    option_beq_iff r.their_ratchet_key (some m.header.ratchet_key),
    d.number,
    d.small,
    f.level,
    receive_next p correct m.header plaintext envelope_aad m.ciphertext f.chain_key d.out r,
    f.receiving,
    d.derived,
    d.sealed,
  )

  followed-InTurn :
      (plaintext envelope_aad : Bytes) (m : RatchetMessage) (s s' r : SessionState) (t : InTurn s r)
      (d : Encrypted p s s' plaintext envelope_aad t.follows.chain_key m)
      → InTurn s' (followed d.out.chain_key r)
  followed-InTurn plaintext envelope_aad m s s' r t d =
      let l = t.link in
      record {
        follows = record {
          knows = ground (arith, d.left, t.follows.knows);
          chain_key = d.out.chain_key;
          sending = ground (arith, d.left);
          receiving = refl;
          level = ground (arith, d.left, t.follows.level);
          none_stored = λ i. ground (arith, d.left, t.follows.none_stored i);
        };
        link = record {
          our_secret = l.our_secret;
          our_pair = l.our_pair;
          their_secret = l.their_secret;
          their_pair = ground (arith, d.left, l.their_pair);
          chain_key = l.chain_key;
          sending = l.sending;
          knows = ground (arith, d.left, l.knows);
          derives = ground (arith, d.left, l.derives);
          unseen = λ e. l.unseen (ground (arith, e, d.left));
          no_keys = λ i. ground (arith, d.left, l.no_keys i);
          first = l.first;
          caught_up = ground (arith, d.left, l.caught_up);
          heard = ground (arith, d.left, t.follows.level);
        };
      }

  -- A further message of a turn.
  going_on :
      AesCorrect p
      → (secret plaintext envelope_aad : Bytes) (m : RatchetMessage) (s s' r : SessionState)
      → InTurn s r
      → encrypt p plaintext envelope_aad s ≡ (ok m, s')
      → Heard plaintext s' (decrypt p secret m.header m.ciphertext envelope_aad r)
  going_on correct secret plaintext envelope_aad m s s' r t done =
      let f = t.follows in
      let d = encrypt-Encrypted p s s' plaintext envelope_aad f.chain_key m f.sending done in
      rw (decrypt_next correct secret plaintext envelope_aad m s s' r f d)
        (refl, followed-InTurn plaintext envelope_aad m s s' r t d)

  -- An exchange. At the beginning of a turn (`false`) `s` sends a first message, which `r` decrypts with
  -- a fresh draw. During the turn (`true`) `s` sends one more message, or leaves the turn to `r`.
  pub data Talk : Bool → SessionState → SessionState → Type 0 where
    silence : {b : Bool} {s r : SessionState} → Talk b s r
    says :
        {s r : SessionState} (secret plaintext envelope_aad : Bytes) (m : RatchetMessage)
        (s' : SessionState)
        → encrypt p plaintext envelope_aad s ≡ (ok m, s')
        → IsFresh p secret s r
        → Talk true s' (decrypt p secret m.header m.ciphertext envelope_aad r).1
        → Talk false s r
    adds :
        {s r : SessionState} (secret plaintext envelope_aad : Bytes) (m : RatchetMessage)
        (s' : SessionState)
        → encrypt p plaintext envelope_aad s ≡ (ok m, s')
        → Talk true s' (decrypt p secret m.header m.ciphertext envelope_aad r).1
        → Talk true s r
    yields : {s r : SessionState} → Talk false r s → Talk true s r

  -- Every message of the exchange decrypts to what was encrypted.
  abbrev pub AllReceived : {b : Bool} {s r : SessionState} → Talk b s r → Type 0
  AllReceived silence = Unit
  AllReceived {s = s} {r = r} (says secret plaintext envelope_aad m s' done fresh rest) =
      ((decrypt p secret m.header m.ciphertext envelope_aad r).0 ≡ ok plaintext) × AllReceived rest
  AllReceived {s = s} {r = r} (adds secret plaintext envelope_aad m s' done rest) =
      ((decrypt p secret m.header m.ciphertext envelope_aad r).0 ≡ ok plaintext) × AllReceived rest
  AllReceived (yields rest) = AllReceived rest

  -- What holds at the beginning of a turn, and during it.
  abbrev Stage : Bool → SessionState → SessionState → Type 0
  Stage false s r = Linked p s r
  Stage true s r = InTurn s r

  Talk-AllReceived :
      AesCorrect p
      → DhAgrees p
      → HkdfTotal p
      → {b : Bool} {s r : SessionState} → Stage b s r
      → (t : Talk b s r) → AllReceived t
  Talk-AllReceived correct dh total l silence = tt
  Talk-AllReceived correct dh total {s = s} {r = r} l
        (says secret plaintext envelope_aad m s' done fresh rest) =
      let (received, begun) =
        opening correct dh total secret plaintext envelope_aad m s s' r l done fresh in
      (received, Talk-AllReceived correct dh total begun rest)
  Talk-AllReceived correct dh total {s = s} {r = r} t
        (adds secret plaintext envelope_aad m s' done rest) =
      let (received, more) = going_on correct secret plaintext envelope_aad m s s' r t done in
      (received, Talk-AllReceived correct dh total more rest)
  Talk-AllReceived correct dh total t (yields rest) = Talk-AllReceived correct dh total t.link rest

  -- From the sessions that the two sides initialise with one shared secret, for any number of turns
  -- and any number of messages in each turn, every message that one side encrypts, once it arrives
  -- after the messages before it, is decrypted by the other, if each draw of a ratchet key is new,
  -- and AES-GCM, Diffie-Hellman and HKDF do what they document.
  pub initialize-AllReceived :
      AesCorrect p
      → DhAgrees p
      → HkdfTotal p
      → (alice_secret bob_secret shared_secret : Bytes) (a : SessionState)
      → initialize_alice p alice_secret shared_secret (p.x25519_public bob_secret) ≡ ok a
      → (t : Talk false a (initialize_bob p shared_secret (generate_ratchet p bob_secret)))
      → AllReceived t
  initialize-AllReceived correct dh total alice_secret bob_secret shared_secret a started t =
      Talk-AllReceived correct dh total
        (initialize-Linked p dh alice_secret bob_secret shared_secret a started) t
