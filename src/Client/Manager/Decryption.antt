-- ===== src/Client/Manager/Decryption.antt =====
-- client/src/crypto_mgr_decrypt.rs: the decryption of what arrives, by the session with the peer, or
-- for a first message by a new session. Outside of tests a message id is always given.
use cmp.Base.{
  ℕ, String, List, [], ◌∷◌, ◌++◌, Option, none, some, if◌then◌else◌, leb, ◌==◌, nat_eq, string_eq,
}
use cmp.Base.Bytes.{Bytes}
use cmp.Base.HashMap.{get, insert, remove}
use cmp.Base.Rows.{find}
use cmp.Crypto.Primitives.{Primitives}
use cmp.Crypto.Keys.{SignedPreKey, OneTimePreKey, IdentityKeyPair}
use cmp.Crypto.Session.{SessionState, RatchetHeader}
use cmp.Crypto.Error
use cmp.Crypto.X3dh.{bob_respond}
use cmp.Crypto.Ratchet.{initialize_bob, decrypt}
use cmp.Protocol.Aad.{prekey, ratchet}
use cmp.Protocol.Types.{
  MessageId, EncryptedEnvelope, MessageHeader, PreKeyHeader, pre_key, established, protocol_version,
}
use cmp.Client.Outbox.{
  no_session, persistence, bad_envelope, x3dh_failed, decrypt_failed, replay_ledger_full,
  unsupported_version, Result, ok, err,
}
use cmp.Client.Replay.{prune_processed}
use cmp.Client.Manager.{PeerSession}
use cmp.Client.Manager.Acknowledging.{mark_processed}
use cmp.Client.Manager.Arrival.{
  OwnPrekeys, Receiver, InboundDecrypt, pending, duplicate, failed, max_processed_messages,
  ledger_size, consume, restore_consumed, unmark, lookup, Decoders, Arrival, ◌>>=◌,
  b64_decode_fixed, decode_ratchet_header, decode_ciphertext, text_or_notice,
}

module _ (p : Primitives) (d : Decoders) (a : Arrival) (peer_id : String)
    (message_id : MessageId) where
  -- What follows the ratchet's answer. The session in the map has been changed in place.
  unfoldable pub after_decrypt :
      PeerSession → Receiver → Error.Result Bytes → SessionState → Result Bytes × Receiver
  unfolding mark_processed text_or_notice
  after_decrypt original r (Error.err why) state = (
    err decrypt_failed,
    record r {
      manager = record r.manager {
        sessions = insert peer_id (record original { ratchet = state }) r.manager.sessions;
      };
    },
  )
  after_decrypt original r (Error.ok plaintext) state =
      let sessions = insert peer_id (record original { ratchet = state }) r.manager.sessions in
      let marked =
        mark_processed peer_id message_id (text_or_notice d plaintext) a.marked_at
          r.manager.processed_messages in
      if a.saved
      then (
        ok plaintext,
        record r {
          manager = record r.manager { sessions = sessions; processed_messages = marked.1 };
        },
      )
      else (
        err persistence,
        record r {
          manager = record r.manager {
            sessions = insert peer_id original sessions;
            processed_messages = unmark peer_id message_id marked;
          };
        },
      )

  unfoldable pub decrypt_existing :
      RatchetHeader → Bytes → Bytes → Option PeerSession → Receiver → Result Bytes × Receiver
  unfolding after_decrypt
  decrypt_existing header ciphertext envelope_aad none r = (err no_session, r)
  decrypt_existing header ciphertext envelope_aad (some session) r =
      let step = decrypt p a.secret header ciphertext envelope_aad session.ratchet in
      after_decrypt session r step.0 step.1

  -- `Some(self.stored_opks.get(&id).ok_or(..)?)`.
  abbrev find_opk : Option ℕ → OwnPrekeys → Result (Option OneTimePreKey)
  find_opk none own = ok none
  find_opk (some id) own = elim (get id own.stored_opks) [
    | none ↦ err bad_envelope
    | some opk ↦ ok (some opk)
  ]

  abbrev current : Option SignedPreKey → List SignedPreKey
  current none = []
  current (some spk) = spk ∷ []

  abbrev respond : SignedPreKey → Error.Result Bytes → Result SessionState
  respond spk (Error.err why) = err x3dh_failed
  respond spk (Error.ok bob_secret) = ok (
      initialize_bob p bob_secret (record { secret_bytes = spk.secret; public_bytes = spk.public }))

  -- The one-time pre-key is read, and not taken yet.
  unfoldable pub create_bob_session :
      Bytes → Bytes → ℕ → Option ℕ → IdentityKeyPair → OwnPrekeys → Result SessionState
  create_bob_session sender_identity_key sender_ephemeral_key expected_spk_id opk_id identity own =
      elim (find (λ (spk : SignedPreKey). spk.key_id == expected_spk_id)
        (current own.stored_spk ++ own.previous_spks)) [
          | none ↦ err bad_envelope
          | some spk ↦
              if d.is_verifying_key sender_identity_key
              then (do
                opk ← find_opk opk_id own
                respond spk
                    (bob_respond p identity spk opk sender_identity_key sender_ephemeral_key))
              else err bad_envelope
        ]

  -- The new session is stored only with an authentic first message, which takes the one-time pre-key.
  unfoldable pub after_first :
      Option ℕ → Receiver → Error.Result Bytes → SessionState → Result Bytes × Receiver
  unfolding mark_processed text_or_notice consume restore_consumed
  after_first opk_id r (Error.err why) state = (err decrypt_failed, r)
  after_first opk_id r (Error.ok plaintext) state =
      let session : PeerSession = record {
        ratchet = state;
        prekey_header = none;
        prekey_expires_at = none;
      } in
      let sessions = insert peer_id session r.manager.sessions in
      let consumed = consume opk_id r.own in
      let marked =
        mark_processed peer_id message_id (text_or_notice d plaintext) a.marked_at
          r.manager.processed_messages in
      if a.saved
      then (
        ok plaintext,
        record {
          manager = record r.manager { sessions = sessions; processed_messages = marked.1 };
          own = consumed.1;
        },
      )
      else (
        err persistence,
        record {
          manager = record r.manager {
            sessions = remove peer_id sessions;
            processed_messages = unmark peer_id message_id marked;
          };
          own = restore_consumed opk_id consumed;
        },
      )

  unfoldable pub decrypt_first :
      Option ℕ
      → RatchetHeader
      → Bytes
      → Bytes
      → Result SessionState
      → Receiver
      → Result Bytes × Receiver
  unfolding after_first
  decrypt_first opk_id header ciphertext envelope_aad (err e) r = (err e, r)
  decrypt_first opk_id header ciphertext envelope_aad (ok session) r =
      let step = decrypt p a.secret header ciphertext envelope_aad session in
      after_first opk_id r step.0 step.1

  -- What the parsing of a first message yields: header, sender's keys, ciphertext.
  abbrev Parsed : Type 0
  Parsed = RatchetHeader × Bytes × Bytes × Bytes

  abbrev parse_prekey : PreKeyHeader → String → Result Parsed
  parse_prekey h encoded = do
    header ← decode_ratchet_header d h.ratchet
    identity ← b64_decode_fixed d 32 h.sender_identity_key bad_envelope
    ephemeral ← b64_decode_fixed d 32 h.sender_ephemeral_key bad_envelope
    ciphertext ← decode_ciphertext d encoded
    ok (header, identity, ephemeral, ciphertext)

  unfoldable pub decrypt_parsed :
      ℕ → PreKeyHeader → Result Parsed → Receiver → Result Bytes × Receiver
  unfolding decrypt_existing decrypt_first create_bob_session
  decrypt_parsed version h (err e) r = (err e, r)
  decrypt_parsed version h (ok (header, identity, ephemeral, ciphertext)) r =
      let spk_id = h.recipient_signed_prekey_id in
      let opk_id = h.recipient_one_time_prekey_id in
      let envelope_aad = prekey version identity ephemeral spk_id opk_id in
      elim (get peer_id r.manager.sessions) [
        | some session ↦ decrypt_existing header ciphertext envelope_aad (some session) r
        | none ↦
            decrypt_first opk_id header ciphertext envelope_aad
              (create_bob_session identity ephemeral spk_id opk_id r.manager.identity r.own) r
      ]

  unfoldable pub decrypt_established :
      ℕ → Result (RatchetHeader × Bytes) → Receiver → Result Bytes × Receiver
  unfolding decrypt_existing
  decrypt_established version (err e) r = (err e, r)
  decrypt_established version (ok (header, ciphertext)) r =
      decrypt_existing header ciphertext (ratchet version) (get peer_id r.manager.sessions) r

  -- The match on the header.
  unfoldable pub decrypt_header : ℕ → String → MessageHeader → Receiver → Result Bytes × Receiver
  unfolding decrypt_parsed decrypt_established
  decrypt_header version encoded (pre_key h) r = decrypt_parsed version h (parse_prekey h encoded) r
  decrypt_header version encoded (established ratchet_header) r =
      let parsed = (do
        header ← decode_ratchet_header d ratchet_header
        ciphertext ← decode_ciphertext d encoded
        ok (header, ciphertext)) in
      decrypt_established version parsed r

  unfoldable pub decrypt_with_marker : EncryptedEnvelope → Receiver → Result Bytes × Receiver
  unfolding decrypt_header prune_processed ledger_size
  decrypt_with_marker envelope r =
      let processed = prune_processed r.manager.processed_messages a.now in
      let start = record r { manager = record r.manager { processed_messages = processed } } in
      if envelope.version == protocol_version
      then (if a.pruned
          then (if leb max_processed_messages (ledger_size processed)
              then (err replay_ledger_full, start)
              else decrypt_header envelope.version envelope.ciphertext envelope.header start)
          else (err persistence, r))
      else (err (unsupported_version envelope.version), r)

  abbrev pub answer : Result Bytes × Receiver → InboundDecrypt × Receiver
  answer (ok plaintext, after) = (pending (text_or_notice d plaintext), after)
  answer (err e, after) = (failed, after)

  abbrev pub known : Option String → InboundDecrypt
  known none = duplicate
  known (some text) = pending text

  unfoldable pub decrypt_message_to_text : EncryptedEnvelope → Receiver → InboundDecrypt × Receiver
  unfolding decrypt_with_marker lookup
  decrypt_message_to_text envelope r =
      if envelope.version == protocol_version
      then elim (lookup peer_id message_id r.manager.processed_messages) [
        | some processed ↦ (known processed.pending_plaintext, r)
        | none ↦ answer (decrypt_with_marker envelope r)
      ]
      else (failed, r)
