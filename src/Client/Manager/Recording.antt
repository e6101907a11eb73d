-- ===== src/Client/Manager/Recording.antt =====
-- crypto_mgr_decrypt.rs: what is decrypted is in the record of processed messages.
use cmp.Base.{
  leb, ℕ, String, Bool, true, false, Option, none, some, ◌≡◌, arith, ◌==◌, nat_eq, string_eq,
  if◌then◌else◌,
}
use cmp.Base.Bytes.{Bytes}
use cmp.Base.HashMap.{HashMap, get, insert, get-insert}
use cmp.Crypto.Primitives.{Primitives}
use cmp.Crypto.Session.{SessionState, RatchetHeader}
use cmp.Crypto.Error
use cmp.Crypto.Ratchet.{decrypt}
use cmp.Protocol.Types.{
  MessageId, EncryptedEnvelope, MessageHeader, PreKeyHeader, pre_key, established, protocol_version,
}
use cmp.Client.Outbox.{Result, ok, err, replay_ledger_full}
use mathlib.Core.Option
use cmp.Client.Replay.{Processed, ProcessedMessage, prune_processed}
use cmp.Client.Manager.{PeerSession}
use cmp.Client.Manager.Acknowledging.{messages_of, mark_processed}
use cmp.Client.Manager.Arrival.{
  Receiver, pending, lookup, Decoders, Arrival, text_or_notice, ledger_size, max_processed_messages,
}
use cmp.Client.Manager.Decryption.{
  after_decrypt, decrypt_existing, after_first, decrypt_first, decrypt_parsed, decrypt_established,
  decrypt_header, decrypt_with_marker, decrypt_message_to_text, answer,
}

-- To look up what was just put in.
pub lookup-insert :
    (peer_id : String) (id : MessageId) (m : ProcessedMessage)
    (ms : HashMap String ProcessedMessage) (processed : Processed)
    → lookup peer_id id (insert peer_id (insert id m ms) processed) ≡ some m
unfolding lookup
lookup-insert peer_id id m ms processed = ground (
  arith,
  get-insert peer_id peer_id (insert id m ms) processed,
  get-insert id id m ms,
  string_eq.equal_iff peer_id peer_id,
  string_eq.equal_iff id id,
)

lookup-mark_processed :
    (peer_id : String) (id : MessageId) (text : String) (now : ℕ) (processed : Processed)
    → lookup peer_id id (mark_processed peer_id id text now processed).1
      ≡ some (record { pending_plaintext = some text; processed_at = now })
unfolding mark_processed
lookup-mark_processed peer_id id text now processed =
    lookup-insert peer_id id (record { pending_plaintext = some text; processed_at = now })
      (messages_of peer_id (prune_processed processed now)) (prune_processed processed now)

module _ (p : Primitives) (d : Decoders) (a : Arrival) (peer_id : String) (id : MessageId) where
  abbrev mark : Bytes → ProcessedMessage
  mark plaintext = record {
    pending_plaintext = some (text_or_notice d plaintext);
    processed_at = a.marked_at;
  }

  -- Where there is a plaintext, its text is in the record.
  abbrev IsRecorded : Result Bytes × Receiver → Type 0
  IsRecorded (ok plaintext, after) =
      lookup peer_id id after.manager.processed_messages ≡ some (mark plaintext)
  IsRecorded (err e, after) = Unit

  if-IsRecorded :
      (b : Bool) (x y : Result Bytes × Receiver)
      → IsRecorded x
      → IsRecorded y
      → IsRecorded (if b then x else y)
  if-IsRecorded true x y hx hy = hx
  if-IsRecorded false x y hx hy = hy

  elim-IsRecorded :
      (o : Option PeerSession) (z : Result Bytes × Receiver)
      (f : PeerSession → Result Bytes × Receiver)
      → IsRecorded z
      → ((s : PeerSession) → IsRecorded (f s))
      → IsRecorded (elim o [ some s ↦ f s | none ↦ z ])
  elim-IsRecorded none z f hz hf = hz
  elim-IsRecorded (some s) z f hz hf = hf s

  after_decrypt-IsRecorded :
      (session : PeerSession) (r : Receiver) (answer : Error.Result Bytes) (state : SessionState)
      → IsRecorded (after_decrypt p d a peer_id id session r answer state)
  unfolding after_decrypt
  after_decrypt-IsRecorded session r (Error.err why) state = tt
  after_decrypt-IsRecorded session r (Error.ok plaintext) state =
      if-IsRecorded a.saved _ _
        (lookup-mark_processed peer_id id (text_or_notice d plaintext) a.marked_at
          r.manager.processed_messages)
        tt

  decrypt_existing-IsRecorded :
      (header : RatchetHeader) (ciphertext aad : Bytes) (session : Option PeerSession)
      (r : Receiver)
      → IsRecorded (decrypt_existing p d a peer_id id header ciphertext aad session r)
  unfolding decrypt_existing
  decrypt_existing-IsRecorded header ciphertext aad none r = tt
  decrypt_existing-IsRecorded header ciphertext aad (some session) r =
      let step = decrypt p a.secret header ciphertext aad session.ratchet in
      after_decrypt-IsRecorded session r step.0 step.1

  after_first-IsRecorded :
      (opk_id : Option ℕ) (r : Receiver) (answer : Error.Result Bytes) (state : SessionState)
      → IsRecorded (after_first p d a peer_id id opk_id r answer state)
  unfolding after_first
  after_first-IsRecorded opk_id r (Error.err why) state = tt
  after_first-IsRecorded opk_id r (Error.ok plaintext) state =
      if-IsRecorded a.saved _ _
        (lookup-mark_processed peer_id id (text_or_notice d plaintext) a.marked_at
          r.manager.processed_messages)
        tt

  decrypt_first-IsRecorded :
      (opk_id : Option ℕ) (header : RatchetHeader) (ciphertext aad : Bytes)
      (session : Result SessionState) (r : Receiver)
      → IsRecorded (decrypt_first p d a peer_id id opk_id header ciphertext aad session r)
  unfolding decrypt_first
  decrypt_first-IsRecorded opk_id header ciphertext aad (err e) r = tt
  decrypt_first-IsRecorded opk_id header ciphertext aad (ok session) r =
      let step = decrypt p a.secret header ciphertext aad session in
      after_first-IsRecorded opk_id r step.0 step.1

  decrypt_parsed-IsRecorded :
      (version : ℕ) (h : PreKeyHeader) (parsed : Result (RatchetHeader × Bytes × Bytes × Bytes))
      (r : Receiver)
      → IsRecorded (decrypt_parsed p d a peer_id id version h parsed r)
  unfolding decrypt_parsed
  decrypt_parsed-IsRecorded version h (err e) r = tt
  decrypt_parsed-IsRecorded version h (ok (header, identity, ephemeral, ciphertext)) r =
      elim-IsRecorded (get peer_id r.manager.sessions) _ _
        (decrypt_first-IsRecorded h.recipient_one_time_prekey_id header ciphertext _ _ r)
        (λ s. decrypt_existing-IsRecorded header ciphertext _ (some s) r)

  decrypt_established-IsRecorded :
      (version : ℕ) (parsed : Result (RatchetHeader × Bytes)) (r : Receiver)
      → IsRecorded (decrypt_established p d a peer_id id version parsed r)
  unfolding decrypt_established
  decrypt_established-IsRecorded version (err e) r = tt
  decrypt_established-IsRecorded version (ok (header, ciphertext)) r =
      decrypt_existing-IsRecorded header ciphertext _ (get peer_id r.manager.sessions) r

  decrypt_header-IsRecorded :
      (version : ℕ) (encoded : String) (header : MessageHeader) (r : Receiver)
      → IsRecorded (decrypt_header p d a peer_id id version encoded header r)
  unfolding decrypt_header
  decrypt_header-IsRecorded version encoded (pre_key h) r = decrypt_parsed-IsRecorded version h _ r
  decrypt_header-IsRecorded version encoded (established h) r =
      decrypt_established-IsRecorded version _ r

  decrypt_with_marker-IsRecorded :
      (envelope : EncryptedEnvelope) (r : Receiver)
      → IsRecorded (decrypt_with_marker p d a peer_id id envelope r)
  unfolding decrypt_with_marker
  decrypt_with_marker-IsRecorded envelope r =
      let processed = prune_processed r.manager.processed_messages a.now in
      let start : Receiver = record r {
        manager = record r.manager { processed_messages = processed };
      } in
      if-IsRecorded (envelope.version == protocol_version) _ _
        (if-IsRecorded a.pruned _ _
          (if-IsRecorded (leb max_processed_messages (ledger_size processed))
            (err replay_ledger_full, start) _ tt
            (decrypt_header-IsRecorded envelope.version envelope.ciphertext envelope.header start))
          tt)
        tt

  -- The text that is answered is the pending one of the record.
  abbrev pub IsPending : String → Receiver → Type 0
  IsPending text after =
      Option.map (λ (m : ProcessedMessage). m.pending_plaintext)
        (lookup peer_id id after.manager.processed_messages)
      ≡ some (some text)

  answer-IsPending :
      (result : Result Bytes × Receiver) (text : String)
      → IsRecorded result
      → (answer p d a peer_id id result).0 ≡ pending text
      → IsPending text (answer p d a peer_id id result).1
  answer-IsPending (ok plaintext, after) text h e = ground (arith, h, e)
  answer-IsPending (err why, after) text h e = ground (arith, e)

  pub decrypt_message_to_text-IsPending :
      (envelope : EncryptedEnvelope) (r : Receiver) (text : String)
      → (decrypt_message_to_text p d a peer_id id envelope r).0 ≡ pending text
      → IsPending text (decrypt_message_to_text p d a peer_id id envelope r).1
  unfolding decrypt_message_to_text
  decrypt_message_to_text-IsPending envelope r text e = ground (
    arith,
    e,
    answer-IsPending (decrypt_with_marker p d a peer_id id envelope r) text
        (decrypt_with_marker-IsRecorded envelope r),
  )
