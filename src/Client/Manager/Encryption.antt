-- ===== src/Client/Manager/Encryption.antt =====
-- client/src/crypto_mgr.rs and crypto_mgr_outbound.rs: the encryption of what is sent, and the session
-- that goes when the server rejects a first message.
use cmp.Base.{
  ℕ, String, Bool, false, List, Option, none, some, if◌then◌else◌, take, length, ltb, ◌==◌,
  string_eq,
}
use cmp.Base.Bytes.{Bytes}
use cmp.Base.HashMap.{get, insert, remove}
use cmp.Base.Rows.{exists}
use cmp.Crypto.Primitives.{Primitives}
use cmp.Crypto.Keys.{verifying_key}
use cmp.Crypto.Session.{SessionState, RatchetHeader, RatchetMessage}
use cmp.Crypto.Error
use cmp.Crypto.Ratchet.{encrypt}
use cmp.Protocol.Aad.{prekey, ratchet}
use cmp.Protocol.Types.{
  UserId, MessageId, EncryptedEnvelope, MessageHeader, pre_key, established, WireRatchetHeader,
  protocol_version, max_receipt_batch, max_ciphertext_bytes,
}
use cmp.Protocol.Messages.{ClientMessage}
use cmp.Client.Outbox.{
  no_session, ratchet_failed, persistence, awaiting_prekey_admission, Result, ok, err,
  PendingOutbound, message, read_receipt, ensure_capacity, sealed_len,
}
use cmp.Client.Manager.{
  StoredX3dhResult, PeerSession, Manager, position, at, is_message, remove_at, insert_at,
  push_pending,
}

-- The first message to this recipient waits for the server.
abbrev pub is_first_message_to : UserId → PendingOutbound → Bool
is_first_message_to recipient (message recipient_id message_id envelope) = elim envelope.header [
  | pre_key h ↦ recipient_id == recipient
  | established h ↦ false
]
is_first_message_to recipient _ = false

-- `restore_entry`.
unfoldable pub restore_entry : String → Option PeerSession → Manager → Manager
restore_entry peer_id (some session) m = record m { sessions = insert peer_id session m.sessions }
restore_entry peer_id none m = record m { sessions = remove peer_id m.sessions }

-- `b64` is base64's encoder, and `ids_to_json` is serde_json's of a list of ids.
module _ (p : Primitives) (b64 : Bytes → String) (ids_to_json : List MessageId → Option Bytes) where
  unfoldable pub envelope_aad : Bytes → Option StoredX3dhResult → Bytes
  envelope_aad identity_public none = ratchet protocol_version
  envelope_aad identity_public (some x) =
      prekey protocol_version identity_public x.ephemeral_public x.recipient_signed_prekey_id
        x.recipient_one_time_prekey_id

  unfoldable pub wire_header : RatchetHeader → WireRatchetHeader
  wire_header header = record {
    ratchet_key = b64 header.ratchet_key;
    previous_chain_length = header.previous_chain_length;
    message_number = header.message_number;
  }

  -- `session.prekey_header.take()` decides the kind of the header.
  unfoldable pub message_header :
      Bytes → Option StoredX3dhResult → WireRatchetHeader → MessageHeader
  message_header identity_public none proto_ratchet = established proto_ratchet
  message_header identity_public (some x) proto_ratchet = pre_key (record {
    sender_identity_key = b64 identity_public;
    sender_ephemeral_key = b64 x.ephemeral_public;
    recipient_signed_prekey_id = x.recipient_signed_prekey_id;
    recipient_one_time_prekey_id = x.recipient_one_time_prekey_id;
    ratchet = proto_ratchet;
  })

  abbrev clear_expiry : Option StoredX3dhResult → Option ℕ → Option ℕ
  clear_expiry none expires = expires
  clear_expiry (some x) expires = none

  -- The match on what the ratchet answered. The session in the map has been changed in place.
  unfoldable pub after_encrypt :
      String
      → PeerSession
      → Manager
      → Error.Result RatchetMessage
      → SessionState
      → Result EncryptedEnvelope × Manager
  unfolding wire_header message_header
  after_encrypt peer_id session m (Error.err why) state = (
    err ratchet_failed,
    record m { sessions = insert peer_id (record session { ratchet = state }) m.sessions },
  )
  after_encrypt peer_id session m (Error.ok r) state = (
    ok (record {
      version = protocol_version;
      header =
          message_header (verifying_key p m.identity) session.prekey_header (wire_header r.header);
      ciphertext = b64 r.ciphertext;
    }),
    record m {
      sessions =
          insert peer_id
            (record {
              ratchet = state;
              prekey_header = none;
              prekey_expires_at = clear_expiry session.prekey_header session.prekey_expires_at;
            })
            m.sessions;
    },
  )

  -- The original session is what the map had; the callers read it there.
  unfoldable pub advance_encryption :
      String → Bytes → Option PeerSession → Manager → Result EncryptedEnvelope × Manager
  unfolding after_encrypt envelope_aad
  advance_encryption peer_id plaintext none m = (err no_session, m)
  advance_encryption peer_id plaintext (some session) m =
      let aad = envelope_aad (verifying_key p m.identity) session.prekey_header in
      let r = encrypt p plaintext aad session.ratchet in after_encrypt peer_id session m r.0 r.1

  -- On a failure of the store the original session is put back, and the entry of the outbox is popped.
  unfoldable pub settle :
      String → Option PeerSession → Result ClientMessage × Manager → Result ClientMessage × Manager
  unfolding restore_entry
  settle peer_id original (ok m, after) = (ok m, after)
  settle peer_id original (err e, after) = (err e, restore_entry peer_id original after)

  unfoldable pub enqueue_envelope :
      Bool
      → String
      → Option PeerSession
      → (EncryptedEnvelope → PendingOutbound)
      → Result EncryptedEnvelope × Manager
      → Result ClientMessage × Manager
  unfolding push_pending settle
  enqueue_envelope saved peer_id original make (err e, m) = (err e, m)
  enqueue_envelope saved peer_id original make (ok envelope, m) =
      settle peer_id original (push_pending saved (make envelope) m)

  unfoldable pub encrypt_within :
      Bool
      → String
      → (EncryptedEnvelope → PendingOutbound)
      → Bytes
      → Result (Unit {0})
      → Manager
      → Result ClientMessage × Manager
  unfolding advance_encryption enqueue_envelope
  encrypt_within saved peer_id make plaintext (err e) m = (err e, m)
  encrypt_within saved peer_id make plaintext (ok _) m =
      let original = get peer_id m.sessions in
      enqueue_envelope saved peer_id original make (advance_encryption peer_id plaintext original m)

  unfoldable pub encrypt_message :
      Bool → String → UserId → MessageId → Bytes → Manager → Result ClientMessage × Manager
  unfolding encrypt_within ensure_capacity
  encrypt_message saved peer_id recipient_id message_id plaintext m =
      if exists (is_first_message_to recipient_id) m.pending_outbound
      then (err awaiting_prekey_admission, m)
      else encrypt_within saved peer_id (message recipient_id message_id) plaintext
          (ensure_capacity m.pending_outbound (length plaintext)) m

  unfoldable pub encrypt_receipt_text :
      Bool → String → UserId → MessageId → Option Bytes → Manager → Result ClientMessage × Manager
  unfolding encrypt_within ensure_capacity
  encrypt_receipt_text saved peer_id recipient_id receipt_id none m = (err ratchet_failed, m)
  encrypt_receipt_text saved peer_id recipient_id receipt_id (some plaintext) m =
      if ltb max_ciphertext_bytes (sealed_len (length plaintext))
      then (err ratchet_failed, m)
      else encrypt_within saved peer_id (read_receipt recipient_id receipt_id) plaintext
          (ensure_capacity m.pending_outbound (length plaintext)) m

  -- `receipt_id` is the new random id.
  unfoldable pub encrypt_read_receipt :
      Bool → String → UserId → MessageId → List MessageId → Manager → Result ClientMessage × Manager
  unfolding encrypt_receipt_text
  encrypt_read_receipt saved peer_id recipient_id receipt_id message_ids m =
      encrypt_receipt_text saved peer_id recipient_id receipt_id
        (ids_to_json (take max_receipt_batch message_ids)) m

-- Entry `i` is a message: its recipient's session goes with it.
unfoldable pub reject_at :
    Bool → Manager → ℕ → Option PendingOutbound → Result (Option UserId) × Manager
unfolding remove_at insert_at restore_entry
reject_at saved m i (some (message recipient_id message_id envelope)) =
    let removed = record m {
      sessions = remove recipient_id m.sessions;
      pending_outbound = remove_at i m.pending_outbound;
    } in
    if saved then (ok (some recipient_id), removed) else (
      err persistence,
      record (restore_entry recipient_id (get recipient_id m.sessions) removed) {
        pending_outbound =
            insert_at i (message recipient_id message_id envelope) (remove_at i m.pending_outbound);
      },
    )
reject_at saved m i _ = (ok none, m)

unfoldable pub reject_message : Bool → MessageId → Manager → Result (Option UserId) × Manager
unfolding position at reject_at
reject_message saved message_id m = elim (position (is_message message_id) m.pending_outbound) [
  | none ↦ (ok none, m)
  | some i ↦ reject_at saved m i (at i m.pending_outbound)
]
