-- ===== src/Client/Outbox.antt =====
-- client/src/crypto_outbox.rs: what waits for the server's confirmation.
use cmp.Base.{ℕ, ◌+◌, ◌*◌, ◌/◌, String, List, [], ◌∷◌, leb, ltb, if◌then◌else◌, length}
use cmp.Base.Bytes.{ascii}
use cmp.Protocol.Types.{UserId, MessageId, EncryptedEnvelope, WireOneTimePreKey, utf8_length}
use cmp.Protocol.Messages.{
  ClientMessage, send_message, send_read_receipt, ack, ack_read_receipt, upload_prekeys,
  rotate_signed_prekey,
}

-- The errors that the operations below give.
pub data CryptoError : Type 0 where
  no_session ratchet_failed persistence outbox_full awaiting_prekey_admission bad_bundle
        bad_envelope x3dh_failed decrypt_failed replay_ledger_full :
      CryptoError
  unsupported_version : ℕ → CryptoError

pub data Result (A : Type 0) : Type 0 where
  ok : A → Result A
  err : CryptoError → Result A

pub data PendingOutbound : Type 0 where
  message : UserId → MessageId → EncryptedEnvelope → PendingOutbound
  read_receipt : UserId → MessageId → EncryptedEnvelope → PendingOutbound
  pending_ack : MessageId → List MessageId → PendingOutbound
  read_receipt_ack : MessageId → List MessageId → PendingOutbound
  prekey_upload : MessageId → List WireOneTimePreKey → PendingOutbound
  signed_prekey_rotation : MessageId → ℕ → String → String → PendingOutbound

unfoldable pub to_client_message : PendingOutbound → ClientMessage
to_client_message (message recipient_id message_id envelope) =
    send_message recipient_id message_id envelope
to_client_message (read_receipt recipient_id receipt_id envelope) =
    send_read_receipt recipient_id receipt_id envelope
to_client_message (pending_ack ack_id message_ids) = ack ack_id message_ids
to_client_message (read_receipt_ack ack_id receipt_ids) = ack_read_receipt ack_id receipt_ids
to_client_message (prekey_upload upload_id prekeys) = upload_prekeys upload_id prekeys
to_client_message (signed_prekey_rotation rotation_id key_id public_key signature) =
    rotate_signed_prekey rotation_id key_id public_key signature

-- `str::len`.
abbrev pub text_length : String → ℕ
text_length s = utf8_length (ascii s)

unfoldable pub ciphertext_len : PendingOutbound → ℕ
ciphertext_len (message recipient_id message_id envelope) = text_length envelope.ciphertext
ciphertext_len (read_receipt recipient_id receipt_id envelope) = text_length envelope.ciphertext
ciphertext_len (pending_ack ack_id message_ids) = length message_ids * 36
ciphertext_len (read_receipt_ack ack_id receipt_ids) = length receipt_ids * 36
ciphertext_len (prekey_upload upload_id prekeys) = length prekeys * 48
ciphertext_len (signed_prekey_rotation rotation_id key_id public_key signature) =
    text_length public_key + text_length signature

-- A MessageId is its text.
unfoldable pub correlation_id : PendingOutbound → String
correlation_id (message recipient_id message_id envelope) = message_id
correlation_id (read_receipt recipient_id receipt_id envelope) = receipt_id
correlation_id (pending_ack ack_id message_ids) = ack_id
correlation_id (read_receipt_ack ack_id receipt_ids) = ack_id
correlation_id (prekey_upload upload_id prekeys) = upload_id
correlation_id (signed_prekey_rotation rotation_id key_id public_key signature) = rotation_id

abbrev pub max_pending_outbound_items : ℕ
max_pending_outbound_items = 1000

abbrev pub max_pending_outbound_bytes : ℕ
max_pending_outbound_bytes = 64 * 1024 * 1024

unfoldable pub total_len : List PendingOutbound → ℕ
unfolding ciphertext_len
total_len [] = 0
total_len (p ∷ pending) = ciphertext_len p + total_len pending

-- What a plaintext of so many bytes takes: 16 bytes of a tag, and base64.
abbrev pub sealed_len : ℕ → ℕ
sealed_len n = (n + 18) / 3 * 4

unfoldable pub ensure_capacity : List PendingOutbound → ℕ → Result (Unit {0})
unfolding total_len
ensure_capacity pending additional_plaintext_bytes =
    if leb max_pending_outbound_items (length pending)
    then err outbox_full
    else if ltb max_pending_outbound_bytes
        (total_len pending + sealed_len additional_plaintext_bytes)
    then err outbox_full
    else ok tt
