-- ===== src/Server/Handlers/Message.antt =====
-- server/src/handlers/message.rs: sending, acknowledging, typing and read receipts.
pub mod Notifying
pub mod Sending
use cmp.Base.{
  ℕ, String, Bool, true, false, not, List, [], ◌∷◌, Option, none, some, leb, if◌then◌else◌, ◌==◌,
  nat_eq, length,
}
use cmp.Base.Bytes.{Bytes, ascii}
use cmp.Protocol.Types.{
  UserId, MessageId, EncryptedEnvelope, MessageHeader, pre_key, established, user_id, utf8_length,
  protocol_version, max_ciphertext_bytes, max_queued_page_bytes, max_queue_per_user, max_ack_batch,
  max_receipt_batch,
}
use cmp.Protocol.Messages.{
  ServerMessage, InboundMessage, incoming_message, message_delivered, message_sent,
  message_rejected, ack_success, peer_typing, read_receipt_sent, incoming_read_receipt, success,
}
use cmp.Server.Db.{Db, Result, ok, err}
use cmp.Server.Queue.{
  EnqueueRequest, EnqueueResult, recipient_not_found, prekey_reservation_invalid,
  signed_prekey_expired, message_id_conflict, acceptance_ledger_full, enqueue,
}
use cmp.Server.Queue
use cmp.Server.Drain.{confirm_acceptances, delete_messages}
use cmp.Server.Receipts.{
  ReceiptResult, already_acknowledged, collision, enqueue_receipt, acknowledge,
  confirm_sender_received,
}
use cmp.Server.Receipts
use cmp.Server.World.{World, Externals}
use cmp.Server.Connection.{send_to}
use cmp.Server.Replies.{
  Checked, pass, refuse, ◌>>=◌, ◌>>◌, or_refuse, require, fixed, error_400, error_404,
  error_500_generic,
}

unfoldable pub envelope_prekey_ids : MessageHeader → Option ℕ × Option ℕ
envelope_prekey_ids (pre_key h) =
    (some h.recipient_signed_prekey_id, h.recipient_one_time_prekey_id)
envelope_prekey_ids (established h) = (none, none)

-- `Err(response)` is a refusal.
unfoldable pub validate_enqueue_result : Result EnqueueResult → MessageId → Checked (Unit {0})
validate_enqueue_result (ok Queue.inserted) id = pass tt
validate_enqueue_result (ok Queue.duplicate) id = pass tt
validate_enqueue_result (ok Queue.queue_full) id =
    refuse (error_400 "recipient's message queue is full")
validate_enqueue_result (ok recipient_not_found) id = refuse (error_404 "not found")
validate_enqueue_result (ok prekey_reservation_invalid) id =
    refuse (message_rejected id "one-time pre-key reservation expired")
validate_enqueue_result (ok signed_prekey_expired) id =
    refuse (message_rejected id "signed pre-key expired")
validate_enqueue_result (ok message_id_conflict) id =
    refuse (error_400 "message ID already used with different content")
validate_enqueue_result (ok acceptance_ledger_full) id =
    refuse (error_400 "too many unconfirmed sent messages")
validate_enqueue_result (err why) id = refuse error_500_generic

-- What a send needs from the checks: the message to push and the request to the queue.
pub record Outgoing : Type 0 where
  pub inbound : InboundMessage
  pub request : EnqueueRequest

module _ (e : Externals) where
  unfoldable pub validate_b64_len : ℕ → String → Checked (Unit {0})
  unfolding fixed
  validate_b64_len n encoded = do
    decoded ← or_refuse (e.b64_decode encoded) (error_400 "invalid key encoding")
    _ ← or_refuse (fixed n decoded) (error_400 "invalid key length")
    pass tt

  unfoldable pub validate_header : MessageHeader → Checked (Unit {0})
  unfolding validate_b64_len
  validate_header (pre_key h) = do
    validate_b64_len 32 h.sender_identity_key
    validate_b64_len 32 h.sender_ephemeral_key
    validate_b64_len 32 h.ratchet.ratchet_key
  validate_header (established h) = validate_b64_len 32 h.ratchet_key

  -- An error's text is put into the reply that its callers make of it, `error_400`.
  unfoldable pub validate_envelope : EncryptedEnvelope → Checked (Unit {0})
  unfolding validate_header
  validate_envelope envelope = do
    require (envelope.version == protocol_version) (error_400 "unsupported protocol version")
    require (leb (utf8_length (ascii envelope.ciphertext)) max_ciphertext_bytes)
        (error_400 "ciphertext exceeds maximum size")
    _ ← or_refuse (e.b64_decode envelope.ciphertext) (error_400 "invalid ciphertext encoding")
    validate_header envelope.header

  -- The checks of `handle_send` before the queue is asked.
  unfoldable pub prepare_send :
      String → UserId → MessageId → EncryptedEnvelope → ℕ → Checked Outgoing
  unfolding validate_envelope envelope_prekey_ids
  prepare_send sender_id recipient_id message_id envelope now = do
    validate_envelope envelope
    let prekey_ids = envelope_prekey_ids envelope.header
    sender_user_id ← or_refuse (user_id sender_id) error_500_generic
    let inbound : InboundMessage = record {
      message_id = message_id;
      sender_id = sender_user_id;
      envelope = envelope;
      timestamp = now;
    }
    queued_page ← or_refuse (e.page_bytes (inbound ∷ [])) (error_400 "invalid envelope")
    require (leb queued_page max_queued_page_bytes)
        (error_400 "message exceeds queued delivery size")
    envelope_json ← or_refuse (e.envelope_to_json envelope) (error_400 "invalid envelope")
    pass (record {
      inbound = inbound;
      request = record {
        message_id = message_id;
        recipient_id = recipient_id;
        sender_id = sender_id;
        envelope_json = envelope_json;
        max_queue_per_user = max_queue_per_user;
        signed_prekey_id = prekey_ids.0;
        one_time_prekey_id = prekey_ids.1;
        now = now;
      };
    })

  -- The push to the recipient, and the delivery receipt to the sender if it was taken.
  unfoldable pub push_message : Outgoing → World → World
  push_message out w =
      let pushed = send_to e out.request.recipient_id (incoming_message out.inbound) w in
      if pushed.0
      then (send_to e out.request.sender_id (message_delivered (out.request.message_id ∷ []))
          pushed.1).1
      else pushed.1

  unfoldable pub after_enqueue : Outgoing → World → Checked (Unit {0}) → ServerMessage × World
  unfolding push_message
  after_enqueue out w (refuse m) = (m, w)
  after_enqueue out w (pass _) = (message_sent out.request.message_id, push_message out w)

  unfoldable pub send_with : ℕ → World → Checked Outgoing → ServerMessage × World
  unfolding after_enqueue validate_enqueue_result
  send_with now w (refuse m) = (m, w)
  send_with now w (pass out) =
      let r = enqueue e.digest w.db out.request now in
      after_enqueue out (record w { db = r.1 })
        (validate_enqueue_result (ok r.0) out.request.message_id)

  unfoldable pub handle_send :
      String → UserId → MessageId → EncryptedEnvelope → ℕ → World → ServerMessage × World
  unfolding prepare_send send_with
  handle_send sender_id recipient_id message_id envelope now w =
      send_with now w (prepare_send sender_id recipient_id message_id envelope now)

  -- A typing indicator goes to an online recipient only.
  unfoldable pub handle_typing : String → UserId → World → World
  handle_typing from to w = elim (user_id from) [
    | none ↦ w
    | some from_uid ↦ (send_to e to (peer_typing from_uid) w).1
  ]

  unfoldable pub after_receipt :
      UserId
      → UserId
      → MessageId
      → EncryptedEnvelope
      → World
      → Result ReceiptResult
      → Option ServerMessage × World
  after_receipt from to receipt_id envelope w (ok Receipts.inserted) =
      (none, (send_to e to (incoming_read_receipt from receipt_id envelope) w).1)
  after_receipt from to receipt_id envelope w (ok Receipts.duplicate) =
      (none, (send_to e to (incoming_read_receipt from receipt_id envelope) w).1)
  after_receipt from to receipt_id envelope w (ok already_acknowledged) =
      (some (read_receipt_sent receipt_id), w)
  after_receipt from to receipt_id envelope w (ok Receipts.queue_full) =
      (some (error_400 "recipient read receipt queue is full"), w)
  after_receipt from to receipt_id envelope w (ok collision) =
      (some (error_400 "read receipt ID already exists"), w)
  after_receipt from to receipt_id envelope w (err why) = (some error_500_generic, w)

  -- What goes into the queue of receipts.
  unfoldable pub store_receipt :
      String
      → UserId
      → UserId
      → MessageId
      → EncryptedEnvelope
      → Option String
      → World
      → Option ServerMessage × World
  unfolding after_receipt
  store_receipt from from_uid to receipt_id envelope none w =
      (some (error_400 "invalid envelope"), w)
  store_receipt from from_uid to receipt_id envelope (some envelope_json) w =
      let r =
        enqueue_receipt w.db
          (record {
            receipt_id = receipt_id;
            recipient_id = to;
            sender_id = from;
            envelope = envelope_json;
            acknowledged = false;
          })
          max_queue_per_user in
      after_receipt from_uid to receipt_id envelope (record w { db = r.1 }) r.0

  unfoldable pub relay_receipt :
      String
      → UserId
      → MessageId
      → EncryptedEnvelope
      → Checked (Unit {0})
      → World
      → Option ServerMessage × World
  unfolding store_receipt
  relay_receipt from to receipt_id envelope (refuse m) w = (some m, w)
  relay_receipt from to receipt_id envelope (pass _) w = elim (user_id from) [
    | none ↦ (none, w)
    | some from_uid ↦
        store_receipt from from_uid to receipt_id envelope (e.envelope_to_json envelope) w
  ]

  unfoldable pub handle_read_receipt :
      String → UserId → MessageId → EncryptedEnvelope → World → Option ServerMessage × World
  unfolding validate_envelope relay_receipt
  handle_read_receipt from to receipt_id envelope w =
      relay_receipt from to receipt_id envelope (validate_envelope envelope) w

  -- An id that is no UUID is skipped.
  unfoldable pub notify_receipt_senders : List (String × String) → World → World
  notify_receipt_senders [] w = w
  notify_receipt_senders ((receipt_id, sender_id) ∷ rest) w =
      notify_receipt_senders rest (elim (e.parse_uuid receipt_id) [
        | none ↦ w
        | some id ↦ (send_to e sender_id (read_receipt_sent id) w).1
      ])

  unfoldable pub handle_read_receipt_ack :
      String → MessageId → List MessageId → World → ServerMessage × World
  unfolding notify_receipt_senders
  handle_read_receipt_ack recipient_id ack_id receipt_ids w =
      let r = acknowledge w.db recipient_id receipt_ids in
      if leb (length receipt_ids) max_receipt_batch
      then (ack_success ack_id receipt_ids, notify_receipt_senders r.0 (record w { db = r.1 }))
      else (error_400 "read receipt ack exceeds maximum size", w)

unfoldable pub handle_message_sent_ack :
    String → List MessageId → World → Option ServerMessage × World
handle_message_sent_ack sender_id message_ids w =
    if leb (length message_ids) max_ack_batch
    then (none, record w { db = confirm_acceptances w.db sender_id message_ids })
    else (some (error_400 "ack batch exceeds maximum size"), w)

unfoldable pub handle_ack :
    String → MessageId → List MessageId → World → Option ServerMessage × World
handle_ack recipient_id ack_id message_ids w =
    if leb (length message_ids) max_ack_batch
    then (
      some (ack_success ack_id message_ids),
      record w { db = (delete_messages w.db recipient_id message_ids).1 },
    )
    else (some (error_400 "ack batch exceeds maximum size"), w)

unfoldable pub handle_read_receipt_sent_ack :
    String → List MessageId → World → ServerMessage × World
handle_read_receipt_sent_ack sender_id receipt_ids w =
    if leb (length receipt_ids) max_receipt_batch
    then (success, record w { db = confirm_sender_received w.db sender_id receipt_ids })
    else (error_400 "read receipt confirmation exceeds maximum size", w)
