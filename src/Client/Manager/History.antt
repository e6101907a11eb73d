-- ===== src/Client/Manager/History.antt =====
-- crypto_mgr.rs: the outbox over any sequence of operations.
use cmp.Base.{
  ◌*◌, String, Bool, List, [], ◌∷◌, Option, none, some, arith, refl, Bool-cases, inl, inr, length,
  string_eq, list_eq, ltb, take,
}
use cmp.Base.Bytes.{Bytes}
use cmp.Base.Rows.{exists}
use cmp.Crypto.Primitives.{Primitives}
use cmp.Protocol.Types.{UserId, MessageId, max_receipt_batch, max_ciphertext_bytes}
use cmp.Client.Outbox.{
  message, read_receipt, pending_ack, read_receipt_ack, ciphertext_len, sealed_len, ensure_capacity,
}
use cmp.Client.Manager.{
  Manager, queue_ack, queue_read_receipt_ack, confirm_message_sent, confirm_read_receipt_sent,
  is_message, is_read_receipt,
}
use cmp.Client.Manager.Encryption.{
  is_first_message_to, encrypt_message, encrypt_receipt_text, encrypt_read_receipt, reject_message,
}
use cmp.Client.Manager.Acknowledging.{confirm_acked}
use cmp.Client.Manager.Capacity.{
  Within, queue-Within, confirm-Within, confirm_acked-Within, reject_message-Within,
}
use cmp.Client.Manager.Limits.{TagLength, Base64Length, encrypt_within-Within}

-- The operations on the outbox; `saved` tells whether SQLite stored the change.
pub data Operation : Type 0 where
  sends : Bool → String → UserId → MessageId → Bytes → Operation
  reads : Bool → String → UserId → MessageId → List MessageId → Operation
  acks : Bool → MessageId → List MessageId → Operation
  acks_receipts : Bool → MessageId → List MessageId → Operation
  sent receipted rejected : Bool → MessageId → Operation
  acked : Bool → MessageId → List MessageId → Operation

module _ (p : Primitives) (b64 : Bytes → String) (ids_to_json : List MessageId → Option Bytes) where
  unfoldable pub perform : Operation → Manager → Manager
  perform (sends saved peer to id text) m =
      (encrypt_message p b64 ids_to_json saved peer to id text m).1
  perform (reads saved peer to id ids) m =
      (encrypt_read_receipt p b64 ids_to_json saved peer to id ids m).1
  perform (acks saved id ids) m = (queue_ack saved id ids m).1
  perform (acks_receipts saved id ids) m = (queue_read_receipt_ack saved id ids m).1
  perform (sent saved id) m = (confirm_message_sent saved id m).1
  perform (receipted saved id) m = (confirm_read_receipt_sent saved id m).1
  perform (rejected saved id) m = (reject_message saved id m).1
  perform (acked saved id ids) m = (confirm_acked saved id ids m).1

  unfoldable pub run : List Operation → Manager → Manager
  unfolding perform
  run [] m = m
  run (o ∷ os) m = run os (perform o m)

  encrypt_message-Within :
      (saved : Bool) (peer : String) (to : UserId) (id : MessageId) (text : Bytes) (m : Manager)
      → TagLength p
      → Base64Length b64
      → Within m.pending_outbound
      → Within (encrypt_message p b64 ids_to_json saved peer to id text m).1.pending_outbound
  unfolding encrypt_message ciphertext_len
  encrypt_message-Within saved peer to id text m tag b64_len h =
      elim (Bool-cases (exists (is_first_message_to to) m.pending_outbound)) [
        | inl waiting ↦ rw waiting h
        | inr free ↦ rw free (
            encrypt_within-Within p b64 ids_to_json saved peer (message to id) text m
              (ensure_capacity m.pending_outbound (length text)) tag b64_len (λ v. refl) refl h)
      ]

  encrypt_receipt_text-Within :
      (saved : Bool) (peer : String) (to : UserId) (id : MessageId) (o : Option Bytes) (m : Manager)
      → TagLength p
      → Base64Length b64
      → Within m.pending_outbound
      → Within (encrypt_receipt_text p b64 ids_to_json saved peer to id o m).1.pending_outbound
  unfolding encrypt_receipt_text ciphertext_len
  encrypt_receipt_text-Within saved peer to id none m tag b64_len h = h
  encrypt_receipt_text-Within saved peer to id (some text) m tag b64_len h =
      elim (Bool-cases (ltb max_ciphertext_bytes (sealed_len (length text)))) [
        | inl large ↦ rw large h
        | inr small ↦ rw small (
            encrypt_within-Within p b64 ids_to_json saved peer (read_receipt to id) text m
              (ensure_capacity m.pending_outbound (length text)) tag b64_len (λ v. refl) refl h)
      ]

  perform-Within :
      (o : Operation) (m : Manager)
      → TagLength p
      → Base64Length b64
      → Within m.pending_outbound
      → Within (perform o m).pending_outbound
  unfolding perform encrypt_read_receipt queue_ack queue_read_receipt_ack confirm_message_sent
      confirm_read_receipt_sent ciphertext_len
  perform-Within (sends saved peer to id text) m tag b64_len h =
      encrypt_message-Within saved peer to id text m tag b64_len h
  perform-Within (reads saved peer to id ids) m tag b64_len h =
      encrypt_receipt_text-Within saved peer to id (ids_to_json (take max_receipt_batch ids)) m tag
        b64_len h
  perform-Within (acks saved id ids) m tag b64_len h =
      queue-Within saved (pending_ack id ids) (length ids * 36) m (omega arith) h
  perform-Within (acks_receipts saved id ids) m tag b64_len h =
      queue-Within saved (read_receipt_ack id ids) (length ids * 36) m (omega arith) h
  perform-Within (sent saved id) m tag b64_len h = confirm-Within saved (is_message id) m h
  perform-Within (receipted saved id) m tag b64_len h =
      confirm-Within saved (is_read_receipt id) m h
  perform-Within (rejected saved id) m tag b64_len h = reject_message-Within saved id m h
  perform-Within (acked saved id ids) m tag b64_len h = confirm_acked-Within saved id ids m h

  -- Whatever messages, read receipts and acks the client makes, and whatever the server confirms or
  -- rejects, also where SQLite fails to store a change: an outbox that was within 1000 entries and
  -- 64 MiB stays within them. The reckoned size of a plaintext is right, as the tag of AES-GCM has 16
  -- bytes and base64 makes four characters of each three bytes that are begun.
  pub run-Within :
      (os : List Operation) (m : Manager)
      → TagLength p
      → Base64Length b64
      → Within m.pending_outbound
      → Within (run os m).pending_outbound
  unfolding run
  run-Within [] m tag b64_len h = h
  run-Within (o ∷ os) m tag b64_len h =
      run-Within os (perform o m) tag b64_len (perform-Within o m tag b64_len h)
