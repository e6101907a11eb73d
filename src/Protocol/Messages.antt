-- ===== src/Protocol/Messages.antt =====
-- protocol/src/messages.rs: what a client sends to the relay and what the relay sends back.
use cmp.Base.{ℕ, String, Bool, List}
use cmp.Protocol.Types.{UserId, MessageId, EncryptedEnvelope, WireOneTimePreKey, PreKeyBundle}

-- A message from another user, with its time.
pub record InboundMessage : Type 0 where
  pub message_id : MessageId
  pub sender_id : UserId
  pub envelope : EncryptedEnvelope
  pub timestamp : ℕ

pub data ClientMessage : Type 0 where
  register : UserId → PreKeyBundle → List WireOneTimePreKey → ClientMessage
  auth_challenge : UserId → ClientMessage
  auth_response : String → ClientMessage
  upload_prekeys : MessageId → List WireOneTimePreKey → ClientMessage
  rotate_signed_prekey : MessageId → ℕ → String → String → ClientMessage
  fetch_prekey_bundle : UserId → ClientMessage
  send_message : UserId → MessageId → EncryptedEnvelope → ClientMessage
  ack : MessageId → List MessageId → ClientMessage
  ack_message_sent : List MessageId → ClientMessage
  typing : UserId → ClientMessage
  send_read_receipt : UserId → MessageId → EncryptedEnvelope → ClientMessage
  ack_read_receipt : MessageId → List MessageId → ClientMessage
  ack_read_receipt_sent : List MessageId → ClientMessage

pub data ServerMessage : Type 0 where
  challenge : String → ℕ → String → ServerMessage
  auth_success : ServerMessage
  auth_failure : String → ServerMessage
  prekey_bundle_response : UserId → PreKeyBundle → ServerMessage
  incoming_message : InboundMessage → ServerMessage
  queued_messages : List InboundMessage → ServerMessage
  message_sent : MessageId → ServerMessage
  message_rejected : MessageId → String → ServerMessage
  ack_success : MessageId → List MessageId → ServerMessage
  read_receipt_sent : MessageId → ServerMessage
  success : ServerMessage
  prekey_low : ℕ → ServerMessage
  prekeys_uploaded : MessageId → Bool → ℕ → ServerMessage
  signed_prekey_rotated : MessageId → Bool → Bool → ℕ → ServerMessage
  error : ℕ → String → ServerMessage
  peer_typing : UserId → ServerMessage
  message_delivered : List MessageId → ServerMessage
  incoming_read_receipt : UserId → MessageId → EncryptedEnvelope → ServerMessage
