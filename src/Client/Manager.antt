-- ===== src/Client/Manager.antt =====
-- client/src/crypto_mgr.rs and crypto_mgr_outbound.rs: the sessions with the peers, the outbox, and
-- the processed messages. Whether SQLite stored what an operation writes is its argument `saved`.
pub mod Encryption
pub mod Acknowledging
pub mod Failure
pub mod Capacity
pub mod Limits
pub mod History
pub mod Arrival
pub mod Decryption
pub mod Recording
pub mod Redelivery
use cmp.Base.{
  ℕ, zero, suc, ◌*◌, String, Bool, true, false, ◌&&◌, List, [], ◌∷◌, ◌++◌, map, Option, none, some,
  if◌then◌else◌, take, length, leb, ltb, ◌==◌, string_eq, list_eq, is_some,
}
use mathlib.Core.Option
use cmp.Base.Bytes.{Bytes}
use cmp.Base.HashMap.{HashMap, get, insert, remove}
use cmp.Crypto.Keys.{IdentityKeyPair}
use cmp.Crypto.Session.{SessionState}
use cmp.Protocol.Types.{
  UserId, MessageId, EncryptedEnvelope, MessageHeader, pre_key, established, WireRatchetHeader,
  protocol_version, max_receipt_batch, max_ciphertext_bytes,
}
use cmp.Protocol.Messages.{ClientMessage}
use cmp.Client.Outbox.{
  CryptoError, no_session, ratchet_failed, persistence, outbox_full, awaiting_prekey_admission,
  Result, ok, err, PendingOutbound, message, read_receipt, pending_ack, read_receipt_ack,
  prekey_upload, signed_prekey_rotation, to_client_message, ensure_capacity, sealed_len,
}
use cmp.Client.Replay.{Processed, ProcessedMessage}

pub record StoredX3dhResult : Type 0 where
  pub ephemeral_public : Bytes
  pub recipient_signed_prekey_id : ℕ
  pub recipient_one_time_prekey_id : Option ℕ

pub record PeerSession : Type 0 where
  pub ratchet : SessionState
  pub prekey_header : Option StoredX3dhResult
  pub prekey_expires_at : Option ℕ

-- `CryptoManager`, less its own pre-keys and the names of pending peers.
pub record Manager : Type 0 where
  pub identity : IdentityKeyPair
  pub sessions : HashMap String PeerSession
  pub pending_outbound : List PendingOutbound
  pub processed_messages : Processed

-- `position`, `Vec::remove` and `Vec::insert`.
unfoldable pub position : (PendingOutbound → Bool) → List PendingOutbound → Option ℕ
position p [] = none
position p (x ∷ xs) = let rest = Option.map suc (position p xs) in if p x then some 0 else rest

unfoldable pub at : ℕ → List PendingOutbound → Option PendingOutbound
at n [] = none
at zero (x ∷ xs) = some x
at (suc n) (x ∷ xs) = at n xs

unfoldable pub remove_at : ℕ → List PendingOutbound → List PendingOutbound
remove_at n [] = []
remove_at zero (x ∷ xs) = xs
remove_at (suc n) (x ∷ xs) = x ∷ remove_at n xs

unfoldable pub insert_at : ℕ → PendingOutbound → List PendingOutbound → List PendingOutbound
insert_at zero y xs = y ∷ xs
insert_at (suc n) y [] = y ∷ []
insert_at (suc n) y (x ∷ xs) = x ∷ insert_at n y xs

abbrev pub is_message : MessageId → PendingOutbound → Bool
is_message id (message recipient_id message_id envelope) = message_id == id
is_message id _ = false

abbrev pub is_read_receipt : MessageId → PendingOutbound → Bool
is_read_receipt id (read_receipt recipient_id receipt_id envelope) = receipt_id == id
is_read_receipt id _ = false

-- Entry `i` is taken out; it is put back if the store fails.
unfoldable pub delete_at : Bool → Manager → ℕ → Option PendingOutbound → Bool × Manager
unfolding remove_at insert_at
delete_at saved m i none = (true, m)
delete_at saved m i (some pending) =
    let removed = remove_at i m.pending_outbound in
    if saved
    then (true, record m { pending_outbound = removed })
    else (false, record m { pending_outbound = insert_at i pending removed })

unfoldable pub confirm : Bool → (PendingOutbound → Bool) → Manager → Bool × Manager
unfolding position at delete_at
confirm saved p m = elim (position p m.pending_outbound) [
  | none ↦ (true, m)
  | some i ↦ delete_at saved m i (at i m.pending_outbound)
]

unfoldable pub confirm_message_sent : Bool → MessageId → Manager → Bool × Manager
unfolding confirm
confirm_message_sent saved message_id = confirm saved (is_message message_id)

unfoldable pub confirm_read_receipt_sent : Bool → MessageId → Manager → Bool × Manager
unfolding confirm
confirm_read_receipt_sent saved receipt_id = confirm saved (is_read_receipt receipt_id)

-- `push`, `persist_outbound`, and `pop` if the store fails.
unfoldable pub push_pending : Bool → PendingOutbound → Manager → Result ClientMessage × Manager
unfolding to_client_message
push_pending saved pending m =
    if saved
    then (
      ok (to_client_message pending),
      record m { pending_outbound = m.pending_outbound ++ pending ∷ [] },
    )
    else (err persistence, m)

unfoldable pub when_ok :
    Result (Unit {0}) → Result ClientMessage × Manager → Manager → Result ClientMessage × Manager
when_ok (ok _) then_ m = then_
when_ok (err e) then_ m = (err e, m)

-- `ack_id` is the new random id.
unfoldable pub queue_ack :
    Bool → MessageId → List MessageId → Manager → Result ClientMessage × Manager
unfolding ensure_capacity push_pending when_ok
queue_ack saved ack_id message_ids m =
    when_ok (ensure_capacity m.pending_outbound (length message_ids * 36))
      (push_pending saved (pending_ack ack_id message_ids) m) m

unfoldable pub queue_read_receipt_ack :
    Bool → MessageId → List MessageId → Manager → Result ClientMessage × Manager
unfolding ensure_capacity push_pending when_ok
queue_read_receipt_ack saved ack_id receipt_ids m =
    when_ok (ensure_capacity m.pending_outbound (length receipt_ids * 36))
      (push_pending saved (read_receipt_ack ack_id receipt_ids) m) m

-- What is sent again after a new login.
unfoldable pub pending_messages : Manager → List ClientMessage
unfolding to_client_message
pending_messages m = map to_client_message m.pending_outbound
