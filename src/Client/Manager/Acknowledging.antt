-- ===== src/Client/Manager/Acknowledging.antt =====
-- client/src/crypto_mgr.rs: the record of processed messages, and the confirmation of an ack.
use cmp.Base.{
  ℕ, String, Bool, true, false, List, [], ◌∷◌, Option, none, some, if◌then◌else◌, ◌==◌, string_eq,
  list_eq,
}
use cmp.Base.HashMap.{HashMap, get, insert, remove}
use cmp.Protocol.Types.{MessageId}
use cmp.Client.Outbox.{PendingOutbound, pending_ack, read_receipt_ack}
use cmp.Client.Replay.{Processed, ProcessedMessage, cons_unless_empty, prune_processed}
use cmp.Client.Manager.{Manager, position, at, remove_at, insert_at}

abbrev pub is_ack : MessageId → PendingOutbound → Bool
is_ack id (pending_ack ack_id message_ids) = ack_id == id
is_ack id (read_receipt_ack ack_id receipt_ids) = ack_id == id
is_ack id _ = false

-- `expected_ids`.
unfoldable pub expected_ids : PendingOutbound → Option (List MessageId)
expected_ids (pending_ack ack_id message_ids) = some message_ids
expected_ids (read_receipt_ack ack_id receipt_ids) = some receipt_ids
expected_ids _ = none

unfoldable pub remove_ids :
    List MessageId → HashMap String ProcessedMessage → HashMap String ProcessedMessage
remove_ids [] messages = messages
remove_ids (id ∷ ids) messages = remove_ids ids (remove id messages)

-- The loops over the ids and the peers, and `retain`.
unfoldable pub remove_acked : List MessageId → Processed → Processed
unfolding remove_ids
remove_acked ids [] = []
remove_acked ids ((peer, messages) ∷ processed) =
    cons_unless_empty peer (remove_ids ids messages) (remove_acked ids processed)

unfoldable pub acked_at :
    Bool → List MessageId → Manager → ℕ → Option PendingOutbound → Bool × Manager
unfolding expected_ids remove_acked remove_at insert_at
acked_at saved message_ids m i none = (true, m)
acked_at saved message_ids m i (some pending) = elim (expected_ids pending) [
  | none ↦ (true, m)
  | some expected ↦
      if expected == message_ids
      then (if saved
          then (
            true,
            record m {
              pending_outbound = remove_at i m.pending_outbound;
              processed_messages = remove_acked expected m.processed_messages;
            },
          )
          else (
            false,
            record m { pending_outbound = insert_at i pending (remove_at i m.pending_outbound) },
          ))
      else (true, m)
]

unfoldable pub confirm_acked : Bool → MessageId → List MessageId → Manager → Bool × Manager
unfolding position at acked_at
confirm_acked saved ack_id message_ids m = elim (position (is_ack ack_id) m.pending_outbound) [
  | none ↦ (true, m)
  | some i ↦ acked_at saved message_ids m i (at i m.pending_outbound)
]

abbrev pub messages_of : String → Processed → HashMap String ProcessedMessage
messages_of peer_id processed = elim (get peer_id processed) [
  | none ↦ []
  | some messages ↦ messages
]

-- The pending plaintext is taken, and put back if the store fails.
unfoldable pub confirm_inbound_stored : Bool → String → MessageId → Manager → Bool × Manager
confirm_inbound_stored saved peer_id message_id m =
    elim (get message_id (messages_of peer_id m.processed_messages)) [
      | none ↦ (true, m)
      | some processed ↦
          let plaintext = if saved then none else processed.pending_plaintext in
          (
            saved,
            record m {
              processed_messages =
                  insert peer_id
                    (insert message_id (record processed { pending_plaintext = plaintext })
                      (messages_of peer_id m.processed_messages))
                    m.processed_messages;
            },
          )
    ]

-- `text` is the plaintext, or a notice that it is no UTF-8. The answer is whether the message is new.
unfoldable pub mark_processed : String → MessageId → String → ℕ → Processed → Bool × Processed
unfolding prune_processed
mark_processed peer_id message_id text now processed =
    let pruned = prune_processed processed now in
    let messages = messages_of peer_id pruned in
    (
      elim (get message_id messages) [ none ↦ true | some old ↦ false ],
      insert peer_id
          (insert message_id (record { pending_plaintext = some text; processed_at = now })
            messages)
          pruned,
    )

abbrev insert_unless_empty : String → HashMap String ProcessedMessage → Processed → Processed
insert_unless_empty peer_id [] processed = remove peer_id processed
insert_unless_empty peer_id (m ∷ ms) processed = insert peer_id (m ∷ ms) processed

unfoldable pub remove_processed : String → MessageId → Processed → Processed
remove_processed peer_id message_id processed = elim (get peer_id processed) [
  | none ↦ processed
  | some messages ↦ insert_unless_empty peer_id (remove message_id messages) processed
]
