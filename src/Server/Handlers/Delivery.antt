-- ===== src/Server/Handlers/Delivery.antt =====
-- server/src/handlers/auth.rs: what a user receives after a login. The time of a queued message is
-- kept in seconds here, so `parse_sqlite_datetime` has no counterpart.
pub mod Rounds
pub mod Pages
pub mod Bounds
use cmp.Base.{
  ℕ, zero, suc, ◌+◌, String, Bool, true, false, not, ◌||◌, List, [], ◌∷◌, ◌++◌, Option, none, some,
  leb, ltb, if◌then◌else◌, length, ◌==◌, nat_eq, string_eq,
}
use cmp.Protocol.Types.{
  UserId, MessageId, EncryptedEnvelope, user_id, protocol_version, max_queued_messages,
  max_queued_messages_per_page, max_queued_page_bytes, max_queue_per_user,
}
use cmp.Protocol.Messages.{
  ServerMessage, InboundMessage, queued_messages, message_delivered, message_sent,
  read_receipt_sent, incoming_read_receipt, prekey_low,
}
use cmp.Server.Db.{Db, Result, ok, err, QueueRow, ReceiptRow}
use cmp.Server.Drain.{get_next_pending, delete_invalid_row, pending_acceptances}
use cmp.Server.Prekeys.{count_prekeys}
use cmp.Server.Receipts.{pending, delete_invalid, confirmed_for_sender}
use cmp.Server.World.{World, Externals}
use cmp.Server.Connection.{send, send_to}
use cmp.Server.Replies.{Checked, pass, refuse}
use cmp.Server.Handlers.Message.{validate_envelope}
use cmp.Server.Handlers.Prekey.{prekey_low_threshold}

-- `Result<A, QueuedEnvelopeError>`.
pub data Queued {ℓ} (A : Type ℓ) : Type ℓ where
  readable : A → Queued A
  unsupported : ℕ → Queued A
  invalid : Queued A

infixl 5 ◌>>=◌ ◌>>◌
abbrev pub ◌>>=◌ {ℓ κ} : {A : Type ℓ} {B : Type κ} → Queued A → (A → Queued B) → Queued B
readable a >>= f = f a
unsupported v >>= f = unsupported v
invalid >>= f = invalid

abbrev pub ◌>>◌ {ℓ} : {B : Type ℓ} → Queued (Unit {0}) → Queued B → Queued B
m >> k = m >>= λ _. k

abbrev pub or_invalid {ℓ} : {A : Type ℓ} → Option A → Queued A
or_invalid none = invalid
or_invalid (some a) = readable a

abbrev valid_or_invalid : Checked (Unit {0}) → Queued (Unit {0})
valid_or_invalid (pass _) = readable tt
valid_or_invalid (refuse m) = invalid

-- What the loop does with a row: it delivers the message, whose encoding has so many bytes, or
-- leaves the row and returns, or removes the row.
pub data Fate : Type 0 where
  deliver : InboundMessage → ℕ → Fate
  preserve : Fate
  discard : Fate

-- `delivery_by_sender.entry(sender).or_default().push(id)`. The order of the senders is that of
-- their first messages; the code leaves it to the hash map.
unfoldable pub add_delivery :
    String → MessageId → List (String × List MessageId) → List (String × List MessageId)
add_delivery sender id [] = (sender, id ∷ []) ∷ []
add_delivery sender id ((other, ids) ∷ rest) =
    if other == sender
    then (other, ids ++ id ∷ []) ∷ rest
    else (other, ids) ∷ add_delivery sender id rest

unfoldable pub delivery_by_sender :
    List InboundMessage → List (String × List MessageId) → List (String × List MessageId)
unfolding add_delivery
delivery_by_sender [] groups = groups
delivery_by_sender (m ∷ ms) groups =
    delivery_by_sender ms (add_delivery m.sender_id m.message_id groups)

module _ (e : Externals) where
  unfoldable pub validate_queued_envelope : EncryptedEnvelope → Queued (Unit {0})
  validate_queued_envelope envelope =
      if envelope.version == protocol_version
      then valid_or_invalid (validate_envelope e envelope)
      else unsupported envelope.version

  unfoldable pub queued_row_to_inbound : QueueRow → Queued InboundMessage
  unfolding validate_queued_envelope
  queued_row_to_inbound row = do
    envelope ← or_invalid (e.envelope_of_json row.envelope_json)
    validate_queued_envelope envelope
    sender_id ← or_invalid (user_id row.sender_id)
    message_id ← or_invalid (e.parse_uuid row.message_id)
    readable (record {
      message_id = message_id;
      sender_id = sender_id;
      envelope = envelope;
      timestamp = row.created_at;
    })

  -- A message that cannot be encoded, or not within the limit of a page, is removed.
  unfoldable pub sized : ℕ → InboundMessage → Option ℕ → Fate
  sized empty_page_bytes m none = discard
  sized empty_page_bytes m (some item_bytes) =
      if ltb max_queued_page_bytes (empty_page_bytes + item_bytes)
      then discard
      else deliver m item_bytes

  unfoldable pub fate : ℕ → QueueRow → Fate
  unfolding queued_row_to_inbound sized
  fate empty_page_bytes row = elim (queued_row_to_inbound row) [
    | unsupported version ↦ preserve
    | invalid ↦ discard
    | readable m ↦ sized empty_page_bytes m (e.inbound_bytes m)
  ]

  -- The senders that are online hear of the delivery.
  unfoldable pub notify_senders : List (String × List MessageId) → World → World
  notify_senders [] w = w
  notify_senders ((sender, ids) ∷ rest) w =
      notify_senders rest (send_to e sender (message_delivered ids) w).1

  unfoldable pub send_queued_page : ℕ → List InboundMessage → World → Bool × World
  unfolding notify_senders
  send_queued_page tx messages w =
      let sent = send e tx (queued_messages messages) w in
      if sent.0
      then (true, notify_senders (delivery_by_sender messages []) sent.1)
      else (false, sent.1)

  -- `usize::from(!page.is_empty())`.
  abbrev pub separator_bytes : List InboundMessage → ℕ
  separator_bytes [] = 0
  separator_bytes (m ∷ ms) = 1

  unfoldable pub page_full : List InboundMessage → ℕ → ℕ → Bool
  page_full page page_bytes item_bytes =
      leb max_queued_messages_per_page (length page)
      || ltb max_queued_page_bytes (page_bytes + separator_bytes page + item_bytes)

  -- The loop, by the rounds that are left, which `visited` counts down: whether it ran to its end, the
  -- page that is still to be sent, and the world.
  unfoldable pub deliver_loop :
      ℕ → String → ℕ → ℕ → ℕ → List InboundMessage → ℕ → World → Bool × List InboundMessage × World
  unfolding fate page_full send_queued_page
  deliver_loop tx user empty zero cursor page page_bytes w = (true, page, w)
  deliver_loop tx user empty (suc rounds) cursor page page_bytes w =
      elim (get_next_pending w.db user cursor) [
        | none ↦ (true, page, w)
        | some row ↦ elim (fate empty row) [
          | preserve ↦ (false, page, w)
          | discard ↦
              deliver_loop tx user empty rounds row.row_id page page_bytes
                (record w { db = delete_invalid_row w.db user row.row_id })
          | deliver m item_bytes ↦ elim (page_full page page_bytes item_bytes) [
            | false ↦
                deliver_loop tx user empty rounds row.row_id (page ++ m ∷ [])
                  (page_bytes + separator_bytes page + item_bytes) w
            | true ↦
                let r = send_queued_page tx page w in
                elim r.0 [
                  | false ↦ (false, [], r.1)
                  | true ↦
                      deliver_loop tx user empty rounds row.row_id (m ∷ []) (empty + item_bytes) r.1
                ]
          ]
        ]
      ]

  -- The last page.
  unfoldable pub flush : ℕ → Bool × List InboundMessage × World → World
  unfolding send_queued_page
  flush tx (false, page, w) = w
  flush tx (true, [], w) = w
  flush tx (true, m ∷ ms, w) = (send_queued_page tx (m ∷ ms) w).1

  unfoldable pub deliver_queued_messages : ℕ → String → World → World
  unfolding deliver_loop flush
  deliver_queued_messages tx user w = elim (e.page_bytes []) [
    | none ↦ w
    | some empty ↦ flush tx (deliver_loop tx user empty max_queued_messages 0 [] empty w)
  ]

  unfoldable pub queued_receipt_to_message : ReceiptRow → Queued ServerMessage
  unfolding validate_queued_envelope
  queued_receipt_to_message receipt = do
    receipt_id ← or_invalid (e.parse_uuid receipt.receipt_id)
    sender_id ← or_invalid (user_id receipt.sender_id)
    envelope ← or_invalid (e.envelope_of_json receipt.envelope)
    validate_queued_envelope envelope
    readable (incoming_read_receipt sender_id receipt_id envelope)

  -- The loop over the receipts: whether the channel took them all.
  unfoldable pub deliver_receipts : ℕ → String → List ReceiptRow → World → Bool × World
  unfolding queued_receipt_to_message
  deliver_receipts tx user [] w = (true, w)
  deliver_receipts tx user (receipt ∷ rest) w = elim (queued_receipt_to_message receipt) [
    | unsupported version ↦ deliver_receipts tx user rest w
    | invalid ↦
        deliver_receipts tx user rest
          (record w { db = delete_invalid w.db user receipt.receipt_id })
    | readable message ↦
        let r = send e tx message w in
        elim r.0 [ false ↦ (false, r.1) | true ↦ deliver_receipts tx user rest r.1 ]
  ]

  -- `for id in ids`: an id that is no UUID is skipped, and the loop ends when the channel is closed.
  unfoldable pub confirm_each : (MessageId → ServerMessage) → ℕ → List String → World → World
  confirm_each notice tx [] w = w
  confirm_each notice tx (id ∷ ids) w = elim (e.parse_uuid id) [
    | none ↦ confirm_each notice tx ids w
    | some message_id ↦
        let r = send e tx (notice message_id) w in
        elim r.0 [ false ↦ r.1 | true ↦ confirm_each notice tx ids r.1 ]
  ]

  unfoldable pub deliver_receipt_confirmations : ℕ → String → World → World
  unfolding confirm_each
  deliver_receipt_confirmations tx user w =
      confirm_each read_receipt_sent tx (confirmed_for_sender w.db user) w

  unfoldable pub deliver_queued_receipts : ℕ → String → World → World
  unfolding deliver_receipts deliver_receipt_confirmations
  deliver_queued_receipts tx user w =
      let r = deliver_receipts tx user (pending w.db user) w in
      if r.0 then deliver_receipt_confirmations tx user r.1 else r.1

  unfoldable pub deliver_message_confirmations : ℕ → String → World → World
  unfolding confirm_each
  deliver_message_confirmations tx user w =
      confirm_each message_sent tx (pending_acceptances w.db user max_queue_per_user) w

  unfoldable pub deliver_prekey_status : ℕ → String → ℕ → World → World
  deliver_prekey_status tx user now w = elim (count_prekeys w.db user now) [
    | err why ↦ w
    | ok remaining ↦
        if ltb remaining prekey_low_threshold then (send e tx (prekey_low remaining) w).1 else w
  ]
