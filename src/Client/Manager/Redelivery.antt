-- ===== src/Client/Manager/Redelivery.antt =====
-- crypto_mgr_decrypt.rs: a message that the server delivers again, because its ack was lost.
use cmp.Base.{String, true, Option, none, some, ◌≡◌, arith, refl, ap, nat_eq, string_eq}
use cmp.Crypto.Primitives.{Primitives}
use cmp.Protocol.Types.{MessageId, EncryptedEnvelope, protocol_version}
use mathlib.Core.Option
use cmp.Client.Replay.{ProcessedMessage}
use cmp.Client.Manager.{Manager}
use cmp.Client.Manager.Acknowledging.{messages_of, confirm_inbound_stored}
use cmp.Client.Manager.Arrival.{Receiver, pending, duplicate, lookup, Decoders, Arrival}
use cmp.Client.Manager.Decryption.{decrypt_message_to_text, known}
use cmp.Client.Manager.Recording.{lookup-insert, decrypt_message_to_text-IsPending}

-- A message that is stored by the application has no pending text any more.
lookup-confirm_inbound_stored :
    (peer_id : String) (id : MessageId) (m : Manager) (x : ProcessedMessage)
    → lookup peer_id id m.processed_messages ≡ some x
    → lookup peer_id id (confirm_inbound_stored true peer_id id m).1.processed_messages
      ≡ some (record x { pending_plaintext = none })
unfolding confirm_inbound_stored lookup
lookup-confirm_inbound_stored peer_id id m x h = ground (
  arith,
  h,
  lookup-insert peer_id id (record x { pending_plaintext = none })
      (messages_of peer_id m.processed_messages) m.processed_messages,
)

-- The same with what the record holds as pending.
confirm_inbound_stored-pending :
    (peer_id : String) (id : MessageId) (m : Manager) (o : Option ProcessedMessage)
    (text : Option String)
    → lookup peer_id id m.processed_messages ≡ o
    → Option.map (λ (x : ProcessedMessage). x.pending_plaintext) o ≡ some text
    → Option.map
        (λ (x : ProcessedMessage). x.pending_plaintext)
        (lookup peer_id id (confirm_inbound_stored true peer_id id m).1.processed_messages)
      ≡ some none
confirm_inbound_stored-pending peer_id id m none text h e = ground (arith, e)
confirm_inbound_stored-pending peer_id id m (some x) text h e =
    ap (Option.map (λ (y : ProcessedMessage). y.pending_plaintext))
      (lookup-confirm_inbound_stored peer_id id m x h)

module _ (p : Primitives) (d : Decoders) (b : Arrival) (peer_id : String) (id : MessageId) where
  -- What the record says is the answer, and nothing is decrypted.
  decrypt_message_to_text-known :
      (envelope : EncryptedEnvelope) (r : Receiver) (text : Option String)
      → envelope.version ≡ protocol_version
      → Option.map
          (λ (x : ProcessedMessage). x.pending_plaintext)
          (lookup peer_id id r.manager.processed_messages)
        ≡ some text
      → decrypt_message_to_text p d b peer_id id envelope r ≡ (known p d b peer_id id text, r)
  unfolding decrypt_message_to_text
  decrypt_message_to_text-known envelope r text v h =
      ground (arith, v, h, nat_eq.equal_iff envelope.version protocol_version)

-- The application has stored the text.
abbrev pub stored : String → MessageId → Receiver → Receiver
stored peer_id id r = record r { manager = (confirm_inbound_stored true peer_id id r.manager).1 }

pub decrypt_message_to_text_again :
    (p : Primitives) (d : Decoders) (a b : Arrival) (peer_id : String) (id : MessageId)
    (first again : EncryptedEnvelope) (r : Receiver) (text : String)
    → (decrypt_message_to_text p d a peer_id id first r).0 ≡ pending text
    → again.version ≡ protocol_version
    → let after = (decrypt_message_to_text p d a peer_id id first r).1 in
      (decrypt_message_to_text p d b peer_id id again after ≡ (pending text, after))
      × (decrypt_message_to_text p d b peer_id id again (stored peer_id id after)
          ≡ (duplicate, stored peer_id id after))
decrypt_message_to_text_again p d a b peer_id id first again r text e v =
    let after = (decrypt_message_to_text p d a peer_id id first r).1 in
    let waits = decrypt_message_to_text-IsPending p d a peer_id id first r text e in
    (
      decrypt_message_to_text-known p d b peer_id id again after (some text) v waits,
      decrypt_message_to_text-known p d b peer_id id again (stored peer_id id after) none v
          (confirm_inbound_stored-pending peer_id id after.manager _ (some text) refl waits),
    )
