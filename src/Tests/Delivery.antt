-- ===== src/Tests/Delivery.antt =====
-- The delivery after a login, at small queues.
use cmp.Base.{ℕ, String, [], ◌∷◌, ◌++◌, List, ◌≡◌, refl, arith, take, ◌+◌}
use cmp.Base.Rows.{find}
use cmp.Protocol.Types.{user_id, max_queued_messages}
use cmp.Protocol.Messages.{InboundMessage}
use cmp.Server.Db.{QueueRow}
use cmp.Server.Drain.{get_next_pending}
use cmp.Server.World.{World}
use cmp.Server.Handlers.Message.{validate_envelope}
use cmp.Server.Handlers.Delivery.{separator_bytes, fate, deliver, deliver_queued_messages}
use cmp.Server.Handlers.Delivery.Pages.{
  After, end, next, delivered, deliverable, deliver_queued_messages-delivered,
}
use cmp.Server.Handlers.Delivery.Bounds.{AllFit, Additive, deliver_queued_messages-AllFit}
use cmp.Tests.Relay.{relay, users, world, envelope, page_size}

abbrev row : ℕ → String → QueueRow
row id json = record {
  row_id = id;
  message_id = "m";
  recipient_id = "bob";
  sender_id = "alice";
  envelope_json = json;
  created_at = 50;
}

-- Two messages.
abbrev two : World
two = world (record users { message_queue = row 1 "two" ∷ row 2 "two" ∷ [] })

abbrev inbound : InboundMessage
inbound = record { message_id = "m"; sender_id = "alice"; envelope = envelope 2; timestamp = 50 }

fate_two : (id : ℕ) → fate relay 2 (row id "two") ≡ deliver inbound 10
unfolding fate user_id validate_envelope
fate_two id = refl

rows_of_two : After two.db "bob" 0 (row 1 "two" ∷ row 2 "two" ∷ [])
unfolding get_next_pending find
rows_of_two = next 0 (row 1 "two") _ refl (next 1 (row 2 "two") _ refl (end 2 refl))

deliver_queued_messages-delivered_example :
    delivered 1 (deliver_queued_messages relay 1 "bob" two).log
    ≡ delivered 1 []
      ++ deliverable relay 2 (take max_queued_messages (row 1 "two" ∷ row 2 "two" ∷ []))
deliver_queued_messages-delivered_example =
    deliver_queued_messages-delivered relay 1 "bob" 2 two (row 1 "two" ∷ row 2 "two" ∷ [])
      (λ log m. refl) refl rows_of_two
      (λ h. ground (arith, h, fate_two 1), (λ h. ground (arith, h, fate_two 2), tt))

page_size-snoc :
    (page : List InboundMessage) (m : InboundMessage)
    → page_size (page ++ m ∷ []) ≡ page_size page + separator_bytes relay page + 10
page_size-snoc [] m = refl
page_size-snoc (k ∷ []) m = refl
page_size-snoc (k ∷ (j ∷ page)) m = ground (arith, page_size-snoc (j ∷ page) m)

relay-Additive : Additive relay
relay-Additive page m b n size item = ground (arith, size, item, page_size-snoc page m)

deliver_queued_messages-AllFit_example :
    AllFit relay (deliver_queued_messages relay 1 "bob" two).log
deliver_queued_messages-AllFit_example =
    deliver_queued_messages-AllFit relay 1 "bob" 2 two relay-Additive refl (omega arith) tt
