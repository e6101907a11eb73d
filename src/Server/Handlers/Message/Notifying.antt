-- ===== src/Server/Handlers/Message/Notifying.antt =====
-- server/src/handlers/message.rs, the end of `handle_send`: who hears of a message that the
-- queue has taken.
use cmp.Base.{
  ℕ, Bool, true, false, ◌≡◌, inl, inr, arith, sym, none, some, nat_eq, string_eq, List, [], ◌∷◌,
  ◌++◌, Option-cases, Bool-cases, subst,
}
use cmp.Protocol.Messages.{ServerMessage, message_delivered, incoming_message}
use mathlib.Core.List.{append_assoc}
use cmp.Server.World.{World, Externals, ConnEntry, Attempt}
use cmp.Server.Connection.{send_to, push}
use cmp.Base.HashMap.{get}
use cmp.Server.Handlers.Message.{Outgoing, push_message}

-- An attempt that does not wait.
abbrev pub attempt : ℕ → ServerMessage → Bool → Attempt
attempt channel message taken = record {
  awaited = false;
  channel = channel;
  message = message;
  taken = taken;
}

abbrev pub logged : World → List Attempt → World
logged w attempts = record w { log = w.log ++ attempts }

-- Who hears of the message: the recipient's channel is given the message, if there is one, and if it
-- took the message the sender's channel is given the confirmation of the delivery. Nothing else
-- changes.
pub data Notified (e : Externals) (out : Outgoing) (w : World) : World → Type 0 where
  away : get out.request.recipient_id w.online ≡ none → Notified e out w w
  full :
      (entry : ConnEntry)
      → get out.request.recipient_id w.online ≡ some entry
      → e.takes w.log false entry.sender (incoming_message out.inbound) ≡ false
      → Notified e out w (logged w (attempt entry.sender (incoming_message out.inbound) false ∷ []))
  unconfirmed :
      (entry : ConnEntry)
      → get out.request.recipient_id w.online ≡ some entry
      → e.takes w.log false entry.sender (incoming_message out.inbound) ≡ true
      → get out.request.sender_id w.online ≡ none
      → Notified e out w (logged w (attempt entry.sender (incoming_message out.inbound) true ∷ []))
  confirmed :
      (entry own : ConnEntry) (taken : Bool)
      → get out.request.recipient_id w.online ≡ some entry
      → e.takes w.log false entry.sender (incoming_message out.inbound) ≡ true
      → get out.request.sender_id w.online ≡ some own
      → Notified e out w (
          logged w (
            attempt entry.sender (incoming_message out.inbound) true
            ∷ attempt own.sender (message_delivered (out.request.message_id ∷ [])) taken
            ∷ []))

push_away :
    (e : Externals) (out : Outgoing) (w : World)
    → get out.request.recipient_id w.online ≡ none
    → push_message e out w ≡ w
unfolding push_message send_to push
push_away e out w absent = ground (arith, absent)

push_full :
    (e : Externals) (out : Outgoing) (w : World) (entry : ConnEntry)
    → get out.request.recipient_id w.online ≡ some entry
    → e.takes w.log false entry.sender (incoming_message out.inbound) ≡ false
    → push_message e out w
      ≡ logged w (attempt entry.sender (incoming_message out.inbound) false ∷ [])
unfolding push_message send_to push
push_full e out w entry present refused = ground (arith, present, refused)

push_unconfirmed :
    (e : Externals) (out : Outgoing) (w : World) (entry : ConnEntry)
    → get out.request.recipient_id w.online ≡ some entry
    → e.takes w.log false entry.sender (incoming_message out.inbound) ≡ true
    → get out.request.sender_id w.online ≡ none
    → push_message e out w
      ≡ logged w (attempt entry.sender (incoming_message out.inbound) true ∷ [])
unfolding push_message send_to push
push_unconfirmed e out w entry present taken gone = ground (arith, present, taken, gone)

push_confirmed :
    (e : Externals) (out : Outgoing) (w : World) (entry own : ConnEntry)
    → get out.request.recipient_id w.online ≡ some entry
    → e.takes w.log false entry.sender (incoming_message out.inbound) ≡ true
    → get out.request.sender_id w.online ≡ some own
    → let pushed = attempt entry.sender (incoming_message out.inbound) true in
      let receipt = message_delivered (out.request.message_id ∷ []) in
      push_message e out w
      ≡ logged w (
          pushed
          ∷ attempt own.sender receipt (e.takes (w.log ++ pushed ∷ []) false own.sender receipt)
          ∷ [])
unfolding push_message send_to push
push_confirmed e out w entry own present taken here =
    let pushed = attempt entry.sender (incoming_message out.inbound) true in
    let receipt = message_delivered (out.request.message_id ∷ []) in
    let answer = e.takes (w.log ++ pushed ∷ []) false own.sender receipt in
    ground (
      arith,
      present,
      taken,
      here,
      append_assoc w.log (pushed ∷ []) (attempt own.sender receipt answer ∷ []),
    )

pub push_message-Notified :
    (e : Externals) (out : Outgoing) (w : World) → Notified e out w (push_message e out w)
push_message-Notified e out w = elim (Option-cases (get out.request.recipient_id w.online)) [
  | inl absent ↦ subst (Notified e out w) (sym (push_away e out w absent)) (away absent)
  | inr (entry, present) ↦
      elim (Bool-cases (e.takes w.log false entry.sender (incoming_message out.inbound))) [
        | inr refused ↦
            subst (Notified e out w) (sym (push_full e out w entry present refused))
              (full entry present refused)
        | inl taken ↦ elim (Option-cases (get out.request.sender_id w.online)) [
          | inl gone ↦
              subst (Notified e out w) (sym (push_unconfirmed e out w entry present taken gone))
                (unconfirmed entry present taken gone)
          | inr (own, here) ↦
              subst (Notified e out w) (sym (push_confirmed e out w entry own present taken here))
                (confirmed entry own _ present taken here)
        ]
      ]
]
