-- ===== src/Server/Handlers/Delivery/Pages.antt =====
-- server/src/handlers/auth.rs, `deliver_queued_messages`: what reaches the client after a login.
use cmp.Base.{
  ℕ, zero, suc, ◌+◌, ◌≤◌, String, Bool, true, false, ◌&&◌, List, [], ◌∷◌, ◌++◌, none, some, ◌≡◌,
  ◌≢◌, arith, refl, sym, ◌∙◌, subst, Option-cases, Bool-cases, inl, inr, if◌then◌else◌, ◌==◌,
  nat_eq, string_eq, ltb, take,
}
use mathlib.Core.List.{append_assoc, append-nil}
use cmp.Base.Rows.{All, find_holds, find-delete_other}
use cmp.Base.HashMap.{get}
use cmp.Protocol.Types.{MessageId, max_queued_messages}
use cmp.Protocol.Messages.{ServerMessage, InboundMessage, queued_messages, message_delivered}
use cmp.Server.Db.{Db, QueueRow}
use cmp.Server.Drain.{get_next_pending, delete_invalid_row}
use cmp.Server.World.{World, Externals, Attempt}
use cmp.Server.Connection.{push, send, send_to}
use cmp.Server.Handlers.Delivery.Rounds.{loop_end, loop_discard, loop_keep, loop_send, fate_cases}
use cmp.Server.Handlers.Delivery.{
  deliver, preserve, discard, fate, delivery_by_sender, notify_senders, send_queued_page, page_full,
  separator_bytes, deliver_loop, flush, deliver_queued_messages,
}

abbrev pub messages_of : ServerMessage → List InboundMessage
messages_of (queued_messages ms) = ms
messages_of _ = []

-- The queued messages that were put into a channel, in order.
unfoldable pub delivered : ℕ → List Attempt → List InboundMessage
delivered tx [] = []
delivered tx (a ∷ log) =
    let rest = delivered tx log in
    if a.awaited && a.channel == tx then messages_of a.message ++ rest else rest

-- The pending rows of a user after a row id, as the queries give them.
pub data After (db : Db) (user : String) : ℕ → List QueueRow → Type 0 where
  end : (cursor : ℕ) → get_next_pending db user cursor ≡ none → After db user cursor []
  next :
      (cursor : ℕ) (row : QueueRow) (rows : List QueueRow)
      → get_next_pending db user cursor ≡ some row
      → After db user row.row_id rows
      → After db user cursor (row ∷ rows)

-- The messages of the rows that can be delivered.
unfoldable pub deliverable : Externals → ℕ → List QueueRow → List InboundMessage
deliverable e empty [] = []
deliverable e empty (row ∷ rows) =
    let rest = deliverable e empty rows in
    elim (fate e empty row) [ preserve ↦ rest | discard ↦ rest | deliver m n ↦ m ∷ rest ]

delivered-append :
    (tx : ℕ) (xs ys : List Attempt) → delivered tx (xs ++ ys) ≡ delivered tx xs ++ delivered tx ys
unfolding delivered
delivered-append tx [] ys = refl
delivered-append tx (x ∷ xs) ys = ground (
  arith,
  delivered-append tx xs ys,
  append_assoc (messages_of x.message) (delivered tx xs) (delivered tx ys),
)

send_to-delivered :
    (e : Externals) (tx : ℕ) (user : String) (ids : List MessageId) (w : World)
    → (delivered tx (send_to e user (message_delivered ids) w).1.log ≡ delivered tx w.log)
      × ((send_to e user (message_delivered ids) w).1.db ≡ w.db)
unfolding send_to push delivered
send_to-delivered e tx user ids w = elim (Option-cases (get user w.online)) [
  | inl absent ↦ (ground (arith, absent), ground (arith, absent))
  | inr (c, present) ↦ (
    ground (
      arith,
      present,
      append-nil (delivered tx w.log),
      delivered-append tx w.log (
          record {
            awaited = false;
            channel = c.sender;
            message = message_delivered ids;
            taken = e.takes w.log false c.sender (message_delivered ids);
          }
          ∷ []),
    ),
    ground (arith, present),
  )
]

notify_senders-delivered :
    (e : Externals) (tx : ℕ) (groups : List (String × List MessageId)) (w : World)
    → (delivered tx (notify_senders e groups w).log ≡ delivered tx w.log)
      × ((notify_senders e groups w).db ≡ w.db)
unfolding notify_senders
notify_senders-delivered e tx [] w = (refl, refl)
notify_senders-delivered e tx ((sender, ids) ∷ rest) w =
    let told = (send_to e sender (message_delivered ids) w).1 in
    let (a, b) = notify_senders-delivered e tx rest told in
    let (c, d) = send_to-delivered e tx sender ids w in (a ∙ c, b ∙ d)

-- The channel to the client takes what is sent.
abbrev pub Open : Externals → ℕ → Type 0
Open e tx = (log : List Attempt) (m : ServerMessage) → e.takes log true tx m ≡ true

send_queued_page-delivered :
    (e : Externals) (tx : ℕ) (page : List InboundMessage) (w : World)
    → Open e tx
    → ((send_queued_page e tx page w).0 ≡ true)
      × (delivered tx (send_queued_page e tx page w).1.log ≡ delivered tx w.log ++ page)
      × ((send_queued_page e tx page w).1.db ≡ w.db)
unfolding send_queued_page push delivered
send_queued_page-delivered e tx page w takes =
    let pushed = (send e tx (queued_messages page) w).1 in
    let (told, same) = notify_senders-delivered e tx (delivery_by_sender page []) pushed in
    let taken = takes w.log (queued_messages page) in
    (
      ground (arith, taken),
      ground (
        arith,
        taken,
        told,
        nat_eq.equal_iff tx tx,
        append-nil page,
        delivered-append tx w.log (
            record {
              awaited = true;
              channel = tx;
              message = queued_messages page;
              taken = e.takes w.log true tx (queued_messages page);
            }
            ∷ []),
      ),
      ground (arith, taken, same),
    )

next-delete :
    (db : Db) (user : String) (id cursor : ℕ)
    → id ≤ cursor
    → get_next_pending (delete_invalid_row db user id) user cursor ≡ get_next_pending db user cursor
unfolding get_next_pending delete_invalid_row
next-delete db user id cursor h =
    find-delete_other (λ (r : QueueRow). r.row_id == id && r.recipient_id == user)
      (λ (r : QueueRow). r.recipient_id == user && ltb cursor r.row_id) db.message_queue
      (λ r q. ground (arith, q, nat_eq.equal_iff r.row_id id))

next-later :
    (db : Db) (user : String) (cursor : ℕ) (row : QueueRow)
    → get_next_pending db user cursor ≡ some row
    → cursor ≤ row.row_id
unfolding get_next_pending
next-later db user cursor row h = ground (
  arith,
  find_holds (λ (r : QueueRow). r.recipient_id == user && ltb cursor r.row_id) db.message_queue h,
)

After-delete :
    (db : Db) (user : String) (id cursor : ℕ) (rows : List QueueRow)
    → id ≤ cursor
    → After db user cursor rows
    → After (delete_invalid_row db user id) user cursor rows
After-delete db user id cursor rows h (end c none_left) =
    end cursor (next-delete db user id cursor h ∙ none_left)
After-delete db user id cursor rows h (next c row rest found after) =
    next cursor row rest (next-delete db user id cursor h ∙ found) (
      After-delete db user id row.row_id rest (omega (arith, next-later db user c row found, h))
        after)

-- No row is of an unsupported version.
abbrev pub Supported : Externals → ℕ → List QueueRow → Type 0
Supported e empty rows = All (λ (r : QueueRow). fate e empty r ≢ preserve) rows

-- The loop ran to its end, and what was sent with the page that is left is this.
abbrev Carried : ℕ → List InboundMessage → Bool × List InboundMessage × World → Type 0
Carried tx all r = (r.0 ≡ true) × (delivered tx r.2.log ++ r.1 ≡ all)

deliver_loop-Carried :
    (e : Externals) (tx : ℕ) (user : String) (empty : ℕ) (rounds cursor : ℕ)
    (page : List InboundMessage) (bytes : ℕ) (w : World) (rows : List QueueRow)
    → Open e tx
    → After w.db user cursor rows
    → Supported e empty rows
    → Carried tx
        (delivered tx w.log ++ (page ++ deliverable e empty (take rounds rows)))
        (deliver_loop e tx user empty rounds cursor page bytes w)
unfolding deliverable
deliver_loop-Carried e tx user empty zero cursor page bytes w rows takes after supported =
    unfold deliver_loop in (refl, ground (arith, append-nil page))
deliver_loop-Carried e tx user empty (suc rounds) cursor page bytes w rows takes (end c none_left)
      supported =
    rw (loop_end e tx user empty rounds cursor page bytes w none_left)
      (refl, ground (arith, append-nil page))
deliver_loop-Carried e tx user empty (suc rounds) cursor page bytes w rows takes
      (next c row rest found after) supported =
    elim (fate_cases (fate e empty row)) [
      | inl kept ↦ absurd (supported.0 kept)
      | inr (inl bad) ↦
          let dropped : World = record w { db = delete_invalid_row w.db user row.row_id } in
          let ih =
            deliver_loop-Carried e tx user empty rounds row.row_id page bytes dropped rest takes
              (After-delete w.db user row.row_id row.row_id rest (omega arith) after) supported.1 in
          rw (loop_discard e tx user empty rounds cursor page bytes w row found bad)
            (ih.0, ground (arith, ih.1, bad))
      | inr (inr (m, n, good)) ↦ elim (Bool-cases (page_full e page bytes n)) [
        | inr room ↦
            let ih =
              deliver_loop-Carried e tx user empty rounds row.row_id (page ++ m ∷ [])
                (bytes + separator_bytes e page + n) w rest takes after supported.1 in
            rw (loop_keep e tx user empty rounds cursor page bytes w row m n found good room) (
              ih.0,
              ground (
                arith,
                ih.1,
                good,
                append_assoc page (m ∷ []) (deliverable e empty (take rounds rest)),
              ),
            )
        | inl full ↦
            let (sent, got, same) = send_queued_page-delivered e tx page w takes in
            let next_world = (send_queued_page e tx page w).1 in
            let ih =
              deliver_loop-Carried e tx user empty rounds row.row_id (m ∷ []) (empty + n) next_world
                rest takes (subst (λ db. After db user row.row_id rest) (sym same) after)
                supported.1 in
            rw (loop_send e tx user empty rounds cursor page bytes w row m n found good full sent) (
              ih.0,
              ground (
                arith,
                ih.1,
                good,
                got,
                append_assoc (delivered tx w.log) page (m ∷ deliverable e empty (take rounds rest)),
              ),
            )
      ]
    ]

flush-delivered :
    (e : Externals) (tx : ℕ) (all : List InboundMessage) (r : Bool × List InboundMessage × World)
    → Open e tx
    → Carried tx all r
    → delivered tx (flush e tx r).log ≡ all
unfolding flush
flush-delivered e tx all (false, page, w) takes h = absurd (ground (arith, h.0))
flush-delivered e tx all (true, [], w) takes h =
    ground (arith, h.1, append-nil (delivered tx w.log))
flush-delivered e tx all (true, m ∷ ms, w) takes h =
    (send_queued_page-delivered e tx (m ∷ ms) w takes).1 ∙ h.1

pub deliver_queued_messages-delivered :
    (e : Externals) (tx : ℕ) (user : String) (empty : ℕ) (w : World) (rows : List QueueRow)
    → Open e tx
    → e.page_bytes [] ≡ some empty
    → After w.db user 0 rows
    → Supported e empty rows
    → delivered tx (deliver_queued_messages e tx user w).log
      ≡ delivered tx w.log ++ deliverable e empty (take max_queued_messages rows)
unfolding deliver_queued_messages
deliver_queued_messages-delivered e tx user empty w rows takes sized_ after supported =
    let all =
      flush-delivered e tx
        (delivered tx w.log ++ deliverable e empty (take max_queued_messages rows))
        (deliver_loop e tx user empty max_queued_messages 0 [] empty w) takes
        (deliver_loop-Carried e tx user empty max_queued_messages 0 [] empty w rows takes after
          supported) in
    ground (arith, sized_, all)
