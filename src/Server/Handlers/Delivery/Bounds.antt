-- ===== src/Server/Handlers/Delivery/Bounds.antt =====
-- server/src/handlers/auth.rs, `deliver_queued_messages`: the size of a page.
use cmp.Base.{
  ℕ, zero, suc, ◌+◌, ◌≤◌, String, Bool, true, false, List, [], ◌∷◌, ◌++◌, Option, none, some, ◌≡◌,
  arith, refl, ap, sym, subst, Option-cases, Bool-cases, inl, inr, if◌then◌else◌, nat_eq, string_eq,
  ltb, length, length-append,
}
use cmp.Base.Rows.{All, All-append}
use cmp.Base.HashMap.{get}
use cmp.Protocol.Types.{
  MessageId, max_queued_messages, max_queued_messages_per_page, max_queued_page_bytes,
}
use cmp.Protocol.Messages.{ServerMessage, InboundMessage, queued_messages, message_delivered}
use cmp.Server.Db.{QueueRow}
use cmp.Server.Drain.{get_next_pending, delete_invalid_row}
use cmp.Server.World.{World, Externals, Attempt}
use cmp.Server.Connection.{push, send_to}
use cmp.Server.Handlers.Delivery.Rounds.{
  loop_end, loop_discard, loop_keep, loop_send, loop_closed, loop_preserve, fate_cases,
}
use cmp.Server.Handlers.Delivery.{
  sized, readable, unsupported, invalid, queued_row_to_inbound, Fate, deliver, preserve, discard,
  fate, delivery_by_sender, notify_senders, send_queued_page, page_full, separator_bytes,
  deliver_loop, flush, deliver_queued_messages,
}

-- A page has at most 64 messages, and its encoding fits in a frame.
abbrev pub PageFits : Externals → List InboundMessage → Type 0
PageFits e page =
    (length page ≤ max_queued_messages_per_page)
    × ((b : ℕ) × (e.page_bytes page ≡ some b) × (b ≤ max_queued_page_bytes))

abbrev pub Fits : Externals → ServerMessage → Type 0
Fits e (queued_messages page) = PageFits e page
Fits e _ = Unit

abbrev pub AllFit : Externals → List Attempt → Type 0
AllFit e log = All (λ (a : Attempt). Fits e a.message) log

-- What serde_json does to the encoding of a list that gets an element.
abbrev pub Additive : Externals → Type 0
Additive e =
    (page : List InboundMessage) (m : InboundMessage) (b n : ℕ)
    → e.page_bytes page ≡ some b
    → e.inbound_bytes m ≡ some n
    → e.page_bytes (page ++ m ∷ []) ≡ some (b + separator_bytes e page + n)

push-AllFit :
    (e : Externals) (awaited : Bool) (tx : ℕ) (m : ServerMessage) (w : World)
    → Fits e m
    → AllFit e w.log
    → AllFit e (push e awaited tx m w).1.log
unfolding push
push-AllFit e awaited tx m w fits h =
    All-append (λ (a : Attempt). Fits e a.message) w.log
      (record { awaited = awaited; channel = tx; message = m; taken = e.takes w.log awaited tx m }
        ∷ [])
      h (fits, tt)

send_to-AllFit :
    (e : Externals) (user : String) (ids : List MessageId) (w : World)
    → AllFit e w.log
    → AllFit e (send_to e user (message_delivered ids) w).1.log
unfolding send_to
send_to-AllFit e user ids w h =
    elim (get user w.online)
      as (λ o.
        AllFit e
          (elim o as (λ _. Bool × World) [
            | none ↦ (false, w)
            | some entry ↦ push e false entry.sender (message_delivered ids) w
          ]).1.log) [
            | none ↦ h
            | some c ↦ push-AllFit e false c.sender (message_delivered ids) w tt h
          ]

notify_senders-AllFit :
    (e : Externals) (groups : List (String × List MessageId)) (w : World)
    → AllFit e w.log
    → AllFit e (notify_senders e groups w).log
unfolding notify_senders
notify_senders-AllFit e [] w h = h
notify_senders-AllFit e ((sender, ids) ∷ rest) w h =
    notify_senders-AllFit e rest (send_to e sender (message_delivered ids) w).1
      (send_to-AllFit e sender ids w h)

send_queued_page-AllFit :
    (e : Externals) (tx : ℕ) (page : List InboundMessage) (w : World)
    → PageFits e page
    → AllFit e w.log
    → AllFit e (send_queued_page e tx page w).1.log
unfolding send_queued_page
send_queued_page-AllFit e tx page w fits h =
    let pushed = push e true tx (queued_messages page) w in
    let k = push-AllFit e true tx (queued_messages page) w fits h in
    elim (pushed.0)
      as (λ b.
        AllFit e
          (if◌then◌else◌ {A = Bool × World} b
            (true, notify_senders e (delivery_by_sender page []) pushed.1)
            (false, pushed.1)).1.log) [
              | true ↦ notify_senders-AllFit e (delivery_by_sender page []) pushed.1 k
              | false ↦ k
            ]

sized-deliver :
    (e : Externals) (empty : ℕ) (k m : InboundMessage) (n : ℕ) (o : Option ℕ)
    → e.inbound_bytes k ≡ o
    → sized e empty k o ≡ deliver m n
    → (e.inbound_bytes m ≡ some n) × (empty + n ≤ max_queued_page_bytes)
unfolding sized
sized-deliver e empty k m n none q h = absurd (ground (arith, h))
sized-deliver e empty k m n (some b) q h =
    elim (Bool-cases (ltb max_queued_page_bytes (empty + b))) [
      | inl large ↦ absurd (ground (arith, large, h))
      | inr small ↦
          let same : deliver k b ≡ deliver m n = ground (arith, small, h) in
          let km : k ≡ m = ground (arith, same) in
          (ground (arith, same, q, ap e.inbound_bytes km), ground (arith, same, small))
    ]

fate-deliver :
    (e : Externals) (empty : ℕ) (row : QueueRow) (m : InboundMessage) (n : ℕ)
    → fate e empty row ≡ deliver m n
    → (e.inbound_bytes m ≡ some n) × (empty + n ≤ max_queued_page_bytes)
unfolding fate
fate-deliver e empty row m n =
    elim (queued_row_to_inbound e row)
      as (λ q.
        (elim q as (λ _. Fate) [
          | unsupported v ↦ preserve
          | invalid ↦ discard
          | readable k ↦ sized e empty k (e.inbound_bytes k)
        ])
          ≡ deliver m n
        → (e.inbound_bytes m ≡ some n) × (empty + n ≤ max_queued_page_bytes)) [
          | unsupported v ↦ λ h. absurd (ground (arith, h))
          | invalid ↦ λ h. absurd (ground (arith, h))
          | readable k ↦ λ h. sized-deliver e empty k m n (e.inbound_bytes k) refl h
        ]

room_left :
    (e : Externals) (page : List InboundMessage) (bytes n : ℕ) (m : InboundMessage)
    → page_full e page bytes n ≡ false
    → (length (page ++ m ∷ []) ≤ max_queued_messages_per_page)
      × (bytes + separator_bytes e page + n ≤ max_queued_page_bytes)
unfolding page_full
room_left e page bytes n m room = ground (arith, room, length-append page (m ∷ []))

-- What holds of the loop's result: the pages that were sent fit, and so does the one that is left.
abbrev ResultFits : Externals → Bool × List InboundMessage × World → Type 0
ResultFits e r = AllFit e r.2.log × PageFits e r.1

deliver_loop-ResultFits :
    (e : Externals) (tx : ℕ) (user : String) (empty : ℕ) (rounds cursor : ℕ)
    (page : List InboundMessage) (bytes : ℕ) (w : World)
    → Additive e
    → e.page_bytes [] ≡ some empty
    → empty ≤ max_queued_page_bytes
    → length page ≤ max_queued_messages_per_page
    → e.page_bytes page ≡ some bytes
    → bytes ≤ max_queued_page_bytes
    → AllFit e w.log
    → ResultFits e (deliver_loop e tx user empty rounds cursor page bytes w)
deliver_loop-ResultFits e tx user empty zero cursor page bytes w add none_ small few size fits h =
    unfold deliver_loop in (h, (few, (bytes, size, fits)))
deliver_loop-ResultFits e tx user empty (suc rounds) cursor page bytes w add none_ small few size
      fits h =
    elim (Option-cases (get_next_pending w.db user cursor)) [
      | inl stop ↦
          rw (loop_end e tx user empty rounds cursor page bytes w stop)
            (h, (few, (bytes, size, fits)))
      | inr (row, found) ↦ elim (fate_cases (fate e empty row)) [
        | inl kept ↦
            rw (loop_preserve e tx user empty rounds cursor page bytes w row found kept)
              (h, (few, (bytes, size, fits)))
        | inr (inl bad) ↦
            rw (loop_discard e tx user empty rounds cursor page bytes w row found bad) (
              deliver_loop-ResultFits e tx user empty rounds row.row_id page bytes
                (record w { db = delete_invalid_row w.db user row.row_id }) add none_ small few size
                fits h)
        | inr (inr (m, n, good)) ↦
            let (item, room_alone) = fate-deliver e empty row m n good in
            elim (Bool-cases (page_full e page bytes n)) [
              | inr room ↦
                  rw (loop_keep e tx user empty rounds cursor page bytes w row m n found good room)
                    (deliver_loop-ResultFits e tx user empty rounds row.row_id (page ++ m ∷ [])
                      (bytes + separator_bytes e page + n) w add none_ small
                      (room_left e page bytes n m room).0 (add page m bytes n size item)
                      (room_left e page bytes n m room).1 h)
              | inl full ↦
                  let sent = (send_queued_page e tx page w).1 in
                  let k = send_queued_page-AllFit e tx page w (few, (bytes, size, fits)) h in
                  elim (Bool-cases (send_queued_page e tx page w).0) [
                    | inr closed ↦
                        rw
                          (loop_closed e tx user empty rounds cursor page bytes w row m n found good
                            full closed)
                          (k, (omega arith, (empty, none_, small)))
                    | inl taken ↦
                        rw
                          (loop_send e tx user empty rounds cursor page bytes w row m n found good
                            full taken)
                          (deliver_loop-ResultFits e tx user empty rounds row.row_id (m ∷ [])
                            (empty + n) sent add none_ small (omega arith)
                            (ground (arith, add [] m empty n none_ item)) room_alone k)
                  ]
            ]
      ]
    ]

flush-AllFit :
    (e : Externals) (tx : ℕ) (r : Bool × List InboundMessage × World)
    → ResultFits e r
    → AllFit e (flush e tx r).log
unfolding flush
flush-AllFit e tx (false, page, w) h = h.0
flush-AllFit e tx (true, [], w) h = h.0
flush-AllFit e tx (true, m ∷ ms, w) h = send_queued_page-AllFit e tx (m ∷ ms) w h.1 h.0

-- Every page that goes out after a login has at most 64 messages, and its encoding, which is computed
-- by adding the sizes of its messages, is not larger than a frame may be, also where the channel is
-- closed meanwhile or rows are removed.
pub deliver_queued_messages-AllFit :
    (e : Externals) (tx : ℕ) (user : String) (empty : ℕ) (w : World)
    → Additive e
    → e.page_bytes [] ≡ some empty
    → empty ≤ max_queued_page_bytes
    → AllFit e w.log
    → AllFit e (deliver_queued_messages e tx user w).log
unfolding deliver_queued_messages
deliver_queued_messages-AllFit e tx user empty w add none_ small h =
    let all = flush-AllFit e tx (deliver_loop e tx user empty max_queued_messages 0 [] empty w) (
      deliver_loop-ResultFits e tx user empty max_queued_messages 0 [] empty w add none_ small
        (omega arith) none_ small h) in
    subst
      (λ o.
        AllFit e
          (elim o as (λ _. World) [
            | none ↦ w
            | some b ↦ flush e tx (deliver_loop e tx user b max_queued_messages 0 [] b w)
          ]).log)
      (sym none_) all
