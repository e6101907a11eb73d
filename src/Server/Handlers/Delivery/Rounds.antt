-- ===== src/Server/Handlers/Delivery/Rounds.antt =====
-- server/src/handlers/auth.rs, `deliver_queued_messages`: one round of the loop.
use cmp.Base.{
  ℕ, suc, ◌+◌, String, true, false, List, [], ◌∷◌, ◌++◌, none, some, ◌≡◌, ◌⊎◌, arith, refl, inl,
  inr, nat_eq, string_eq,
}
use cmp.Protocol.Messages.{InboundMessage}
use cmp.Server.Db.{QueueRow}
use cmp.Server.Drain.{get_next_pending, delete_invalid_row}
use cmp.Server.World.{World, Externals}
use cmp.Server.Handlers.Delivery.{
  Fate, deliver, preserve, discard, fate, send_queued_page, page_full, separator_bytes,
  deliver_loop,
}

module _ (e : Externals) (tx : ℕ) (user : String) (empty rounds cursor : ℕ)
    (page : List InboundMessage) (bytes : ℕ) (w : World) where
  pub loop_end :
      get_next_pending w.db user cursor ≡ none
      → deliver_loop e tx user empty (suc rounds) cursor page bytes w ≡ (true, page, w)
  unfolding deliver_loop
  loop_end found = ground (arith, found)

  pub loop_preserve :
      (row : QueueRow)
      → get_next_pending w.db user cursor ≡ some row
      → fate e empty row ≡ preserve
      → deliver_loop e tx user empty (suc rounds) cursor page bytes w ≡ (false, page, w)
  unfolding deliver_loop
  loop_preserve row found f = ground (arith, found, f)

  pub loop_discard :
      (row : QueueRow)
      → get_next_pending w.db user cursor ≡ some row
      → fate e empty row ≡ discard
      → deliver_loop e tx user empty (suc rounds) cursor page bytes w
        ≡ deliver_loop e tx user empty rounds row.row_id page bytes
            (record w { db = delete_invalid_row w.db user row.row_id })
  unfolding deliver_loop
  loop_discard row found f = ground (arith, found, f)

  pub loop_keep :
      (row : QueueRow) (m : InboundMessage) (n : ℕ)
      → get_next_pending w.db user cursor ≡ some row
      → fate e empty row ≡ deliver m n
      → page_full e page bytes n ≡ false
      → deliver_loop e tx user empty (suc rounds) cursor page bytes w
        ≡ deliver_loop e tx user empty rounds row.row_id
            (page ++ m ∷ [])
            (bytes + separator_bytes e page + n)
            w
  unfolding deliver_loop
  loop_keep row m n found f room = ground (arith, found, f, room)

  pub loop_send :
      (row : QueueRow) (m : InboundMessage) (n : ℕ)
      → get_next_pending w.db user cursor ≡ some row
      → fate e empty row ≡ deliver m n
      → page_full e page bytes n ≡ true
      → (send_queued_page e tx page w).0 ≡ true
      → deliver_loop e tx user empty (suc rounds) cursor page bytes w
        ≡ deliver_loop e tx user empty rounds row.row_id
            (m ∷ [])
            (empty + n)
            (send_queued_page e tx page w).1
  unfolding deliver_loop
  loop_send row m n found f full sent = ground (arith, found, f, full, sent)

  pub loop_closed :
      (row : QueueRow) (m : InboundMessage) (n : ℕ)
      → get_next_pending w.db user cursor ≡ some row
      → fate e empty row ≡ deliver m n
      → page_full e page bytes n ≡ true
      → (send_queued_page e tx page w).0 ≡ false
      → deliver_loop e tx user empty (suc rounds) cursor page bytes w
        ≡ (false, [], (send_queued_page e tx page w).1)
  unfolding deliver_loop
  loop_closed row m n found f full sent = ground (arith, found, f, full, sent)

-- What becomes of a row.
pub fate_cases :
    (f : Fate)
    → (f ≡ preserve) ⊎ ((f ≡ discard) ⊎ ((m : InboundMessage) × (n : ℕ) × (f ≡ deliver m n)))
fate_cases preserve = inl refl
fate_cases discard = inr (inl refl)
fate_cases (deliver m n) = inr (inr (m, n, refl))
