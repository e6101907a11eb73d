-- ===== src/Server/Drain.antt =====
-- server/src/db/queue.rs: reading and emptying the queue and the ledger.
use cmp.Base.{
  ℕ, ◌+◌, ◌-◌, ◌*◌, String, Bool, ◌&&◌, List, [], ◌∷◌, map, Option, leb, ltb, if◌then◌else◌, take,
  ◌==◌, string_eq, nat_eq,
}
use cmp.Base.Rows.{find, count, delete, select}
use cmp.Server.Db.{Db, QueueRow, AcceptanceRow, to_i64}

-- ORDER BY accepted_at.
unfoldable pub insert_by_time : AcceptanceRow → List AcceptanceRow → List AcceptanceRow
insert_by_time a [] = a ∷ []
insert_by_time a (b ∷ rows) =
    if leb a.accepted_at b.accepted_at then a ∷ b ∷ rows else b ∷ insert_by_time a rows

unfoldable pub order_by_time : List AcceptanceRow → List AcceptanceRow
unfolding insert_by_time
order_by_time [] = []
order_by_time (a ∷ rows) = insert_by_time a (order_by_time rows)

unfoldable pub pending_acceptances : Db → String → ℕ → List String
unfolding order_by_time
pending_acceptances db sender_id limit = take (to_i64 limit) (
    map (λ (r : AcceptanceRow). r.message_id)
      (order_by_time (select (λ r. r.sender_id == sender_id) db.acceptances)))

abbrev pub accepted_as : String → String → AcceptanceRow → Bool
accepted_as sender_id message_id r = r.sender_id == sender_id && r.message_id == message_id

-- The loop over the ids, with the number of rows that were deleted.
unfoldable pub delete_accepted :
    String → List String → ℕ → List AcceptanceRow → ℕ × List AcceptanceRow
delete_accepted sender_id [] deleted rows = (deleted, rows)
delete_accepted sender_id (id ∷ ids) deleted rows =
    delete_accepted sender_id ids (deleted + count (accepted_as sender_id id) rows)
      (delete (accepted_as sender_id id) rows)

-- Subtraction on ℕ stops at 0, as `MAX(0, item_count - ?1)` does.
unfoldable pub confirm_acceptances : Db → String → List String → Db
unfolding delete_accepted
confirm_acceptances db sender_id message_ids =
    let r = delete_accepted sender_id message_ids 0 db.acceptances in
    record db { acceptances = r.1; item_count = db.item_count - to_i64 r.0 }

-- The table is in the order of its `rowid`, so the first row that fits has the least.
unfoldable pub get_next_pending : Db → String → ℕ → Option QueueRow
get_next_pending db recipient_id after_row_id =
    find (λ r. r.recipient_id == recipient_id && ltb after_row_id r.row_id) db.message_queue

abbrev pub addressed : String → String → QueueRow → Bool
addressed recipient_id message_id r = r.message_id == message_id && r.recipient_id == recipient_id

unfoldable pub delete_rows : String → List String → ℕ → List QueueRow → ℕ × List QueueRow
delete_rows recipient_id [] deleted rows = (deleted, rows)
delete_rows recipient_id (id ∷ ids) deleted rows =
    delete_rows recipient_id ids (deleted + count (addressed recipient_id id) rows)
      (delete (addressed recipient_id id) rows)

unfoldable pub delete_messages : Db → String → List String → ℕ × Db
unfolding delete_rows
delete_messages db recipient_id message_ids =
    let r = delete_rows recipient_id message_ids 0 db.message_queue in
    (r.0, record db { message_queue = r.1 })

unfoldable pub delete_invalid_row : Db → String → ℕ → Db
delete_invalid_row db recipient_id row_id = record db {
  message_queue =
      delete (λ r. r.row_id == row_id && r.recipient_id == recipient_id) db.message_queue;
}

-- `datetime('now', '-N days')`, a day having 86400 seconds.
unfoldable pub gc_old_messages : Db → ℕ → ℕ → ℕ × Db
gc_old_messages db clock max_age_days =
    let old = λ (r : QueueRow). ltb r.created_at (clock - max_age_days * 86400) in
    (count old db.message_queue, record db { message_queue = delete old db.message_queue })
