-- ===== src/Server/Receipts.antt =====
-- server/src/db/receipts.rs: the queue of read receipts. A receipt is absent, pending or
-- acknowledged. `envelope` is a text that the relay does not read. The rows of one user are in the
-- order of their creation, as the table is.
pub mod Waiting
use cmp.Base.{
  ℕ, String, Bool, true, false, not, ◌&&◌, ◌||◌, List, [], ◌∷◌, ◌++◌, map, none, some, leb,
  if◌then◌else◌, take, ◌==◌, string_eq,
}
use cmp.Base.Rows.{find, count, delete, select, exists}
use cmp.Server.Db.{Db, ReceiptRow, Result, ok, err, constraint, to_i64}
use cmp.Server.Users.{is_user}

pub data ReceiptResult : Type 0 where
  inserted duplicate already_acknowledged collision queue_full : ReceiptResult

abbrev pub has_receipt_id : String → ReceiptRow → Bool
has_receipt_id id r = r.receipt_id == id

abbrev pub unread_by : String → ReceiptRow → Bool
unread_by recipient r = r.recipient_id == recipient && not r.acknowledged

abbrev pub receipt_from : String → ReceiptRow → Bool
receipt_from sender r = r.sender_id == sender

-- What is answered about a receipt that is in the table.
unfoldable pub answer_existing : ReceiptRow → ReceiptRow → ReceiptResult
answer_existing row existing =
    if not (existing.recipient_id == row.recipient_id) || not (existing.sender_id == row.sender_id)
    then collision
    else if existing.acknowledged
    then already_acknowledged
    else duplicate

-- The arguments of the call are the fields of `row`, whose `acknowledged` is the default, `false`.
-- The INSERT OR IGNORE does insert, since no row has the receipt's id, unless the recipient is no
-- user, to whom the column is a foreign key.
unfoldable pub enqueue_receipt : Db → ReceiptRow → ℕ → Result ReceiptResult × Db
unfolding answer_existing
enqueue_receipt db row max_queue_per_user =
    elim (find (has_receipt_id row.receipt_id) db.receipts) [
      | some existing ↦ (ok (answer_existing row existing), db)
      | none ↦
          if leb (to_i64 max_queue_per_user) (count (unread_by row.recipient_id) db.receipts)
          then (ok queue_full, db)
          else if leb (to_i64 max_queue_per_user) (count (receipt_from row.sender_id) db.receipts)
          then (ok queue_full, db)
          else if not (exists (is_user row.recipient_id) db.users)
          then (err constraint, db)
          else (
            ok inserted,
            record db { receipts = db.receipts ++ record row { acknowledged = false } ∷ [] },
          )
    ]

unfoldable pub pending : Db → String → List ReceiptRow
pending db recipient_id = take 1000 (select (unread_by recipient_id) db.receipts)

abbrev pub received_as : String → String → ReceiptRow → Bool
received_as recipient receipt_id r = r.receipt_id == receipt_id && r.recipient_id == recipient

-- UPDATE ... SET acknowledged = 1.
unfoldable pub mark_acknowledged : String → String → List ReceiptRow → List ReceiptRow
mark_acknowledged recipient_id receipt_id [] = []
mark_acknowledged recipient_id receipt_id (r ∷ rows) =
    (if received_as recipient_id receipt_id r then record r { acknowledged = true } else r)
    ∷ mark_acknowledged recipient_id receipt_id rows

-- The loop over the ids: the receipts that were found, with their senders, and the table.
unfoldable pub acknowledge_rows :
    String → List String → List ReceiptRow → List (String × String) × List ReceiptRow
unfolding mark_acknowledged
acknowledge_rows recipient_id [] rows = ([], rows)
acknowledge_rows recipient_id (id ∷ ids) rows = elim (find (received_as recipient_id id) rows) [
  | none ↦ acknowledge_rows recipient_id ids rows
  | some r ↦
      let rest = acknowledge_rows recipient_id ids (mark_acknowledged recipient_id id rows) in
      ((id, r.sender_id) ∷ rest.0, rest.1)
]

unfoldable pub acknowledge : Db → String → List String → List (String × String) × Db
unfolding acknowledge_rows
acknowledge db recipient_id receipt_ids =
    let r = acknowledge_rows recipient_id receipt_ids db.receipts in
    (r.0, record db { receipts = r.1 })

abbrev pub confirmed_from : String → ReceiptRow → Bool
confirmed_from sender r = r.sender_id == sender && r.acknowledged

unfoldable pub confirmed_for_sender : Db → String → List String
confirmed_for_sender db sender_id =
    map (λ (r : ReceiptRow). r.receipt_id)
      (take 1000 (select (confirmed_from sender_id) db.receipts))

abbrev pub finished : String → String → ReceiptRow → Bool
finished sender receipt_id r =
    r.receipt_id == receipt_id && (r.sender_id == sender && r.acknowledged)

unfoldable pub delete_finished : String → List String → List ReceiptRow → List ReceiptRow
delete_finished sender_id [] rows = rows
delete_finished sender_id (id ∷ ids) rows =
    delete_finished sender_id ids (delete (finished sender_id id) rows)

unfoldable pub confirm_sender_received : Db → String → List String → Db
unfolding delete_finished
confirm_sender_received db sender_id receipt_ids = record db {
  receipts = delete_finished sender_id receipt_ids db.receipts;
}

unfoldable pub delete_invalid : Db → String → String → Db
delete_invalid db recipient_id receipt_id = record db {
  receipts = delete (received_as recipient_id receipt_id) db.receipts;
}
