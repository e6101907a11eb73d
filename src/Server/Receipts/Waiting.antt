-- ===== src/Server/Receipts/Waiting.antt =====
-- receipts.rs: nobody but its recipient takes a receipt out of the queue before it is acknowledged.
use cmp.Base.{
  ℕ, ◌≡◌, refl, ◌≢◌, sym, ◌∙◌, String, false, List, [], ◌∷◌, ◌++◌, arith, inl, inr, Option-cases,
  Bool-cases, leb, string_eq,
}
use mathlib.Core.List.{append-nil, append_assoc}
use cmp.Base.Rows.{exists, find, count, delete, select, select-append, select-delete_other}
use cmp.Server.Db.{Db, ReceiptRow, to_i64}
use cmp.Server.Users.{is_user}
use cmp.Server.Receipts.{
  has_receipt_id, unread_by, receipt_from, enqueue_receipt, acknowledge, acknowledge_rows,
  mark_acknowledged, received_as, confirm_sender_received, delete_finished, finished,
  delete_invalid,
}

-- A call of an operation with its arguments.
pub data ReceiptCall : Type 0 where
  enqueues : ReceiptRow → ℕ → ReceiptCall
  acknowledges : String → List String → ReceiptCall
  confirms : String → List String → ReceiptCall
  discards : String → String → ReceiptCall

unfoldable pub step : ReceiptCall → Db → Db
step (enqueues row limit) db = (enqueue_receipt db row limit).1
step (acknowledges recipient ids) db = (acknowledge db recipient ids).1
step (confirms sender ids) db = confirm_sender_received db sender ids
step (discards recipient id) db = delete_invalid db recipient id

unfoldable pub run_receipts : List ReceiptCall → Db → Db
unfolding step
run_receipts [] db = db
run_receipts (call ∷ calls) db = run_receipts calls (step call db)

-- The user neither acknowledges nor discards.
abbrev pub Away : String → List ReceiptCall → Type 0
Away user [] = Unit
Away user (acknowledges recipient ids ∷ calls) = (recipient ≢ user) × Away user calls
Away user (discards recipient id ∷ calls) = (recipient ≢ user) × Away user calls
Away user (_ ∷ calls) = Away user calls

abbrev pub unread : String → Db → List ReceiptRow
unread user db = select (unread_by user) db.receipts

-- What waited still waits, in its order, and more may follow.
abbrev pub Extends : List ReceiptRow → List ReceiptRow → Type 0
Extends old new = (more : List ReceiptRow) × (new ≡ old ++ more)

Extends-same : (old new : List ReceiptRow) → new ≡ old → Extends old new
Extends-same old new same = ([], same ∙ sym (append-nil old))

Extends-then : (a b c : List ReceiptRow) → Extends a b → Extends b c → Extends a c
Extends-then a b c ab bc = (ab.0 ++ bc.0, ground (arith, ab.1, bc.1, append_assoc a ab.0 bc.0))

enqueue-Extends :
    (user : String) (db : Db) (row : ReceiptRow) (limit : ℕ)
    → Extends (unread user db) (unread user (enqueue_receipt db row limit).1)
unfolding enqueue_receipt
enqueue-Extends user db row limit =
    let new : List ReceiptRow = record row { acknowledged = false } ∷ [] in
    let full = λ (n : ℕ). Bool-cases (leb (to_i64 limit) n) in
    elim (Option-cases (find (has_receipt_id row.receipt_id) db.receipts)) [
      | inr (existing, e) ↦ Extends-same _ _ (ground (arith, e))
      | inl e ↦ elim (full (count (unread_by row.recipient_id) db.receipts)) [
        | inl f ↦ Extends-same _ _ (ground (arith, e, f))
        | inr room ↦ elim (full (count (receipt_from row.sender_id) db.receipts)) [
          | inl f ↦ Extends-same _ _ (ground (arith, e, room, f))
          | inr sender_room ↦ elim (Bool-cases (exists (is_user row.recipient_id) db.users)) [
            | inr nobody ↦ Extends-same _ _ (ground (arith, e, room, sender_room, nobody))
            | inl known ↦ (
              select (unread_by user) new,
              ground (
                arith,
                e,
                room,
                sender_room,
                known,
                select-append (unread_by user) db.receipts new,
              ),
            )
          ]
        ]
      ]
    ]

mark_other :
    (user recipient id : String) (rows : List ReceiptRow)
    → recipient ≢ user
    → select (unread_by user) (mark_acknowledged recipient id rows) ≡ select (unread_by user) rows
unfolding select mark_acknowledged
mark_other user recipient id [] other = refl
mark_other user recipient id (r ∷ rows) other = ground (
  arith,
  mark_other user recipient id rows other,
  string_eq.equal_iff r.recipient_id recipient,
  string_eq.equal_iff r.recipient_id user,
)

acknowledge_other :
    (user recipient : String) (ids : List String) (rows : List ReceiptRow)
    → recipient ≢ user
    → select (unread_by user) (acknowledge_rows recipient ids rows).1 ≡ select (unread_by user) rows
unfolding acknowledge_rows
acknowledge_other user recipient [] rows other = refl
acknowledge_other user recipient (id ∷ ids) rows other =
    elim (Option-cases (find (received_as recipient id) rows)) [
      | inl e ↦ ground (arith, e, acknowledge_other user recipient ids rows other)
      | inr (r, e) ↦ ground (
        arith,
        e,
        acknowledge_other user recipient ids (mark_acknowledged recipient id rows) other,
        mark_other user recipient id rows other,
      )
    ]

delete_finished_unread :
    (user sender : String) (ids : List String) (rows : List ReceiptRow)
    → select (unread_by user) (delete_finished sender ids rows) ≡ select (unread_by user) rows
unfolding delete_finished
delete_finished_unread user sender [] rows = refl
delete_finished_unread user sender (id ∷ ids) rows =
    delete_finished_unread user sender ids (delete (finished sender id) rows)
    ∙ select-delete_other (finished sender id) (unread_by user) rows (λ r h. ground (arith, h))

discard_other :
    (user recipient id : String) (rows : List ReceiptRow)
    → recipient ≢ user
    → select (unread_by user) (delete (received_as recipient id) rows)
      ≡ select (unread_by user) rows
discard_other user recipient id rows other =
    select-delete_other (received_as recipient id) (unread_by user) rows (λ r h. ground (
      arith,
      h,
      other,
      string_eq.equal_iff r.recipient_id recipient,
      string_eq.equal_iff r.recipient_id user,
    ))

-- Whatever other users send, acknowledge, confirm or discard: every receipt that waits for a user
-- still waits, unread and in its order, until the user acknowledges or discards.
pub run_receipts-Extends :
    (user : String) (calls : List ReceiptCall) (db : Db)
    → Away user calls
    → Extends (unread user db) (unread user (run_receipts calls db))
unfolding run_receipts acknowledge confirm_sender_received delete_invalid
run_receipts-Extends user [] db away = Extends-same _ _ refl
run_receipts-Extends user (enqueues row limit ∷ calls) db away =
    Extends-then _ _ _ (enqueue-Extends user db row limit) (run_receipts-Extends user calls _ away)
run_receipts-Extends user (acknowledges recipient ids ∷ calls) db away =
    Extends-then _ _ _ (Extends-same _ _ (acknowledge_other user recipient ids db.receipts away.0))
      (run_receipts-Extends user calls _ away.1)
run_receipts-Extends user (confirms sender ids ∷ calls) db away =
    Extends-then _ _ _ (Extends-same _ _ (delete_finished_unread user sender ids db.receipts))
      (run_receipts-Extends user calls _ away)
run_receipts-Extends user (discards recipient id ∷ calls) db away =
    Extends-then _ _ _ (Extends-same _ _ (discard_other user recipient id db.receipts away.0))
      (run_receipts-Extends user calls _ away.1)
