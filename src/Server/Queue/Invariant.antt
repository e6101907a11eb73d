-- ===== src/Server/Queue/Invariant.antt =====
-- queue.rs: the ledger's counter and the limits hold after any history of the queue's operations.
use cmp.Base.{
  ℕ, ◌+◌, ◌≤◌, ◌<◌, ◌≡◌, ap, String, Bool, List, [], ◌∷◌, ◌++◌, arith, inl, inr, string_eq, nat_eq,
  length, length-append,
}
use cmp.Base.Bytes.{Bytes}
use cmp.Base.Rows.{All, count, delete, count-append, All-append, All-delete}
use cmp.Server.Db.{Db, QueueRow, AcceptanceRow, to_i64}
use cmp.Server.Queue.{
  EnqueueRequest, accepted_from, to_recipient, next_row_id, insert_message, enqueue, accept,
  max_global_acceptances, max_pending_outbound_items,
}
use cmp.Server.Queue.Outcome.{enqueue_cases}

-- The row ids grow along the table.
abbrev pub Increasing : List QueueRow → Type 0
Increasing [] = Unit
Increasing (r ∷ rs) = All (λ (q : QueueRow). r.row_id < q.row_id) rs × Increasing rs

-- `limit` is the largest `max_queue_per_user` of the requests.
pub record WellFormed (limit : ℕ) (db : Db) : Type 0 where
  pub counted : db.item_count ≡ length db.acceptances
  pub global : db.item_count ≤ max_global_acceptances
  pub per_sender :
      (s : String) → count (accepted_from s) db.acceptances ≤ max_pending_outbound_items
  pub per_recipient : (r : String) → count (to_recipient r) db.message_queue ≤ limit
  pub ordered : Increasing db.message_queue

Below : ℕ → List QueueRow → Type 0
Below n = All (λ (q : QueueRow). q.row_id < n)

Below-mono : (m n : ℕ) (rows : List QueueRow) → m ≤ n → Below m rows → Below n rows
unfolding Below
Below-mono m n [] le h = tt
Below-mono m n (r ∷ rs) le h = (omega arith, Below-mono m n rs le h.1)

next_row_id-Below : (rows : List QueueRow) → Below (next_row_id rows) rows
unfolding next_row_id Below
next_row_id-Below [] = tt
next_row_id-Below (r ∷ rs) =
    ground (arith, next_row_id-Below rs, Below-mono (next_row_id rs) (r.row_id + 1) rs)

Increasing-append :
    (rows : List QueueRow) (row : QueueRow)
    → Below row.row_id rows
    → Increasing rows
    → Increasing (rows ++ row ∷ [])
unfolding Below
Increasing-append [] row below inc = (tt, tt)
Increasing-append (r ∷ rs) row below inc = (
  All-append (λ (q : QueueRow). r.row_id < q.row_id) rs (row ∷ []) inc.0 (below.0, tt),
  Increasing-append rs row below.1 inc.1,
)

pub Increasing-delete :
    (p : QueueRow → Bool) (rows : List QueueRow) → Increasing rows → Increasing (delete p rows)
unfolding delete
Increasing-delete p [] inc = inc
Increasing-delete p (r ∷ rs) inc = ground (
  arith,
  Increasing-delete p rs inc.1,
  All-delete (λ (q : QueueRow). r.row_id < q.row_id) p rs inc.0,
)

insert_message-Increasing :
    (rows : List QueueRow) (request : EnqueueRequest) (clock : ℕ)
    → Increasing rows
    → Increasing (insert_message rows request clock)
unfolding insert_message
insert_message-Increasing rows request clock inc = ground (
  arith,
  inc,
  Increasing-append rows
      (record {
        row_id = next_row_id rows;
        message_id = request.message_id;
        recipient_id = request.recipient_id;
        sender_id = request.sender_id;
        envelope_json = request.envelope_json;
        created_at = clock;
      })
      (next_row_id-Below rows) inc,
)

-- One row more, at most, and only for the recipient.
count-insert_message :
    (limit : ℕ) (rows : List QueueRow) (request : EnqueueRequest) (clock : ℕ) (user : String)
    → count (to_recipient request.recipient_id) rows < limit
    → count (to_recipient user) rows ≤ limit
    → count (to_recipient user) (insert_message rows request clock) ≤ limit
unfolding insert_message count
count-insert_message limit rows request clock user room h =
    let row : QueueRow = record {
      row_id = next_row_id rows;
      message_id = request.message_id;
      recipient_id = request.recipient_id;
      sender_id = request.sender_id;
      envelope_json = request.envelope_json;
      created_at = clock;
    } in
    ground (
      arith,
      room,
      h,
      count-append (to_recipient user) rows (row ∷ []),
      string_eq.equal_iff request.recipient_id user,
      ap (λ (u : String). count (to_recipient u) rows) {x = request.recipient_id} {y = user},
    )

-- One ledger entry more, for the sender.
count-ledger :
    (rows : List AcceptanceRow) (row : AcceptanceRow) (user : String)
    → count (accepted_from row.sender_id) rows < max_pending_outbound_items
    → count (accepted_from user) rows ≤ max_pending_outbound_items
    → count (accepted_from user) (rows ++ row ∷ []) ≤ max_pending_outbound_items
unfolding count
count-ledger rows row user room h = ground (
  arith,
  room,
  h,
  count-append (accepted_from user) rows (row ∷ []),
  string_eq.equal_iff row.sender_id user,
  ap (λ (u : String). count (accepted_from u) rows) {x = row.sender_id} {y = user},
)

to_i64-le : (n : ℕ) → to_i64 n ≤ n
to_i64-le n = ground arith

module _ (digest : String → Bytes) where
  pub enqueue-WellFormed :
      (limit : ℕ) (db : Db) (request : EnqueueRequest) (clock : ℕ)
      → request.max_queue_per_user ≤ limit
      → WellFormed limit db
      → WellFormed limit (enqueue digest db request clock).1
  unfolding accept
  enqueue-WellFormed limit db request clock small v = elim (enqueue_cases digest db request clock) [
    | inl (same, _, _) ↦ rw same v
    | inr a ↦
        let g = a.granted in
        let row : AcceptanceRow = record {
          message_id = request.message_id;
          recipient_id = request.recipient_id;
          sender_id = request.sender_id;
          envelope_digest = digest request.envelope_json;
          accepted_at = request.now;
        } in
        rw a.result (record {
          counted =
              ground (
                arith,
                g.counted,
                v.counted,
                g.same_ledger,
                length-append db.acceptances (row ∷ []),
              );
          global = ground (arith, g.counted, g.global_room);
          per_sender = λ s. ground (
            arith,
            g.same_ledger,
            count-ledger db.acceptances row s g.sender_room (v.per_sender s),
          );
          per_recipient = λ r. ground (
            arith,
            g.same_queue,
            count-insert_message limit db.message_queue request clock r
                (omega (arith, a.room, to_i64-le request.max_queue_per_user)) (v.per_recipient r),
          );
          ordered = ground (
            arith,
            g.same_queue,
            insert_message-Increasing db.message_queue request clock v.ordered,
          );
        })
  ]
