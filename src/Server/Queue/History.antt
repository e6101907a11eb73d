-- ===== src/Server/Queue/History.antt =====
-- queue.rs: a database along a history of the queue's operations.
use cmp.Base.{ℕ, ◌+◌, ◌≤◌, ◌≡◌, refl, String, Bool, List, [], ◌∷◌, arith, string_eq, nat_eq, length}
use cmp.Base.Bytes.{Bytes}
use cmp.Base.Rows.{count, delete, count-delete-le, count-delete_self}
use cmp.Server.Db.{Db, QueueRow, AcceptanceRow}
use cmp.Server.Queue.{EnqueueRequest, accepted_from, to_recipient, enqueue}
use cmp.Server.Drain.{
  confirm_acceptances, delete_accepted, accepted_as, delete_messages, delete_rows, addressed,
  delete_invalid_row, gc_old_messages,
}
use cmp.Server.Queue.Invariant.{WellFormed, Increasing, Increasing-delete, enqueue-WellFormed}

-- The deletions count what they take away.
pub delete_accepted_lem :
    (sender : String) (ids : List String) (deleted : ℕ) (rows : List AcceptanceRow)
    → (delete_accepted sender ids deleted rows).0
        + length (delete_accepted sender ids deleted rows).1
      ≡ deleted + length rows
unfolding delete_accepted
delete_accepted_lem sender [] deleted rows = refl
delete_accepted_lem sender (id ∷ ids) deleted rows = omega (
  arith,
  delete_accepted_lem sender ids (deleted + count (accepted_as sender id) rows)
      (delete (accepted_as sender id) rows),
  count-delete_self (accepted_as sender id) rows,
)

count-delete_accepted-le :
    (sender : String) (ids : List String) (deleted : ℕ) (rows : List AcceptanceRow) (user : String)
    → count (accepted_from user) (delete_accepted sender ids deleted rows).1
      ≤ count (accepted_from user) rows
unfolding delete_accepted
count-delete_accepted-le sender [] deleted rows user = omega arith
count-delete_accepted-le sender (id ∷ ids) deleted rows user = omega (
  arith,
  count-delete_accepted-le sender ids (deleted + count (accepted_as sender id) rows)
      (delete (accepted_as sender id) rows) user,
  count-delete-le (accepted_as sender id) (accepted_from user) rows,
)

count-delete_rows-le :
    (recipient : String) (ids : List String) (deleted : ℕ) (rows : List QueueRow) (user : String)
    → count (to_recipient user) (delete_rows recipient ids deleted rows).1
      ≤ count (to_recipient user) rows
unfolding delete_rows
count-delete_rows-le recipient [] deleted rows user = omega arith
count-delete_rows-le recipient (id ∷ ids) deleted rows user = omega (
  arith,
  count-delete_rows-le recipient ids (deleted + count (addressed recipient id) rows)
      (delete (addressed recipient id) rows) user,
  count-delete-le (addressed recipient id) (to_recipient user) rows,
)

delete_rows-Increasing :
    (recipient : String) (ids : List String) (deleted : ℕ) (rows : List QueueRow)
    → Increasing rows
    → Increasing (delete_rows recipient ids deleted rows).1
unfolding delete_rows
delete_rows-Increasing recipient [] deleted rows inc = inc
delete_rows-Increasing recipient (id ∷ ids) deleted rows inc =
    delete_rows-Increasing recipient ids (deleted + count (addressed recipient id) rows)
      (delete (addressed recipient id) rows) (Increasing-delete (addressed recipient id) rows inc)

confirm_acceptances-WellFormed :
    (limit : ℕ) (db : Db) (sender : String) (ids : List String)
    → WellFormed limit db
    → WellFormed limit (confirm_acceptances db sender ids)
unfolding confirm_acceptances
confirm_acceptances-WellFormed limit db sender ids v = record {
  counted = ground (arith, v.counted, v.global, delete_accepted_lem sender ids 0 db.acceptances);
  global = omega (arith, v.global);
  per_sender =
      λ s. omega (arith, v.per_sender s, count-delete_accepted-le sender ids 0 db.acceptances s);
  per_recipient = v.per_recipient;
  ordered = v.ordered;
}

delete_messages-WellFormed :
    (limit : ℕ) (db : Db) (recipient : String) (ids : List String)
    → WellFormed limit db
    → WellFormed limit (delete_messages db recipient ids).1
unfolding delete_messages
delete_messages-WellFormed limit db recipient ids v = record {
  counted = v.counted;
  global = v.global;
  per_sender = v.per_sender;
  per_recipient = λ r.
      omega (arith, v.per_recipient r, count-delete_rows-le recipient ids 0 db.message_queue r);
  ordered = delete_rows-Increasing recipient ids 0 db.message_queue v.ordered;
}

-- One DELETE from the queue.
delete-WellFormed :
    (limit : ℕ) (db : Db) (p : QueueRow → Bool)
    → WellFormed limit db
    → WellFormed limit (record db { message_queue = delete p db.message_queue })
delete-WellFormed limit db p v = record {
  counted = v.counted;
  global = v.global;
  per_sender = v.per_sender;
  per_recipient =
      λ r. omega (arith, v.per_recipient r, count-delete-le p (to_recipient r) db.message_queue);
  ordered = Increasing-delete p db.message_queue v.ordered;
}

-- A call of an operation with its arguments.
pub data Operation : Type 0 where
  enqueues : EnqueueRequest → ℕ → Operation
  confirms : String → List String → Operation
  deletes : String → List String → Operation
  deletes_invalid : String → ℕ → Operation
  collects : ℕ → ℕ → Operation

abbrev pub Within : ℕ → List Operation → Type 0
Within limit [] = Unit
Within limit (enqueues request clock ∷ ops) =
    (request.max_queue_per_user ≤ limit) × Within limit ops
Within limit (_ ∷ ops) = Within limit ops

module _ (digest : String → Bytes) where
  abbrev pub after : Operation → Db → Db
  after (enqueues request clock) db = (enqueue digest db request clock).1
  after (confirms sender ids) db = confirm_acceptances db sender ids
  after (deletes recipient ids) db = (delete_messages db recipient ids).1
  after (deletes_invalid recipient row_id) db = delete_invalid_row db recipient row_id
  after (collects clock days) db = (gc_old_messages db clock days).1

  unfoldable pub run : List Operation → Db → Db
  run [] db = db
  run (op ∷ ops) db = run ops (after op db)

  -- From a well-formed database, over every history of enqueues, confirmations, acknowledgements, and deletions, the counter of
  -- the ledger is its number of rows, the ledger keeps its global limit and its limit for each
  -- sender, no recipient's queue passes the largest limit that a request gave, and the row ids grow.
  pub run-WellFormed :
      (limit : ℕ) (ops : List Operation) (db : Db)
      → Within limit ops
      → WellFormed limit db
      → WellFormed limit (run ops db)
  unfolding run delete_invalid_row gc_old_messages
  run-WellFormed limit [] db w v = v
  run-WellFormed limit (enqueues request clock ∷ ops) db w v =
      run-WellFormed limit ops _ w.1 (enqueue-WellFormed digest limit db request clock w.0 v)
  run-WellFormed limit (confirms sender ids ∷ ops) db w v =
      run-WellFormed limit ops _ w (confirm_acceptances-WellFormed limit db sender ids v)
  run-WellFormed limit (deletes recipient ids ∷ ops) db w v =
      run-WellFormed limit ops _ w (delete_messages-WellFormed limit db recipient ids v)
  run-WellFormed limit (deletes_invalid recipient row_id ∷ ops) db w v =
      run-WellFormed limit ops _ w (delete-WellFormed limit db _ v)
  run-WellFormed limit (collects clock days ∷ ops) db w v =
      run-WellFormed limit ops _ w (delete-WellFormed limit db _ v)
