-- ===== src/Server/Queue.antt =====
-- server/src/db/queue.rs: the store-and-forward queue and the ledger of accepted messages.
-- `digest` is the third-party `Sha256::digest`. `clock` is SQLite's `datetime('now')`.
pub mod Outcome
pub mod Retry
pub mod Storage
pub mod Invariant
pub mod History
use cmp.Base.{
  ℕ, ◌+◌, String, Bool, true, ◌&&◌, List, [], ◌∷◌, ◌++◌, map, Option, none, some, leb, ltb,
  if◌then◌else◌, ◌==◌, string_eq, nat_eq, list_eq, option_eq,
}
use cmp.Base.Bytes.{Bytes}
use cmp.Base.Rows.{find, count, delete, exists}
use cmp.Server.Db.{Db, QueueRow, AcceptanceRow, ReservationRow, to_i64}
use mathlib.Core.Option

pub record EnqueueRequest : Type 0 where
  pub message_id : String
  pub recipient_id : String
  pub sender_id : String
  pub envelope_json : String
  pub max_queue_per_user : ℕ
  pub signed_prekey_id : Option ℕ
  pub one_time_prekey_id : Option ℕ
  pub now : ℕ

pub data EnqueueResult : Type 0 where
  inserted duplicate queue_full recipient_not_found : EnqueueResult
  prekey_reservation_invalid signed_prekey_expired message_id_conflict : EnqueueResult
  acceptance_ledger_full : EnqueueResult

abbrev pub max_global_acceptances : ℕ
max_global_acceptances = 1000000

-- `protocol::consts::MAX_PENDING_OUTBOUND_ITEMS`.
abbrev pub max_pending_outbound_items : ℕ
max_pending_outbound_items = 1000

-- One more than the largest `rowid` in use.
unfoldable pub next_row_id : List QueueRow → ℕ
next_row_id [] = 1
next_row_id (r ∷ rs) = let rest = next_row_id rs in if leb rest r.row_id then r.row_id + 1 else rest

abbrev pub to_recipient : String → QueueRow → Bool
to_recipient id r = r.recipient_id == id

abbrev pub has_id : String → QueueRow → Bool
has_id id r = r.message_id == id

abbrev pub accepted_id : String → AcceptanceRow → Bool
accepted_id id r = r.message_id == id

abbrev pub accepted_from : String → AcceptanceRow → Bool
accepted_from id r = r.sender_id == id

unfoldable pub same_message : EnqueueRequest → Bytes → AcceptanceRow → Bool
same_message request envelope_digest r =
    r.recipient_id == request.recipient_id
    && (r.sender_id == request.sender_id && r.envelope_digest == envelope_digest)

unfoldable pub classify_existing : Db → EnqueueRequest → Bytes → Option EnqueueResult
unfolding same_message
classify_existing tx request envelope_digest =
    Option.map
      (λ r. if same_message request envelope_digest r then duplicate else message_id_conflict)
      (find (accepted_id request.message_id) tx.acceptances)

-- The key that the header names is still among the recipient's signed pre-keys.
unfoldable pub signed_prekey_retained : Db → String → Option ℕ → Bool
signed_prekey_retained tx recipient none = true
signed_prekey_retained tx recipient (some key_id) =
    exists (λ k. k.user_id == recipient && k.key_id == key_id) tx.signed_prekeys

-- The last statement: the reservation is deleted, and its absence is an error.
unfoldable pub claim_one_time : Db → EnqueueRequest → Option ℕ → Option EnqueueResult × Db
claim_one_time tx request none = (none, tx)
claim_one_time tx request (some key_id) =
    let mine = λ (r : ReservationRow).
      r.requester_id == request.sender_id
      && (r.target_id == request.recipient_id
          && (r.key_id == key_id && leb request.now r.expires_at)) in
    let claimed = count mine tx.reservations in
    (
      if claimed == 0 then some prekey_reservation_invalid else none,
      record tx { reservations = delete mine tx.reservations },
    )

unfoldable pub claim_prekey_reservation : Db → EnqueueRequest → Option EnqueueResult × Db
unfolding signed_prekey_retained claim_one_time
claim_prekey_reservation tx request =
    if leb (to_i64 max_pending_outbound_items)
      (count (accepted_from request.sender_id) tx.acceptances)
    then (some acceptance_ledger_full, tx)
    else if leb max_global_acceptances tx.item_count
    then (some acceptance_ledger_full, tx)
    else let reserved = record tx {
      item_count = tx.item_count + 1;
      reservations = delete (λ r. ltb r.expires_at request.now) tx.reservations;
    } in
      if signed_prekey_retained reserved request.recipient_id request.signed_prekey_id
      then claim_one_time reserved request request.one_time_prekey_id
      else (some signed_prekey_expired, reserved)

-- INSERT OR IGNORE: a row with the same primary key stays, and nothing is inserted.
unfoldable pub insert_message : List QueueRow → EnqueueRequest → ℕ → List QueueRow
insert_message rows request clock =
    if exists (has_id request.message_id) rows
    then rows
    else rows
      ++ record {
        row_id = next_row_id rows;
        message_id = request.message_id;
        recipient_id = request.recipient_id;
        sender_id = request.sender_id;
        envelope_json = request.envelope_json;
        created_at = clock;
      }
        ∷ []

-- The two inserts and the commit. The second cannot meet its primary key: `classify_existing` has
-- found no row with the message's id.
unfoldable pub accept : Db → EnqueueRequest → Bytes → ℕ → EnqueueResult × Db
unfolding insert_message
accept tx request envelope_digest clock = (
  if exists (has_id request.message_id) tx.message_queue then duplicate else inserted,
  record tx {
    message_queue = insert_message tx.message_queue request clock;
    acceptances =
        tx.acceptances
        ++ record {
          message_id = request.message_id;
          recipient_id = request.recipient_id;
          sender_id = request.sender_id;
          envelope_digest = envelope_digest;
          accepted_at = request.now;
        }
          ∷ [];
  },
)

-- `if let Some(result) = claim { rollback; return result }`, and else the inserts.
unfoldable pub accept_unless :
    Db → EnqueueRequest → Bytes → ℕ → Option EnqueueResult × Db → EnqueueResult × Db
unfolding accept
accept_unless db request envelope_digest clock (some result, tx) = (result, db)
accept_unless db request envelope_digest clock (none, tx) = accept tx request envelope_digest clock

unfoldable pub enqueue_new : Db → EnqueueRequest → Bytes → ℕ → EnqueueResult × Db
unfolding accept_unless
enqueue_new db request envelope_digest clock =
    if exists (λ u. u.user_id == request.recipient_id) db.users
    then if leb (to_i64 request.max_queue_per_user)
        (count (to_recipient request.recipient_id) db.message_queue)
      then (queue_full, db)
      else accept_unless db request envelope_digest clock (claim_prekey_reservation db request)
    else (recipient_not_found, db)

module _ (digest : String → Bytes) where
  -- The whole transaction.
  unfoldable pub enqueue : Db → EnqueueRequest → ℕ → EnqueueResult × Db
  unfolding enqueue_new
  enqueue db request clock =
      let envelope_digest = digest request.envelope_json in
      elim (classify_existing db request envelope_digest) [
        | some result ↦ (result, db)
        | none ↦ enqueue_new db request envelope_digest clock
      ]
