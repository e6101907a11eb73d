-- ===== src/Server/Db.antt =====
-- server/src/db/schema.rs: the tables of the relay's database, as `initialize` leaves them. A table
-- is the list of its rows in the order of their `rowid`. Times are in seconds. A transaction that
-- is rolled back, by `rollback` or by an error, returns the database that it started from.
use cmp.Base.{ℕ, String, Bool, List, [], if◌then◌else◌, leb, ◌^◌, ◌-◌}
use cmp.Base.Bytes.{Bytes}

pub record UserRow : Type 0 where
  pub user_id : String
  pub identity_key : Bytes

pub record SignedPrekeyRow : Type 0 where
  pub user_id : String
  pub key_id : ℕ
  pub public_key : Bytes
  pub signature : Bytes

pub record PrekeyRow : Type 0 where
  pub user_id : String
  pub key_id : ℕ
  pub public_key : Bytes
  pub created_at : ℕ

-- The largest pre-key id that a user has ever uploaded; the code starts it at 2^31 - 1.
pub record InventoryRow : Type 0 where
  pub user_id : String
  pub high_water : ℕ

pub record FetchEventRow : Type 0 where
  pub requester_id : String
  pub target_id : String
  pub created_at : ℕ

pub record ReservationRow : Type 0 where
  pub requester_id : String
  pub target_id : String
  pub key_id : ℕ
  pub expires_at : ℕ

pub record QueueRow : Type 0 where
  pub row_id : ℕ
  pub message_id : String
  pub recipient_id : String
  pub sender_id : String
  pub envelope_json : String
  pub created_at : ℕ

pub record AcceptanceRow : Type 0 where
  pub message_id : String
  pub recipient_id : String
  pub sender_id : String
  pub envelope_digest : Bytes
  pub accepted_at : ℕ

pub record ReceiptRow : Type 0 where
  pub receipt_id : String
  pub recipient_id : String
  pub sender_id : String
  pub envelope : String
  pub acknowledged : Bool

-- `item_count` is the one row of `message_acceptance_stats`.
pub record Db : Type 0 where
  pub users : List UserRow
  pub signed_prekeys : List SignedPrekeyRow
  pub prekeys : List PrekeyRow
  pub inventory : List InventoryRow
  pub fetch_events : List FetchEventRow
  pub reservations : List ReservationRow
  pub message_queue : List QueueRow
  pub acceptances : List AcceptanceRow
  pub item_count : ℕ
  pub receipts : List ReceiptRow

-- An empty database after the migrations.
abbrev pub empty : Db
empty = record {
  users = [];
  signed_prekeys = [];
  prekeys = [];
  inventory = [];
  fetch_events = [];
  reservations = [];
  message_queue = [];
  acceptances = [];
  item_count = 0;
  receipts = [];
}

-- What makes a statement fail: a query for one row that finds none, a violated key, or a number
-- that its Rust type does not hold.
pub data DbError : Type 0 where
  no_rows constraint out_of_range : DbError

pub data Result {ℓ} (A : Type ℓ) : Type ℓ where
  ok : A → Result A
  err : DbError → Result A

abbrev pub i64_max : ℕ
i64_max = 2 ^ 63 - 1

-- `i64::try_from(n).unwrap_or(i64::MAX)`.
abbrev pub to_i64 : ℕ → ℕ
to_i64 n = if leb n i64_max then n else i64_max
