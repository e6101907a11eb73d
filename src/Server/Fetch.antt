-- ===== src/Server/Fetch.antt =====
-- server/src/db/prekeys.rs, `fetch_for_requester`: a requester takes one pre-key of a target.
-- `pick` is the row that SQLite gives for `SELECT rowid FROM prekeys WHERE user_id = ? LIMIT 1`,
-- a query that leaves open which one.
pub mod Outcome
pub mod Once
pub mod Reservation
pub mod History
use cmp.Base.{
  ℕ, ◌+◌, ◌-◌, ◌≡◌, String, Bool, ◌&&◌, ◌||◌, List, [], ◌∷◌, ◌++◌, Option, none, some, leb, ltb,
  if◌then◌else◌, ◌==◌, string_eq, nat_eq,
}
use cmp.Base.Bytes.{Bytes, u32_max}
use cmp.Base.Rows.{find, count, delete, exists}
use cmp.Server.Db.{
  Db, PrekeyRow, FetchEventRow, ReservationRow, Result, ok, err, constraint, out_of_range,
}
use cmp.Server.Prekeys.{
  expired, is_prekey, owned, public_prekey_retention_secs, one_time_prekey_reservation_secs,
}

pub record FetchLimits : Type 0 where
  pub window_secs : ℕ
  pub per_requester : ℕ
  pub per_target : ℕ

pub data FetchResult : Type 0 where
  fetched : ℕ → Bytes → FetchResult
  nothing target_depleted rate_limited : FetchResult

abbrev pub Pick : Type 0
Pick = String → List PrekeyRow → Option PrekeyRow

-- The row is one of the table's and belongs to the user, and there is one where the user has any.
pub record Picks (pick : Pick) : Type 0 where
  pub member :
      (user : String) (rows : List PrekeyRow) (r : PrekeyRow)
      → pick user rows ≡ some r
      → (before after : List PrekeyRow) × (rows ≡ before ++ r ∷ after)
  pub owner :
      (user : String) (rows : List PrekeyRow) (r : PrekeyRow)
      → pick user rows ≡ some r
      → r.user_id ≡ user
  pub served :
      (user : String) (rows : List PrekeyRow)
      → pick user rows ≡ none
      → find (owned user) rows ≡ none

abbrev pub requested : String → ℕ → FetchEventRow → Bool
requested requester cutoff e = e.requester_id == requester && leb cutoff e.created_at

abbrev pub targeted : String → ℕ → FetchEventRow → Bool
targeted target cutoff e = e.target_id == target && leb cutoff e.created_at

abbrev pub reserved_as : String → String → ℕ → ReservationRow → Bool
reserved_as requester target key_id r =
    r.requester_id == requester && (r.target_id == target && r.key_id == key_id)

-- The rows that are out of date go first.
unfoldable pub sweep : Db → String → ℕ → FetchLimits → Db
sweep db target_id now limits = record db {
  reservations = delete (λ (r : ReservationRow). ltb r.expires_at now) db.reservations;
  prekeys = delete (expired target_id (now - public_prekey_retention_secs)) db.prekeys;
  fetch_events =
      delete (λ (e : FetchEventRow). ltb e.created_at (now - limits.window_secs)) db.fetch_events;
}

-- The pre-key is deleted, and the event and the reservation are written.
unfoldable pub take_prekey : Db → Db → String → String → ℕ → PrekeyRow → Result FetchResult × Db
take_prekey db tx requester_id target_id now r =
    if exists (reserved_as requester_id target_id r.key_id) tx.reservations
    then (err constraint, db)
    else (
      ok (fetched r.key_id r.public_key),
      record tx {
        prekeys = delete (is_prekey r.user_id r.key_id) tx.prekeys;
        fetch_events =
            tx.fetch_events
            ++ record { requester_id = requester_id; target_id = target_id; created_at = now } ∷ [];
        reservations =
            tx.reservations
            ++ record {
              requester_id = requester_id;
              target_id = target_id;
              key_id = r.key_id;
              expires_at = now + one_time_prekey_reservation_secs;
            }
              ∷ [];
      },
    )

unfoldable pub serve : Db → Db → String → String → ℕ → Option PrekeyRow → Result FetchResult × Db
unfolding take_prekey
serve db tx requester_id target_id now none = (ok nothing, tx)
serve db tx requester_id target_id now (some r) = take_prekey db tx requester_id target_id now r

module _ (pick : Pick) where
  unfoldable pub fetch_for_requester :
      Db → String → String → ℕ → FetchLimits → Result FetchResult × Db
  unfolding sweep serve
  fetch_for_requester db requester_id target_id now limits =
      let tx = sweep db target_id now limits in
      let cutoff = now - limits.window_secs in
      let requester_count = count (requested requester_id cutoff) tx.fetch_events in
      let target_count = count (targeted target_id cutoff) tx.fetch_events in
      if ltb u32_max requester_count || ltb u32_max target_count
      then (err out_of_range, db)
      else if leb limits.per_requester requester_count
      then (ok rate_limited, db)
      else if leb limits.per_target target_count
      then (ok target_depleted, db)
      else serve db tx requester_id target_id now (pick target_id tx.prekeys)
