-- ===== src/Server/Prekeys.antt =====
-- server/src/db/prekeys.rs: the one-time pre-keys that users upload and that others fetch.
-- `clock` is SQLite's `unixepoch()`. A DELETE of the row with a `rowid` is that of the row with
-- the same user and key id, which are UNIQUE together.
pub mod Batch
pub mod Mark
use cmp.Base.{
  ℕ, ◌+◌, ◌-◌, String, Bool, true, false, ◌&&◌, List, [], ◌∷◌, ◌++◌, Option, none, some, leb, ltb,
  if◌then◌else◌, length, ◌==◌, string_eq, nat_eq,
}
use cmp.Base.Bytes.{Bytes, u32_max}
use cmp.Base.Rows.{find, count, delete, exists}
use cmp.Server.Db.{Db, PrekeyRow, InventoryRow, Result, ok, err, no_rows, out_of_range, to_i64}

abbrev pub public_prekey_retention_secs : ℕ
public_prekey_retention_secs = 2592000

abbrev pub one_time_prekey_reservation_secs : ℕ
one_time_prekey_reservation_secs = 86400

pub data UploadResult : Type 0 where
  accepted inventory_full : ℕ → UploadResult
  invalid_sequence : UploadResult

-- `u32::try_from(n).unwrap_or(u32::MAX)`.
abbrev pub to_u32 : ℕ → ℕ
to_u32 n = if leb n u32_max then n else u32_max

-- `saturating_add` on i64, for numbers that are not negative.
abbrev pub saturating_add : ℕ → ℕ → ℕ
saturating_add a b = to_i64 (a + b)

unfoldable pub minimum_id : List (ℕ × Bytes) → Option ℕ
minimum_id [] = none
minimum_id ((key_id, _) ∷ rest) = elim (minimum_id rest) [
  | none ↦ some key_id
  | some m ↦ some (if leb key_id m then key_id else m)
]

unfoldable pub maximum_id : List (ℕ × Bytes) → Option ℕ
maximum_id [] = none
maximum_id ((key_id, _) ∷ rest) = elim (maximum_id rest) [
  | none ↦ some key_id
  | some m ↦ some (if leb m key_id then key_id else m)
]

abbrev pub owned : String → PrekeyRow → Bool
owned user r = r.user_id == user

abbrev pub is_prekey : String → ℕ → PrekeyRow → Bool
is_prekey user key_id r = r.user_id == user && r.key_id == key_id

abbrev pub expired : String → ℕ → PrekeyRow → Bool
expired user cutoff r = r.user_id == user && ltb r.created_at cutoff

abbrev pub inventory_of : String → InventoryRow → Bool
inventory_of user i = i.user_id == user

-- INSERT OR IGNORE, for each key of the batch.
unfoldable pub insert_prekeys : String → ℕ → List (ℕ × Bytes) → List PrekeyRow → List PrekeyRow
insert_prekeys user_id clock [] rows = rows
insert_prekeys user_id clock ((key_id, public_key) ∷ rest) rows =
    insert_prekeys user_id clock rest (
      if exists (is_prekey user_id key_id) rows
      then rows
      else rows
        ++ record {
          user_id = user_id;
          key_id = key_id;
          public_key = public_key;
          created_at = clock;
        }
          ∷ [])

unfoldable pub set_high_water : String → ℕ → List InventoryRow → List InventoryRow
set_high_water user_id high_water [] = []
set_high_water user_id high_water (i ∷ rest) =
    (if inventory_of user_id i then record i { high_water = high_water } else i)
    ∷ set_high_water user_id high_water rest

-- `maximum_id.is_some_and(|maximum| maximum <= high_water)`.
unfoldable pub is_known : ℕ → Option ℕ → Bool
is_known high_water none = false
is_known high_water (some maximum) = leb maximum high_water

-- `minimum.is_none_or(|minimum| minimum <= high_water)`.
unfoldable pub is_out_of_sequence : ℕ → Option ℕ → Bool
is_out_of_sequence high_water none = true
is_out_of_sequence high_water (some minimum) = leb minimum high_water

-- `maximum_id.unwrap_or(high_water)`.
abbrev pub or_else : ℕ → Option ℕ → ℕ
or_else d none = d
or_else d (some n) = n

-- The inserts, the new high-water mark and the commit.
unfoldable pub store_batch : Db → String → List (ℕ × Bytes) → ℕ → ℕ → Db
unfolding insert_prekeys set_high_water maximum_id
store_batch tx user_id prekeys clock high_water = record tx {
  prekeys = insert_prekeys user_id clock prekeys tx.prekeys;
  inventory = set_high_water user_id (or_else high_water (maximum_id prekeys)) tx.inventory;
}

unfoldable pub upload_within :
    Db → Db → String → List (ℕ × Bytes) → ℕ → ℕ → ℕ → Result UploadResult × Db
unfolding store_batch is_known is_out_of_sequence minimum_id
upload_within db tx user_id prekeys max_prekeys_per_user clock high_water =
    let existing = count (owned user_id) tx.prekeys in
    let stored = store_batch tx user_id prekeys clock high_water in
    let remaining = count (owned user_id) stored.prekeys in
    if is_known high_water (maximum_id prekeys)
    then (ok (accepted (to_u32 existing)), db)
    else if is_out_of_sequence high_water (minimum_id prekeys)
    then (ok invalid_sequence, db)
    else if ltb (to_i64 max_prekeys_per_user) (saturating_add existing (to_i64 (length prekeys)))
    then (ok (inventory_full (to_u32 existing)), db)
    else if ltb u32_max remaining
    then (err out_of_range, db)
    else (ok (accepted remaining), stored)

unfoldable pub upload_prekeys : Db → String → List (ℕ × Bytes) → ℕ → ℕ → Result UploadResult × Db
unfolding upload_within
upload_prekeys db user_id prekeys max_prekeys_per_user clock =
    let tx = record db {
      prekeys = delete (expired user_id (clock - public_prekey_retention_secs)) db.prekeys;
    } in
    elim (find (inventory_of user_id) tx.inventory) [
      | none ↦ (err no_rows, db)
      | some i ↦ upload_within db tx user_id prekeys max_prekeys_per_user clock i.high_water
    ]

unfoldable pub count_prekeys : Db → String → ℕ → Result ℕ
count_prekeys db user_id clock =
    let n =
      count
        (λ (r : PrekeyRow).
          r.user_id == user_id && leb (clock - public_prekey_retention_secs) r.created_at)
        db.prekeys in
    if ltb u32_max n then err out_of_range else ok n
