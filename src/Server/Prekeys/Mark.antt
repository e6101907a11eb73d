-- ===== src/Server/Prekeys/Mark.antt =====
-- prekeys.rs and users.rs: the high-water mark of each user's pre-key ids, and when an upload is stored.
use cmp.Base.{
  ℕ, ◌-◌, ◌≤◌, ◌<◌, ◌≡◌, ap, String, List, [], ◌∷◌, ◌++◌, some, arith, ◌⊎◌, inl, inr, ◌==◌, ==-refl,
  string_eq, Bool-cases, Option-cases, leb, ltb, length, if◌then◌else◌, nat_eq,
}
use cmp.Base.Bytes.{Bytes, u32_max}
use cmp.Base.Rows.{find, count, delete, find-append}
use cmp.Server.Db.{Db, InventoryRow, to_i64}
use cmp.Server.Prekeys.{
  set_high_water, minimum_id, maximum_id, inventory_of, owned, expired, upload_prekeys,
  upload_within, store_batch, is_known, is_out_of_sequence, public_prekey_retention_secs,
  saturating_add,
}

-- The user has a mark, and the key id does not pass it.
pub record Marked (rows : List InventoryRow) (user : String) (key_id : ℕ) : Type 0 where
  pub row : InventoryRow
  pub found : find (inventory_of user) rows ≡ some row
  pub below : key_id ≤ row.high_water

find-set_high_water :
    (user : String) (mark : ℕ) (rows : List InventoryRow) (u : String) (i : InventoryRow)
    → find (inventory_of u) rows ≡ some i
    → find (inventory_of u) (set_high_water user mark rows)
      ≡ some (if user == u then record i { high_water = mark } else i)
unfolding find set_high_water
find-set_high_water user mark [] u i h = ground arith
find-set_high_water user mark (r ∷ rows) u i h = ground (
  arith,
  find-set_high_water user mark rows u i,
  string_eq.equal_iff r.user_id u,
  string_eq.equal_iff r.user_id user,
  string_eq.equal_iff user u,
)

-- The mark only rises.
pub Marked-set_high_water :
    (user : String) (mark : ℕ) (rows : List InventoryRow) (i : InventoryRow) (u : String) (k : ℕ)
    → find (inventory_of user) rows ≡ some i
    → i.high_water ≤ mark
    → Marked rows u k
    → Marked (set_high_water user mark rows) u k
Marked-set_high_water user mark rows i u k found rises m = record {
  row = if user == u then record m.row { high_water = mark } else m.row;
  found = find-set_high_water user mark rows u m.row m.found;
  below = ground (
    arith,
    m.below,
    m.found,
    found,
    rises,
    string_eq.equal_iff user u,
    ap (λ (w : String). find (inventory_of w) rows) {x = user} {y = u},
  );
}

-- The new mark covers what is up to it.
pub Marked-new_mark :
    (user : String) (mark : ℕ) (rows : List InventoryRow) (i : InventoryRow) (k : ℕ)
    → find (inventory_of user) rows ≡ some i
    → k ≤ mark
    → Marked (set_high_water user mark rows) user k
Marked-new_mark user mark rows i k found le = record {
  row = record i { high_water = mark };
  found = ground (arith, find-set_high_water user mark rows user i found, ==-refl user);
  below = le;
}

pub Marked-append :
    (rows : List InventoryRow) (i : InventoryRow) (u : String) (k : ℕ)
    → Marked rows u k
    → Marked (rows ++ i ∷ []) u k
Marked-append rows i u k m = record {
  row = m.row;
  found = ground (arith, find-append (inventory_of u) rows (i ∷ []), m.found);
  below = m.below;
}

-- An upload that is stored: every id of the batch is above the mark that was there.
pub record Stores (db : Db) (user : String) (batch : List (ℕ × Bytes)) (clock : ℕ) (result : Db)
    : Type 0 where
  pub row : InventoryRow
  pub found : find (inventory_of user) db.inventory ≡ some row
  pub lowest : ℕ
  pub minimum : minimum_id batch ≡ some lowest
  pub above : row.high_water < lowest
  pub stored :
      result
      ≡ store_batch
          (record db {
            prekeys = delete (expired user (clock - public_prekey_retention_secs)) db.prekeys;
          })
          user
          batch
          clock
          row.high_water

pub upload_cases :
    (db : Db) (user : String) (batch : List (ℕ × Bytes)) (max_prekeys_per_user clock : ℕ)
    → let result = (upload_prekeys db user batch max_prekeys_per_user clock).1 in
      (result ≡ db) ⊎ Stores db user batch clock result
unfolding upload_prekeys upload_within is_known is_out_of_sequence
upload_cases db user batch limit clock =
    elim (Option-cases (find (inventory_of user) db.inventory)) [
      | inl e ↦ inl (ground (arith, e))
      | inr (i, e) ↦ elim (Option-cases (minimum_id batch)) [
        | inl f ↦ inl (ground (arith, e, f))
        | inr (lo, f) ↦ elim (Bool-cases (leb lo i.high_water)) [
          | inl low ↦ inl (ground (arith, e, f, low))
          | inr high ↦
              let tx = record db {
                prekeys = delete (expired user (clock - public_prekey_retention_secs)) db.prekeys;
              } in
              elim (Bool-cases (is_known i.high_water (maximum_id batch))) [
                | inl g ↦ inl (ground (arith, e, g))
                | inr g ↦
                    elim (Bool-cases (
                      ltb (to_i64 limit)
                        (saturating_add (count (owned user) tx.prekeys) (to_i64 (length batch))))) [
                          | inl full ↦ inl (ground (arith, e, f, g, high, full))
                          | inr room ↦
                              elim (Bool-cases (
                                ltb u32_max (
                                  count (owned user)
                                    (store_batch tx user batch clock i.high_water).prekeys))) [
                                      | inl big ↦ inl (ground (arith, e, f, g, high, room, big))
                                      | inr small ↦ inr (record {
                                        row = i;
                                        found = e;
                                        lowest = lo;
                                        minimum = f;
                                        above = ground (arith, high);
                                        stored = ground (arith, e, f, g, high, room, small);
                                      })
                                    ]
                        ]
              ]
        ]
      ]
    ]
