-- ===== src/Server/Fetch/Once.antt =====
-- prekeys.rs: a one-time pre-key is in the table or was handed out, and its owner's mark covers it.
use cmp.Base.{
  ℕ, ◌+◌, ◌-◌, ◌≤◌, ◌<◌, ◌≡◌, refl, ap, ap₂, subst, sym, ◌≢◌, String, Bool, List, [], ◌∷◌, ◌++◌,
  some, arith, inl, inr, ◌==◌, ==-refl, string_eq, nat_eq, ◌&&◌, dec_lt,
}
use cmp.Base.Bytes.{Bytes}
use cmp.Base.Rows.{
  find, count, delete, count-append, count-delete-le, find-delete_self, count-eq-zero_of_find,
}
use cmp.Server.Db.{Db, PrekeyRow, InventoryRow, Result, ok, err}
use cmp.Server.Prekeys.{
  is_prekey, expired, inventory_of, upload_prekeys, store_batch, maximum_id, or_else,
  public_prekey_retention_secs, minimum_id, set_high_water,
}
use cmp.Server.Prekeys.Batch.{Spans-lowest, Added, insert_prekeys_cases}
use cmp.Server.Prekeys.Mark.{Marked, Marked-set_high_water, Marked-new_mark, upload_cases}
use cmp.Server.Fetch.{
  FetchLimits, FetchResult, fetched, nothing, target_depleted, rate_limited, Pick, Picks,
  fetch_for_requester, sweep, take_prekey,
}
use cmp.Server.Fetch.Outcome.{fetch_cases}

-- The pre-keys that were handed out, the latest first: their owner and their id.
abbrev pub Ledger : Type 0
Ledger = List (String × ℕ)

abbrev pub served_as : String → ℕ → String × ℕ → Bool
served_as user key_id s = s.0 == user && s.1 == key_id

abbrev pub handed_out : String → Result FetchResult → Ledger
handed_out target (ok (fetched key_id public_key)) = (target, key_id) ∷ []
handed_out target _ = []

abbrev pub uses : Ledger → List PrekeyRow → String → ℕ → ℕ
uses served rows user key_id =
    count (served_as user key_id) served + count (is_prekey user key_id) rows

-- A pre-key is handed out or in the table, once at most, and its owner's mark covers it.
pub record OnceOnly (served : Ledger) (db : Db) : Type 0 where
  pub once : (user : String) (key_id : ℕ) → uses served db.prekeys user key_id ≤ 1
  pub marked :
      (user : String) (key_id : ℕ)
      → 0 < uses served db.prekeys user key_id
      → Marked db.inventory user key_id

-- What is not used more often stays covered.
pub OnceOnly-uses :
    (served later : Ledger) (db after : Db)
    → OnceOnly served db
    → ((user : String) (key_id : ℕ)
        → uses later after.prekeys user key_id ≤ uses served db.prekeys user key_id)
    → after.inventory ≡ db.inventory
    → OnceOnly later after
OnceOnly-uses served later db after o fewer same = record {
  once = λ u k. omega (arith, o.once u k, fewer u k);
  marked = λ u k used.
      subst (λ (rows : List InventoryRow). Marked rows u k) (sym same)
        (o.marked u k (omega (arith, used, fewer u k)));
}

-- Rows that go away do no harm.
OnceOnly-fewer :
    (served : Ledger) (db after : Db)
    → OnceOnly served db
    → ((user : String) (key_id : ℕ)
        → count (is_prekey user key_id) after.prekeys ≤ count (is_prekey user key_id) db.prekeys)
    → after.inventory ≡ db.inventory
    → OnceOnly served after
OnceOnly-fewer served db after o fewer same =
    OnceOnly-uses served served db after o (λ u k. omega (arith, fewer u k)) same

-- A new key was not handed out before: its id is above the old mark.
Added-unused :
    (served : Ledger) (db : Db) (user : String) (batch : List (ℕ × Bytes)) (i : InventoryRow)
    (lowest : ℕ) (u : String) (k after : ℕ)
    → OnceOnly served db
    → find (inventory_of user) db.inventory ≡ some i
    → minimum_id batch ≡ some lowest
    → i.high_water < lowest
    → Added user batch u k (count (is_prekey u k) db.prekeys) after
    → uses served db.prekeys u k ≡ 0
Added-unused served db user batch i lowest u k after o found least above a =
    elim (dec_lt 0 (uses served db.prekeys u k)) [
      | no unused ↦ omega arith
      | yes used ↦
          let m = o.marked u k used in
          absurd (
            ground (
              arith,
              above,
              least,
              found,
              a.spans.minimum,
              a.spans.low,
              m.found,
              m.below,
              ap (λ (w : String). find (inventory_of w) db.inventory) a.same_user,
            ))
    ]

store_batch-OnceOnly :
    (served : Ledger) (tx : Db) (user : String) (batch : List (ℕ × Bytes)) (clock : ℕ)
    (i : InventoryRow) (lowest : ℕ)
    → OnceOnly served tx
    → find (inventory_of user) tx.inventory ≡ some i
    → minimum_id batch ≡ some lowest
    → i.high_water < lowest
    → OnceOnly served (store_batch tx user batch clock i.high_water)
unfolding store_batch
store_batch-OnceOnly served tx user batch clock i lowest o found least above =
    let mark = or_else i.high_water (maximum_id batch) in
    let bounds = Spans-lowest batch lowest least in
    record {
      once = λ u k. elim (insert_prekeys_cases user clock batch tx.prekeys u k) [
        | inl same ↦ omega (arith, same, o.once u k)
        | inr a ↦ omega (
          arith,
          a.present,
          Added-unused served tx user batch i lowest u k _ o found least above a,
        )
      ];
      marked = λ u k used. elim (insert_prekeys_cases user clock batch tx.prekeys u k) [
        | inl same ↦
            Marked-set_high_water user mark tx.inventory i u k found
              (ground (arith, above, bounds.maximum, bounds.high))
              (o.marked u k (omega (arith, used, same)))
        | inr a ↦
            subst (λ (w : String). Marked (set_high_water user mark tx.inventory) w k) a.same_user
              (Marked-new_mark user mark tx.inventory i k found
                (ground (arith, a.spans.maximum, a.spans.high)))
      ];
    }

pub upload_prekeys-OnceOnly :
    (served : Ledger) (db : Db) (user : String) (batch : List (ℕ × Bytes)) (limit clock : ℕ)
    → OnceOnly served db
    → OnceOnly served (upload_prekeys db user batch limit clock).1
upload_prekeys-OnceOnly served db user batch limit clock o =
    elim (upload_cases db user batch limit clock) [
      | inl same ↦ rw same o
      | inr s ↦
          let old = expired user (clock - public_prekey_retention_secs) in
          let tx = record db { prekeys = delete old db.prekeys } in
          rw s.stored (
            store_batch-OnceOnly served tx user batch clock s.row s.lowest
              (OnceOnly-fewer served db tx o (λ u k. count-delete-le old (is_prekey u k) db.prekeys)
                refl)
              s.found s.minimum s.above)
    ]

count-delete_same :
    (user : String) (key_id : ℕ) (rows : List PrekeyRow)
    → count (is_prekey user key_id) (delete (is_prekey user key_id) rows) ≡ 0
count-delete_same user key_id rows =
    count-eq-zero_of_find (is_prekey user key_id) _
      (find-delete_self (is_prekey user key_id) (is_prekey user key_id) rows (λ r h. h))

-- A row of the table counts.
count-member :
    (before after : List PrekeyRow) (r : PrekeyRow)
    → 0 < count (is_prekey r.user_id r.key_id) (before ++ r ∷ after)
unfolding count
count-member before after r = ground (
  arith,
  count-append (is_prekey r.user_id r.key_id) before (r ∷ after),
  ==-refl r.user_id,
  ==-refl r.key_id,
)

-- The key that is taken moves from the table to the ledger.
taken_uses :
    (served : Ledger) (rows : List PrekeyRow) (r : PrekeyRow) (user : String) (key_id : ℕ)
    → 0 < count (is_prekey r.user_id r.key_id) rows
    → uses ((r.user_id, r.key_id) ∷ served) (delete (is_prekey r.user_id r.key_id) rows) user key_id
      ≤ uses served rows user key_id
unfolding count
taken_uses served rows r user key_id there = ground (
  arith,
  there,
  count-delete_same r.user_id r.key_id rows,
  count-delete-le (is_prekey r.user_id r.key_id) (is_prekey user key_id) rows,
  string_eq.equal_iff r.user_id user,
  nat_eq.equal_iff r.key_id key_id,
  ap₂ (λ (w : String) (i : ℕ). count (is_prekey w i) rows) {x = r.user_id} {y = user},
  ap₂ (λ (w : String) (i : ℕ). count (is_prekey w i) (delete (is_prekey r.user_id r.key_id) rows))
      {x = r.user_id} {y = user},
)

handed_out-nothing :
    (target : String) (r : Result FetchResult)
    → ((k : ℕ) (key : Bytes) → r ≢ ok (fetched k key))
    → handed_out target r ≡ []
handed_out-nothing target (ok (fetched k key)) other = absurd (other k key refl)
handed_out-nothing target (ok nothing) other = refl
handed_out-nothing target (ok target_depleted) other = refl
handed_out-nothing target (ok rate_limited) other = refl
handed_out-nothing target (err e) other = refl

sweep-OnceOnly :
    (served : Ledger) (db : Db) (target : String) (now : ℕ) (limits : FetchLimits)
    → OnceOnly served db
    → OnceOnly served (sweep db target now limits)
unfolding sweep
sweep-OnceOnly served db target now limits o =
    OnceOnly-fewer served db _ o
      (λ u k.
        count-delete-le (expired target (now - public_prekey_retention_secs)) (is_prekey u k)
          db.prekeys)
      refl

module _ (pick : Pick) where
  pub fetch-OnceOnly :
      (served : Ledger) (db : Db) (requester target : String) (now : ℕ) (limits : FetchLimits)
      → Picks pick
      → OnceOnly served db
      → let r = fetch_for_requester pick db requester target now limits in
        OnceOnly (handed_out target r.0 ++ served) r.1
  unfolding take_prekey
  fetch-OnceOnly served db requester target now limits picks o =
      let tx = sweep db target now limits in
      let swept = sweep-OnceOnly served db target now limits o in
      elim (fetch_cases pick db requester target now limits) [
        | inl (other, inl same) ↦ rw (handed_out-nothing target _ other) (rw same o)
        | inl (other, inr same) ↦ rw (handed_out-nothing target _ other) (rw same swept)
        | inr t ↦
            let r = t.row in
            let owner = picks.owner target tx.prekeys r t.picked in
            let m = picks.member target tx.prekeys r t.picked in
            OnceOnly-uses served _ tx _ swept
              (λ u k. ground (
                arith,
                t.taken,
                t.free,
                owner,
                taken_uses served tx.prekeys r u k (
                    subst (λ (rows : List PrekeyRow). 0 < count (is_prekey r.user_id r.key_id) rows)
                      (sym m.2) (count-member m.0 m.1 r)),
              ))
              (ground (arith, t.taken, t.free))
      ]
