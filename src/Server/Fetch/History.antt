-- ===== src/Server/Fetch/History.antt =====
-- prekeys.rs and users.rs: the life of the one-time pre-keys over any history of registrations,
-- uploads and fetches.
use cmp.Base.{
  ℕ, ◌+◌, ◌≤◌, ◌≡◌, ap, sym, subst, String, List, [], ◌∷◌, ◌++◌, none, arith, inl, inr, Bool-cases,
  Option-cases, ==-refl, string_eq, nat_eq, dec_lt,
}
use cmp.Base.Bytes.{Bytes}
use cmp.Base.Rows.{find, count, exists, find-append}
use cmp.Server.Db.{Db, InventoryRow, empty}
use cmp.Server.Prekeys.{is_prekey, inventory_of, upload_prekeys, insert_prekeys}
use cmp.Server.Prekeys.Batch.{Spans, insert_prekeys_cases}
use cmp.Server.Prekeys.Mark.{Marked, Marked-append}
use cmp.Server.Users.{Registration, register_atomic, first_high_water, is_user}
use cmp.Server.Fetch.{FetchLimits, Pick, Picks, fetch_for_requester}
use cmp.Server.Fetch.Once.{
  Ledger, served_as, handed_out, uses, OnceOnly, upload_prekeys-OnceOnly, fetch-OnceOnly,
}

first_high_water-ge :
    (batch : List (ℕ × Bytes)) (k : ℕ) → Spans k batch → k ≤ first_high_water batch
unfolding first_high_water
first_high_water-ge batch k s = ground (arith, s.maximum, s.high)

-- A user without a mark has no pre-key.
unmarked :
    (served : Ledger) (db : Db) (user : String) (k : ℕ)
    → OnceOnly served db
    → find (inventory_of user) db.inventory ≡ none
    → uses served db.prekeys user k ≡ 0
unmarked served db user k o absent = elim (dec_lt 0 (uses served db.prekeys user k)) [
  | no unused ↦ omega arith
  | yes used ↦ absurd (ground (arith, absent, (o.marked user k used).found))
]

-- The first pre-keys of a user, and the mark that covers them.
registered-OnceOnly :
    (served : Ledger) (db after : Db) (registration : Registration) (clock : ℕ)
    → OnceOnly served db
    → find (inventory_of registration.user_id) db.inventory ≡ none
    → after.prekeys
      ≡ insert_prekeys registration.user_id clock registration.one_time_prekeys db.prekeys
    → after.inventory
      ≡ db.inventory
        ++ record {
          user_id = registration.user_id;
          high_water = first_high_water registration.one_time_prekeys;
        }
          ∷ []
    → OnceOnly served after
unfolding find
registered-OnceOnly served db after registration clock o absent keys marks =
    let user = registration.user_id in
    let batch = registration.one_time_prekeys in
    let i : InventoryRow = record { user_id = user; high_water = first_high_water batch } in
    record {
      once = λ u k. elim (insert_prekeys_cases user clock batch db.prekeys u k) [
        | inl same ↦ ground (arith, keys, same, o.once u k)
        | inr a ↦ ground (
          arith,
          keys,
          a.present,
          a.same_user,
          ap (λ (w : String). uses served db.prekeys w k) a.same_user,
          unmarked served db user k o absent,
        )
      ];
      marked = λ u k used.
          subst (λ (rows : List InventoryRow). Marked rows u k) (sym marks)
            (elim (insert_prekeys_cases user clock batch db.prekeys u k) [
              | inl same ↦
                  Marked-append db.inventory i u k (o.marked u k (ground (arith, keys, used, same)))
              | inr a ↦
                  subst (λ (w : String). Marked (db.inventory ++ i ∷ []) w k) a.same_user
                    (record {
                      row = i;
                      found = ground (
                        arith,
                        absent,
                        find-append (inventory_of user) db.inventory (i ∷ []),
                        ==-refl user,
                      );
                      below = first_high_water-ge batch k a.spans;
                    })
            ]);
    }

register-OnceOnly :
    (served : Ledger) (db : Db) (registration : Registration) (clock : ℕ)
    → OnceOnly served db
    → OnceOnly served (register_atomic db registration clock).1
unfolding register_atomic
register-OnceOnly served db registration clock o =
    elim (Bool-cases (exists (is_user registration.user_id) db.users)) [
      | inl taken ↦ rw taken o
      | inr fresh ↦ elim (Option-cases (find (inventory_of registration.user_id) db.inventory)) [
        | inr (i, e) ↦ rw fresh (rw e o)
        | inl e ↦
            registered-OnceOnly served db _ registration clock o e (ground (arith, fresh, e))
              (ground (arith, fresh, e))
      ]
    ]

-- A call of an operation with its arguments.
pub data Call : Type 0 where
  registers : Registration → ℕ → Call
  uploads : String → List (ℕ × Bytes) → ℕ → ℕ → Call
  fetches : String → String → ℕ → FetchLimits → Call

module _ (pick : Pick) where
  -- The database, and the pre-keys that were handed out.
  abbrev pub after_call : Call → Ledger × Db → Ledger × Db
  after_call (registers registration clock) (served, db) =
      (served, (register_atomic db registration clock).1)
  after_call (uploads user prekeys limit clock) (served, db) =
      (served, (upload_prekeys db user prekeys limit clock).1)
  after_call (fetches requester target now limits) (served, db) =
      let r = fetch_for_requester pick db requester target now limits in
      (handed_out target r.0 ++ served, r.1)

  unfoldable pub serve_all : List Call → Ledger × Db → Ledger × Db
  serve_all [] s = s
  serve_all (call ∷ calls) s = serve_all calls (after_call call s)

  serve_all-OnceOnly :
      (calls : List Call) (served : Ledger) (db : Db)
      → Picks pick
      → OnceOnly served db
      → OnceOnly (serve_all calls (served, db)).0 (serve_all calls (served, db)).1
  unfolding serve_all
  serve_all-OnceOnly [] served db picks o = o
  serve_all-OnceOnly (registers registration clock ∷ calls) served db picks o =
      serve_all-OnceOnly calls served _ picks (register-OnceOnly served db registration clock o)
  serve_all-OnceOnly (uploads user prekeys limit clock ∷ calls) served db picks o =
      serve_all-OnceOnly calls served _ picks
        (upload_prekeys-OnceOnly served db user prekeys limit clock o)
  serve_all-OnceOnly (fetches requester target now limits ∷ calls) served db picks o =
      serve_all-OnceOnly calls _ _ picks
        (fetch-OnceOnly pick served db requester target now limits picks o)

  -- Whichever row SQLite picks: over every history of registrations, uploads and fetches from the
  -- empty database, whatever ids the clients upload, the pre-key of a user with one id is handed
  -- out at most once, and a pre-key that was handed out is not in the table.
  pub serve_all-once :
      (calls : List Call) (user : String) (key_id : ℕ)
      → Picks pick
      → let s = serve_all calls ([], empty) in
        count (served_as user key_id) s.0 + count (is_prekey user key_id) s.1.prekeys ≤ 1
  unfolding count
  serve_all-once calls user key_id picks =
      (serve_all-OnceOnly calls [] empty picks (record {
        once = λ u k. omega arith;
        marked = λ u k used. absurd (omega (arith, used));
      })).once
        user key_id
