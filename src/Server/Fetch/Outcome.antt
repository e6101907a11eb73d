-- ===== src/Server/Fetch/Outcome.antt =====
-- prekeys.rs, `fetch_for_requester`: either no pre-key is handed out, or one is taken.
use cmp.Base.{
  ℕ, ◌-◌, ◌<◌, ◌≡◌, ◌≢◌, String, false, ◌||◌, some, arith, ◌⊎◌, inl, inr, Bool-cases, Option-cases,
  leb, ltb, string_eq, nat_eq,
}
use cmp.Base.Bytes.{Bytes, u32_max}
use cmp.Base.Rows.{count, exists}
use cmp.Server.Db.{Db, PrekeyRow, Result, ok}
use cmp.Server.Fetch.{
  FetchLimits, FetchResult, fetched, Pick, fetch_for_requester, sweep, serve, take_prekey,
  requested, targeted, reserved_as,
}

module _ (pick : Pick) where
  -- Both counters were below their limits, and the row was given by the query.
  pub record Takes (db : Db) (requester target : String) (now : ℕ) (limits : FetchLimits)
      (result : Result FetchResult × Db) : Type 0 where
    pub row : PrekeyRow
    pub picked : pick target (sweep db target now limits).prekeys ≡ some row
    pub free :
        exists (reserved_as requester target row.key_id) (sweep db target now limits).reservations
        ≡ false
    pub requester_room :
        count
          (requested requester (now - limits.window_secs))
          (sweep db target now limits).fetch_events
        < limits.per_requester
    pub target_room :
        count (targeted target (now - limits.window_secs)) (sweep db target now limits).fetch_events
        < limits.per_target
    pub taken : result ≡ take_prekey db (sweep db target now limits) requester target now row

  -- Nothing is handed out, and the database is the old one or the swept one.
  abbrev pub Passes : Db → String → ℕ → FetchLimits → Result FetchResult × Db → Type 0
  Passes db target now limits result =
      ((k : ℕ) (key : Bytes) → result.0 ≢ ok (fetched k key))
      × ((result.1 ≡ db) ⊎ (result.1 ≡ sweep db target now limits))

  pub fetch_cases :
      (db : Db) (requester target : String) (now : ℕ) (limits : FetchLimits)
      → let result = fetch_for_requester pick db requester target now limits in
        Passes db target now limits result ⊎ Takes db requester target now limits result
  unfolding fetch_for_requester serve take_prekey
  fetch_cases db requester target now limits =
      let tx = sweep db target now limits in
      let cutoff = now - limits.window_secs in
      let by = count (requested requester cutoff) tx.fetch_events in
      let from = count (targeted target cutoff) tx.fetch_events in
      elim (Bool-cases (ltb u32_max by || ltb u32_max from)) [
        | inl big ↦ inl (λ k key. ground (arith, big), inl (ground (arith, big)))
        | inr small ↦ elim (Bool-cases (leb limits.per_requester by)) [
          | inl many ↦ inl (λ k key. ground (arith, small, many), inl (ground (arith, small, many)))
          | inr few ↦ elim (Bool-cases (leb limits.per_target from)) [
            | inl drained ↦ inl (
              λ k key. ground (arith, small, few, drained),
              inl (ground (arith, small, few, drained)),
            )
            | inr room ↦ picking small few room
          ]
        ]
      ]
    where
      picking :
          (ltb u32_max (
                count
                  (requested requester (now - limits.window_secs))
                  (sweep db target now limits).fetch_events)
              || ltb u32_max (
                  count
                    (targeted target (now - limits.window_secs))
                    (sweep db target now limits).fetch_events))
            ≡ false
          → leb limits.per_requester (
              count
                (requested requester (now - limits.window_secs))
                (sweep db target now limits).fetch_events)
            ≡ false
          → leb limits.per_target (
              count
                (targeted target (now - limits.window_secs))
                (sweep db target now limits).fetch_events)
            ≡ false
          → Passes db target now limits (fetch_for_requester pick db requester target now limits)
            ⊎ Takes db requester target now limits
                (fetch_for_requester pick db requester target now limits)
      picking small few room =
          elim (Option-cases (pick target (sweep db target now limits).prekeys)) [
            | inl e ↦ inl (
              λ k key. ground (arith, small, few, room, e),
              inr (ground (arith, small, few, room, e)),
            )
            | inr (r, e) ↦
                elim (Bool-cases (
                  exists (reserved_as requester target r.key_id)
                    (sweep db target now limits).reservations)) [
                      | inl clash ↦ inl (
                        λ k key. ground (arith, small, few, room, e, clash),
                        inl (ground (arith, small, few, room, e, clash)),
                      )
                      | inr free ↦ inr (record {
                        row = r;
                        picked = e;
                        free = free;
                        requester_room = ground (arith, few);
                        target_room = ground (arith, room);
                        taken = ground (arith, small, few, room, e);
                      })
                    ]
          ]
