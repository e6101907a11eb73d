-- ===== src/Server/Fetch/Reservation.antt =====
-- prekeys.rs and queue.rs: a fetched pre-key is reserved for its requester, whose first message
-- claims the reservation.
use cmp.Base.{
  ℕ, ◌+◌, ◌-◌, ◌≤◌, ◌≡◌, ◌≢◌, refl, ap, sym, ◌∙◌, Bool, Option, some, ltb, String, List, [], ◌∷◌,
  ◌++◌, none, arith, inl, inr, leb, ◌==◌, ==-refl, string_eq, nat_eq, ◌&&◌,
}
use cmp.Base.Bytes.{Bytes}
use cmp.Base.Rows.{
  count, delete, count-append, count-delete-le, find-delete_self, count-eq-zero_of_find,
}
use cmp.Server.Db.{Db, ReservationRow, FetchEventRow, ok}
use cmp.Server.Prekeys.{one_time_prekey_reservation_secs}
use cmp.Server.Queue.{
  EnqueueRequest, prekey_reservation_invalid, inserted, claim_one_time, claim_prekey_reservation,
  enqueue,
}
use cmp.Server.Queue.Outcome.{enqueue_unclaimed}
use cmp.Server.Fetch.{
  FetchLimits, fetched, Pick, fetch_for_requester, take_prekey, sweep, requested, targeted,
}
use cmp.Server.Fetch.Outcome.{fetch_cases}

abbrev reservation : String → String → ℕ → ℕ → ReservationRow
reservation requester target key_id now = record {
  requester_id = requester;
  target_id = target;
  key_id = key_id;
  expires_at = now + one_time_prekey_reservation_secs;
}

-- A claim finds a reservation that ends the table.
claim_last :
    (db : Db) (rows : List ReservationRow) (requester target : String) (key_id now : ℕ)
    (request : EnqueueRequest)
    → db.reservations ≡ rows ++ reservation requester target key_id now ∷ []
    → request.sender_id ≡ requester
    → request.recipient_id ≡ target
    → request.now ≤ now + one_time_prekey_reservation_secs
    → (claim_one_time db request (some key_id)).0 ≡ none
unfolding claim_one_time count
claim_last db rows requester target key_id now request last sender recipient in_time =
    let mine = λ (r : ReservationRow).
      r.requester_id == request.sender_id
      && (r.target_id == request.recipient_id
          && (r.key_id == key_id && leb request.now r.expires_at)) in
    ground (
      arith,
      last,
      sender,
      recipient,
      in_time,
      count-append mine rows (reservation requester target key_id now ∷ []),
      string_eq.equal_iff requester request.sender_id,
      string_eq.equal_iff target request.recipient_id,
      ==-refl key_id,
    )

-- The reservations that a request claims.
abbrev claims : EnqueueRequest → ℕ → ReservationRow → Bool
claims request key_id r =
    r.requester_id == request.sender_id
    && (r.target_id == request.recipient_id && (r.key_id == key_id && leb request.now r.expires_at))

-- A claim leaves nothing for a later message of the same sender to the same recipient.
claims-left :
    (db : Db) (first second : EnqueueRequest) (key_id : ℕ)
    → second.sender_id ≡ first.sender_id
    → second.recipient_id ≡ first.recipient_id
    → first.now ≤ second.now
    → count (claims second key_id) (claim_one_time db first (some key_id)).1.reservations ≡ 0
unfolding claim_one_time
claims-left db first second key_id sender recipient later =
    count-eq-zero_of_find (claims second key_id) (delete (claims first key_id) db.reservations) (
      find-delete_self (claims first key_id) (claims second key_id) db.reservations (λ r h. ground (
        arith,
        h,
        later,
        sender,
        recipient,
        string_eq.equal_iff r.requester_id second.sender_id,
        string_eq.equal_iff r.requester_id first.sender_id,
        string_eq.equal_iff r.target_id second.recipient_id,
        string_eq.equal_iff r.target_id first.recipient_id,
      )))

-- Where no reservation is left, the claim is refused, and so is the whole transaction.
claim_empty :
    (db : Db) (request : EnqueueRequest) (key_id : ℕ)
    → count (claims request key_id) db.reservations ≡ 0
    → (claim_one_time db request (some key_id)).0 ≡ some prekey_reservation_invalid
unfolding claim_one_time
claim_empty db request key_id none_left = ground (arith, none_left)

refusal {ℓ} : {A : Type ℓ} (o : Option A) → o ≢ none → (a : A) × (o ≡ some a)
refusal none h = absurd (h refl)
refusal (some a) h = (a, refl)

claim_prekey_empty :
    (db : Db) (request : EnqueueRequest) (key_id : ℕ)
    → request.one_time_prekey_id ≡ some key_id
    → count (claims request key_id) db.reservations ≡ 0
    → (claim_prekey_reservation db request).0 ≢ none
unfolding claim_prekey_reservation
claim_prekey_empty db request key_id named none_left h =
    let expired = λ (r : ReservationRow). ltb r.expires_at request.now in
    let reserved = record db {
      item_count = db.item_count + 1;
      reservations = delete expired db.reservations;
    } in
    let still : count (claims request key_id) (delete expired db.reservations) ≡ 0 =
      omega (arith, none_left, count-delete-le expired (claims request key_id) db.reservations) in
    absurd (ground (arith, h, named, claim_empty reserved request key_id still))

module _ (pick : Pick) where
  pub fetch-claim :
      (digest : String → Bytes) (db : Db) (requester target : String) (now : ℕ)
      (limits : FetchLimits) (key_id : ℕ) (public_key : Bytes) (later after : Db)
      (first second : EnqueueRequest) (clock : ℕ)
      → (fetch_for_requester pick db requester target now limits).0 ≡ ok (fetched key_id public_key)
      → later.reservations
        ≡ (fetch_for_requester pick db requester target now limits).1.reservations
      → first.sender_id ≡ requester
      → first.recipient_id ≡ target
      → first.now ≤ now + 86400
      → after.reservations ≡ (claim_one_time later first (some key_id)).1.reservations
      → second.sender_id ≡ requester
      → second.recipient_id ≡ target
      → second.one_time_prekey_id ≡ some key_id
      → first.now ≤ second.now
      → ((claim_one_time later first (some key_id)).0 ≡ none)
        × ((claim_one_time after second (some key_id)).0 ≡ some prekey_reservation_invalid)
        × ((enqueue digest after second clock).0 ≢ inserted)
  unfolding take_prekey
  fetch-claim digest db requester target now limits key_id public_key later after first second clock
        done kept sender recipient in_time left sender₂ recipient₂ named order =
      let none_left =
        ap (count (claims second key_id)) left
        ∙ claims-left later first second key_id (sender₂ ∙ sym sender) (recipient₂ ∙ sym recipient)
            order in
      let (why, refused) = refusal _ (claim_prekey_empty after second key_id named none_left) in
      elim (fetch_cases pick db requester target now limits) [
        | inl (other, _) ↦ absurd (other key_id public_key done)
        | inr t ↦ (
          claim_last later (sweep db target now limits).reservations requester target key_id now
              first (ground (arith, kept, t.taken, t.free, done)) sender recipient in_time,
          claim_empty after second key_id none_left,
          enqueue_unclaimed digest after second clock why refused,
        )
      ]

  -- A fetch that hands out a pre-key leaves the requester's and the target's events of the window
  -- within their limits.
  pub fetch_limits :
      (db : Db) (requester target : String) (now : ℕ) (limits : FetchLimits) (key_id : ℕ)
      (public_key : Bytes)
      → (fetch_for_requester pick db requester target now limits).0 ≡ ok (fetched key_id public_key)
      → let events = (fetch_for_requester pick db requester target now limits).1.fetch_events in
        let cutoff = now - limits.window_secs in
        (count (requested requester cutoff) events ≤ limits.per_requester)
        × (count (targeted target cutoff) events ≤ limits.per_target)
  unfolding take_prekey count
  fetch_limits db requester target now limits key_id public_key done =
      let cutoff = now - limits.window_secs in
      let event : FetchEventRow = record {
        requester_id = requester;
        target_id = target;
        created_at = now;
      } in
      elim (fetch_cases pick db requester target now limits) [
        | inl (other, _) ↦ absurd (other key_id public_key done)
        | inr t ↦
            let events = (sweep db target now limits).fetch_events in
            (
              ground (
                arith,
                t.taken,
                t.free,
                t.requester_room,
                count-append (requested requester cutoff) events (event ∷ []),
              ),
              ground (
                arith,
                t.taken,
                t.free,
                t.target_room,
                count-append (targeted target cutoff) events (event ∷ []),
              ),
            )
      ]
