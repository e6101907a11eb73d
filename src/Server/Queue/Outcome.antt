-- ===== src/Server/Queue/Outcome.antt =====
-- queue.rs, `enqueue`: either nothing changes, or the message is accepted after every check.
use cmp.Base.{
  ℕ, ◌+◌, ◌<◌, ◌≡◌, ◌≢◌, String, true, false, ◌⊎◌, inl, inr, none, some, arith, Option-cases,
  Bool-cases, leb, string_eq, ◌==◌,
}
use cmp.Base.Bytes.{Bytes}
use cmp.Base.Rows.{find, exists, count}
use cmp.Server.Db.{Db, UserRow, to_i64}
use cmp.Server.Queue.{
  EnqueueRequest, EnqueueResult, inserted, duplicate, accepted_id, accepted_from, to_recipient,
  classify_existing, enqueue, enqueue_new, accept, claim_prekey_reservation, max_global_acceptances,
  max_pending_outbound_items,
}

-- What a claim that is granted has checked, and what it writes.
pub record Granted (db : Db) (request : EnqueueRequest) (tx : Db) : Type 0 where
  pub sender_room :
      count (accepted_from request.sender_id) db.acceptances < max_pending_outbound_items
  pub global_room : db.item_count < max_global_acceptances
  pub counted : tx.item_count ≡ db.item_count + 1
  pub same_ledger : tx.acceptances ≡ db.acceptances
  pub same_queue : tx.message_queue ≡ db.message_queue

claim_prekey_reservation-Granted :
    (db : Db) (request : EnqueueRequest)
    → (claim_prekey_reservation db request).0 ≡ none
    → Granted db request (claim_prekey_reservation db request).1
unfolding claim_prekey_reservation
claim_prekey_reservation-Granted db request granted = ground arith

claim_refusal :
    (db : Db) (request : EnqueueRequest) (why : EnqueueResult)
    → (claim_prekey_reservation db request).0 ≡ some why
    → (why ≢ inserted) × (why ≢ duplicate)
unfolding claim_prekey_reservation
claim_refusal db request inserted e = absurd (ground arith)
claim_refusal db request duplicate e = absurd (ground arith)
claim_refusal db request _ e = (λ h. cc, λ h. cc)

module _ (digest : String → Bytes) where
  -- Nothing was written, and the answer says so. It says `duplicate` only of what is in the ledger.
  abbrev pub Refused : Db → EnqueueRequest → ℕ → Type 0
  Refused db request clock =
      ((enqueue digest db request clock).1 ≡ db)
      × ((enqueue digest db request clock).0 ≢ inserted)
      × (find (accepted_id request.message_id) db.acceptances ≡ none
          → (enqueue digest db request clock).0 ≢ duplicate)

  pub record Accepts (db : Db) (request : EnqueueRequest) (clock : ℕ) : Type 0 where
    pub tx : Db
    pub fresh : find (accepted_id request.message_id) db.acceptances ≡ none
    pub known : exists (λ (u : UserRow). u.user_id == request.recipient_id) db.users ≡ true
    pub room :
        count (to_recipient request.recipient_id) db.message_queue
        < to_i64 request.max_queue_per_user
    pub granted : Granted db request tx
    pub result :
        enqueue digest db request clock ≡ accept tx request (digest request.envelope_json) clock

  -- Without the claim of its pre-keys no message is inserted.
  pub enqueue_unclaimed :
      (db : Db) (request : EnqueueRequest) (clock : ℕ) (why : EnqueueResult)
      → (claim_prekey_reservation db request).0 ≡ some why
      → (enqueue digest db request clock).0 ≢ inserted
  unfolding enqueue enqueue_new classify_existing
  enqueue_unclaimed db request clock why e h =
      absurd (ground (arith, e, h, (claim_refusal db request why e).0))

  -- Where every check passes, the message is accepted.
  pub enqueue-Accepts :
      (db : Db) (request : EnqueueRequest) (clock : ℕ)
      → find (accepted_id request.message_id) db.acceptances ≡ none
      → exists (λ (u : UserRow). u.user_id == request.recipient_id) db.users ≡ true
      → count (to_recipient request.recipient_id) db.message_queue
        < to_i64 request.max_queue_per_user
      → (claim_prekey_reservation db request).0 ≡ none
      → Accepts db request clock
  unfolding enqueue enqueue_new classify_existing
  enqueue-Accepts db request clock fresh known room e = record {
    tx = (claim_prekey_reservation db request).1;
    fresh = fresh;
    known = known;
    room = room;
    granted = claim_prekey_reservation-Granted db request e;
    result = ground (arith, fresh, known, room, e);
  }

  pub enqueue_cases :
      (db : Db) (request : EnqueueRequest) (clock : ℕ)
      → Refused db request clock ⊎ Accepts db request clock
  unfolding enqueue enqueue_new classify_existing
  enqueue_cases db request clock =
      elim (Option-cases (find (accepted_id request.message_id) db.acceptances)) [
        | inr (row, e) ↦ inl (ground (arith, e), ground (arith, e), λ fresh. cc)
        | inl fresh ↦
            elim (Bool-cases
              (exists (λ (u : UserRow). u.user_id == request.recipient_id) db.users)) [
                | inr unknown ↦ inl (
                  ground (arith, fresh, unknown),
                  ground (arith, fresh, unknown),
                  λ _. ground (arith, fresh, unknown),
                )
                | inl known ↦
                    elim (Bool-cases (
                      leb (to_i64 request.max_queue_per_user)
                        (count (to_recipient request.recipient_id) db.message_queue))) [
                          | inl full ↦ inl (
                            ground (arith, fresh, known, full),
                            ground (arith, fresh, known, full),
                            λ _. ground (arith, fresh, known, full),
                          )
                          | inr room ↦ claimed fresh known room
                        ]
              ]
      ]
    where
      claimed :
          find (accepted_id request.message_id) db.acceptances ≡ none
          → exists (λ (u : UserRow). u.user_id == request.recipient_id) db.users ≡ true
          → leb
              (to_i64 request.max_queue_per_user)
              (count (to_recipient request.recipient_id) db.message_queue)
            ≡ false
          → Refused db request clock ⊎ Accepts db request clock
      claimed fresh known room = elim (Option-cases (claim_prekey_reservation db request).0) [
        | inr (why, e) ↦ inl (
          ground (arith, fresh, known, room, e),
          ground (arith, fresh, known, room, e, claim_refusal db request why e),
          λ _. ground (arith, fresh, known, room, e, claim_refusal db request why e),
        )
        | inl e ↦ inr (enqueue-Accepts db request clock fresh known (ground (arith, room)) e)
      ]
