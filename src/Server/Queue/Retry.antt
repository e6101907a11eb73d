-- ===== src/Server/Queue/Retry.antt =====
-- queue.rs, `enqueue`: refusals change nothing, and a message that is sent again is recognised.
use cmp.Base.{
  ℕ, ◌≡◌, ◌≢◌, String, ◌&&◌, [], ◌∷◌, some, arith, inl, inr, ◌==◌, ==-refl, list_beq_iff, string_eq,
  list_eq, nat_eq, if◌then◌else◌,
}
use cmp.Base.Bytes.{Bytes}
use cmp.Base.Rows.{find, find-append}
use cmp.Server.Db.{Db, AcceptanceRow}
use cmp.Server.Queue.Outcome.{enqueue_cases}
use cmp.Server.Queue.{
  EnqueueRequest, inserted, duplicate, message_id_conflict, accepted_id, classify_existing, enqueue,
  enqueue_new, accept,
}

module _ (digest : String → Bytes) where
  enqueue_new_refused :
      (db : Db) (request : EnqueueRequest) (d : Bytes) (clock : ℕ)
      → (enqueue_new db request d clock).0 ≢ inserted
      → (enqueue_new db request d clock).0 ≢ duplicate
      → (enqueue_new db request d clock).1 ≡ db
  unfolding enqueue_new
  enqueue_new_refused db request d clock not_inserted not_duplicate = ground arith

  -- An answer other than `inserted` and `duplicate` leaves the whole database as it was.
  pub enqueue_refused :
      (db : Db) (request : EnqueueRequest) (clock : ℕ)
      → (enqueue digest db request clock).0 ≢ inserted
      → (enqueue digest db request clock).0 ≢ duplicate
      → (enqueue digest db request clock).1 ≡ db
  unfolding enqueue
  enqueue_refused db request clock not_inserted not_duplicate =
      ground (arith, enqueue_new_refused db request (digest request.envelope_json) clock)

  -- The ledger row of an accepted request.
  abbrev pub ledger_row : EnqueueRequest → AcceptanceRow
  ledger_row request = record {
    message_id = request.message_id;
    recipient_id = request.recipient_id;
    sender_id = request.sender_id;
    envelope_digest = digest request.envelope_json;
    accepted_at = request.now;
  }

  -- An accepted message is in the ledger.
  pub enqueue_finds :
      (db : Db) (request : EnqueueRequest) (clock : ℕ)
      → (enqueue digest db request clock).0 ≡ inserted
      → find (accepted_id request.message_id) (enqueue digest db request clock).1.acceptances
        ≡ some (ledger_row request)
  unfolding accept find
  enqueue_finds db request clock done = elim (enqueue_cases digest db request clock) [
    | inl (same, other, _) ↦ absurd (other done)
    | inr a ↦ ground (
      arith,
      a.result,
      a.granted.same_ledger,
      a.fresh,
      find-append (accepted_id request.message_id) db.acceptances (ledger_row request ∷ []),
      ==-refl request.message_id,
    )
  ]

  -- Once a message is inserted, and while the ledger stays as it then is, whatever happens to the queue, the
  -- clock and the pre-keys: a request with its id, route and envelope is answered `duplicate`, one
  -- with its id and another recipient, sender or digest `message_id_conflict`, and neither writes.
  pub enqueue_again :
      (db : Db) (request : EnqueueRequest) (clock : ℕ) (later : Db) (again : EnqueueRequest)
      (clock' : ℕ)
      → (enqueue digest db request clock).0 ≡ inserted
      → later.acceptances ≡ (enqueue digest db request clock).1.acceptances
      → again.message_id ≡ request.message_id
      → enqueue digest later again clock' ≡ (
        if again.recipient_id == request.recipient_id
              && (again.sender_id == request.sender_id
                  && digest again.envelope_json == digest request.envelope_json)
            then duplicate
            else message_id_conflict,
        later,
      )
  unfolding enqueue classify_existing
  enqueue_again db request clock later again clock' done kept same = ground (
    arith,
    enqueue_finds db request clock done,
    string_eq.equal_iff request.recipient_id again.recipient_id,
    string_eq.equal_iff again.recipient_id request.recipient_id,
    string_eq.equal_iff request.sender_id again.sender_id,
    string_eq.equal_iff again.sender_id request.sender_id,
    list_beq_iff (digest request.envelope_json) (digest again.envelope_json),
    list_beq_iff (digest again.envelope_json) (digest request.envelope_json),
  )
