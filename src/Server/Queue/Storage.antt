-- ===== src/Server/Queue/Storage.antt =====
-- queue.rs, `enqueue`: what is stored, and for whom.
use cmp.Base.{
  ℕ, ◌<◌, ◌==◌, ◌≡◌, ◌≢◌, String, true, List, [], ◌∷◌, ◌++◌, none, arith, inl, inr, ==-refl,
  string_eq,
}
use mathlib.Core.List.{append-nil}
use cmp.Base.Bytes.{Bytes}
use cmp.Base.Rows.{find, exists, count, select, select-append}
use cmp.Server.Db.{Db, QueueRow, UserRow, to_i64}
use cmp.Server.Queue.{
  EnqueueRequest, claim_prekey_reservation, inserted, duplicate, accepted_id, has_id, to_recipient,
  next_row_id, enqueue, accept,
}
use cmp.Server.Queue.Outcome.{enqueue_cases, enqueue-Accepts}
use cmp.Server.Queue.Retry.{ledger_row}

-- The row that a request adds to a queue.
abbrev pub queue_row : List QueueRow → EnqueueRequest → ℕ → QueueRow
queue_row rows request clock = record {
  row_id = next_row_id rows;
  message_id = request.message_id;
  recipient_id = request.recipient_id;
  sender_id = request.sender_id;
  envelope_json = request.envelope_json;
  created_at = clock;
}

-- The messages that wait for a user, oldest first.
abbrev pub waiting : String → Db → List QueueRow
waiting user db = select (to_recipient user) db.message_queue

module _ (digest : String → Bytes) where
  enqueue_appends :
      (db : Db) (request : EnqueueRequest) (clock : ℕ)
      → (enqueue digest db request clock).0 ≡ inserted
      → (enqueue digest db request clock).1.message_queue
        ≡ db.message_queue ++ queue_row db.message_queue request clock ∷ []
  unfolding accept
  enqueue_appends db request clock done = elim (enqueue_cases digest db request clock) [
    | inl (same, other, _) ↦ absurd (other done)
    | inr a ↦ ground (arith, a.result, a.granted.same_queue)
  ]

  -- An inserted message is the last one that waits for its recipient, with the sender and the
  -- envelope of the request; what waits for any other user is unchanged.
  pub enqueue_stores :
      (db : Db) (request : EnqueueRequest) (clock : ℕ) (other : String)
      → (enqueue digest db request clock).0 ≡ inserted
      → other ≢ request.recipient_id
      → let after = (enqueue digest db request clock).1 in
        (waiting request.recipient_id after
          ≡ waiting request.recipient_id db ++ queue_row db.message_queue request clock ∷ [])
        × (waiting other after ≡ waiting other db)
  unfolding select
  enqueue_stores db request clock other done differs =
      let row = queue_row db.message_queue request clock in
      let appended = enqueue_appends db request clock done in
      (
        ground (
          arith,
          appended,
          select-append (to_recipient request.recipient_id) db.message_queue (row ∷ []),
          ==-refl request.recipient_id,
        ),
        ground (
          arith,
          appended,
          select-append (to_recipient other) db.message_queue (row ∷ []),
          string_eq.equal_iff request.recipient_id other,
          append-nil (select (to_recipient other) db.message_queue),
        ),
      )

  -- A message whose id is still in the queue, but whose ledger entry its sender has confirmed away,
  -- is not compared with the queued one: whatever the sender and the envelope of the request are, and
  -- whoever its recipient is, if the recipient exists and has room and the claim of its pre-keys is
  -- granted, then the answer is `duplicate`, the queue is unchanged, and the ledger records the new
  -- message as accepted.
  pub enqueue_reused_id :
      (db : Db) (request : EnqueueRequest) (clock : ℕ)
      → find (accepted_id request.message_id) db.acceptances ≡ none
      → exists (has_id request.message_id) db.message_queue ≡ true
      → exists (λ (u : UserRow). u.user_id == request.recipient_id) db.users ≡ true
      → count (to_recipient request.recipient_id) db.message_queue
        < to_i64 request.max_queue_per_user
      → (claim_prekey_reservation db request).0 ≡ none
      → let answer = enqueue digest db request clock in
        (answer.0 ≡ duplicate)
        × (answer.1.message_queue ≡ db.message_queue)
        × (answer.1.acceptances ≡ db.acceptances ++ ledger_row digest request ∷ [])
  unfolding accept
  enqueue_reused_id db request clock fresh queued known room granted =
      let a = enqueue-Accepts digest db request clock fresh known room granted in
      ground (arith, a.result, a.granted.same_queue, a.granted.same_ledger, queued)
