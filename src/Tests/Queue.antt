-- ===== src/Tests/Queue.antt =====
-- The properties of the queue at a small database.
use cmp.Base.{
  ◌≡◌, refl, ◌≢◌, ap, String, [], ◌∷◌, ◌++◌, none, some, arith, ◌==◌, string_eq, if◌then◌else◌,
  list_eq, nat_eq,
}
use cmp.Base.Bytes.{Bytes}
use cmp.Base.Rows.{find, count, delete}
use cmp.Server.Db.{Db, empty}
use cmp.Server.Queue.{
  EnqueueRequest, duplicate, inserted, message_id_conflict, enqueue, enqueue_new,
  claim_prekey_reservation, claim_one_time, signed_prekey_retained, classify_existing,
  insert_message,
}
use cmp.Server.Queue.Invariant.{WellFormed}
use cmp.Server.Queue.History.{run, run-WellFormed, enqueues, confirms, collects}
use cmp.Server.Queue.Retry.{enqueue_again, enqueue_refused, ledger_row}
use cmp.Server.Queue.Storage.{waiting, queue_row, enqueue_stores, enqueue_reused_id}

abbrev digest : String → Bytes
digest s = if s == "hello" then 1 ∷ [] else 2 ∷ []

-- Bob is registered, with signed pre-key 4; Alice has reserved his one-time pre-key 9.
abbrev start : Db
start = record empty {
  users = record { user_id = "bob"; identity_key = 1 ∷ [] } ∷ [];
  signed_prekeys =
      record { user_id = "bob"; key_id = 4; public_key = 2 ∷ []; signature = 3 ∷ [] } ∷ [];
  reservations =
      record { requester_id = "alice"; target_id = "bob"; key_id = 9; expires_at = 100 } ∷ [];
}

abbrev hello : EnqueueRequest
hello = record {
  message_id = "m1";
  recipient_id = "bob";
  sender_id = "alice";
  envelope_json = "hello";
  max_queue_per_user = 2;
  signed_prekey_id = some 4;
  one_time_prekey_id = some 9;
  now = 50;
}

-- Another envelope under the same id.
abbrev forged : EnqueueRequest
forged = record hello {
  envelope_json = "other";
  signed_prekey_id = none;
  one_time_prekey_id = none;
}

hello_inserted : (enqueue digest start hello 50).0 ≡ inserted
unfolding enqueue enqueue_new claim_prekey_reservation claim_one_time signed_prekey_retained
    classify_existing find count delete
hello_inserted = refl

-- Its reservation is used up: a second message that names the pre-key is refused.
hello_refused :
    (enqueue digest (enqueue digest start hello 50).1 (record hello { message_id = "m2" }) 51).0
    ≢ inserted
unfolding enqueue enqueue_new claim_prekey_reservation claim_one_time signed_prekey_retained
    classify_existing insert_message find count delete
hello_refused = λ e. ground arith

enqueue_again_example :
    enqueue digest (enqueue digest start hello 50).1 forged 60
    ≡ (message_id_conflict, (enqueue digest start hello 50).1)
enqueue_again_example =
    enqueue_again digest start hello 50 (enqueue digest start hello 50).1 forged 60 hello_inserted
      refl refl

enqueue_stores_example :
    (waiting "bob" (enqueue digest start hello 50).1
      ≡ waiting "bob" start ++ queue_row [] hello 50 ∷ [])
    × (waiting "carol" (enqueue digest start hello 50).1 ≡ waiting "carol" start)
enqueue_stores_example =
    enqueue_stores digest start hello 50 "carol" hello_inserted
      (λ e. ground (arith, ap (λ s. s == "bob") e))

-- Nobody is called carol here.
enqueue_refused_example :
    (enqueue digest start (record hello { recipient_id = "carol" }) 50).1 ≡ start
unfolding enqueue enqueue_new classify_existing find
enqueue_refused_example =
    enqueue_refused digest start (record hello { recipient_id = "carol" }) 50 (λ e. ground arith)
      (λ e. ground arith)

-- The message is queued, and its sender has confirmed its acceptance.
abbrev confirmed : Db
confirmed = record start { message_queue = queue_row [] forged 50 ∷ [] }

enqueue_reused_id_example :
    let answer = enqueue digest confirmed hello 60 in
    (answer.0 ≡ duplicate)
    × (answer.1.message_queue ≡ confirmed.message_queue)
    × (answer.1.acceptances ≡ confirmed.acceptances ++ ledger_row digest hello ∷ [])
unfolding claim_prekey_reservation claim_one_time signed_prekey_retained find count delete
enqueue_reused_id_example =
    enqueue_reused_id digest confirmed hello 60 refl refl refl (omega arith) refl

start-WellFormed : WellFormed 2 start
unfolding count
start-WellFormed = record {
  counted = refl;
  global = omega arith;
  per_sender = λ s. omega arith;
  per_recipient = λ r. omega arith;
  ordered = tt;
}

run-WellFormed_example :
    WellFormed 2
      (run digest (enqueues hello 50 ∷ confirms "alice" ("m1" ∷ []) ∷ collects 60 1 ∷ []) start)
run-WellFormed_example =
    run-WellFormed digest 2 (enqueues hello 50 ∷ confirms "alice" ("m1" ∷ []) ∷ collects 60 1 ∷ [])
      start (omega arith, tt) start-WellFormed
