-- ===== src/Tests/Prekeys.antt =====
-- The properties of the pre-keys and of the registration at a small database.
use cmp.Base.{
  ℕ, ◌+◌, ◌≤◌, ◌≡◌, ◌≢◌, refl, ap, Bool, true, List, [], ◌∷◌, ◌++◌, none, some, arith, string_eq,
  nat_eq, list_eq, Bool-cases, inl, inr,
}
use cmp.Base.Rows.{find, count, delete, select, find_holds}
use cmp.Server.Db.{Db, empty, PrekeyRow, SignedPrekeyRow, ok}
use cmp.Server.Queue.{
  EnqueueRequest, prekey_reservation_invalid, inserted, enqueue, claim_one_time,
  signed_prekey_retained,
}
use cmp.Server.Prekeys.{owned, is_prekey}
use cmp.Server.Fetch.{
  FetchLimits, fetched, Pick, Picks, fetch_for_requester, sweep, serve, take_prekey, requested,
  targeted,
}
use cmp.Server.Fetch.History.{serve_all, serve_all-once, registers, uploads, fetches}
use cmp.Server.Fetch.Once.{served_as}
use cmp.Server.Fetch.Reservation.{fetch-claim, fetch_limits}
use cmp.Server.Users.{Registration, register_atomic, get_identity_key}
use cmp.Server.Users.Identity.{register_all, register_first_wins}
use cmp.Server.SignedPrekeys.{
  get_signed_prekey, rotate_signed_prekey, accepted, insert_desc, order_desc,
}
use cmp.Server.SignedPrekeys.Rotation.{rotate_signed_prekey-retains, rotate_signed_prekey_again}

-- The first row of the user.
abbrev pick_first : Pick
pick_first user rows = find (owned user) rows

find-split :
    (p : PrekeyRow → Bool) (rows : List PrekeyRow) (r : PrekeyRow)
    → find p rows ≡ some r
    → (before after : List PrekeyRow) × (rows ≡ before ++ r ∷ after)
unfolding find
find-split p [] r h = absurd (ground (arith, h))
find-split p (x ∷ rows) r h = elim (Bool-cases (p x)) [
  | inl here ↦ ([], rows, ground (arith, h, here))
  | inr there ↦
      let s = find-split p rows r (ground (arith, h, there)) in (x ∷ s.0, s.1, ap (◌∷◌ x) s.2)
]

pick_first-Picks : Picks pick_first
pick_first-Picks = record {
  member = λ user rows r h. find-split (owned user) rows r h;
  owner = λ user rows r h. (string_eq.equal_iff r.user_id user).0 (find_holds (owned user) rows h);
  served = λ user rows h. h;
}

abbrev bob : Registration
bob = record {
  user_id = "bob";
  identity_key = 1 ∷ [];
  signed_prekey_id = 4;
  signed_prekey_public = 2 ∷ [];
  signed_prekey_signature = 3 ∷ [];
  one_time_prekeys = (2147483650, 5 ∷ []) ∷ [];
}

abbrev limits : FetchLimits
limits = record { window_secs = 3600; per_requester = 2; per_target = 3 }

-- Two uploads of the same batch, and three fetches.
serve_all-once_example :
    let s =
      serve_all pick_first
        (registers bob 10
          ∷ fetches "alice" "bob" 20 limits
          ∷ uploads "bob" ((2147483651, 6 ∷ []) ∷ []) 10 30
          ∷ fetches "alice" "bob" 40 limits
          ∷ uploads "bob" ((2147483651, 6 ∷ []) ∷ []) 10 50
          ∷ fetches "carol" "bob" 60 limits
          ∷ [])
        ([], empty) in
    count (served_as "bob" 2147483651) s.0 + count (is_prekey "bob" 2147483651) s.1.prekeys ≤ 1
serve_all-once_example =
    serve_all-once pick_first
      (registers bob 10
        ∷ fetches "alice" "bob" 20 limits
        ∷ uploads "bob" ((2147483651, 6 ∷ []) ∷ []) 10 30
        ∷ fetches "alice" "bob" 40 limits
        ∷ uploads "bob" ((2147483651, 6 ∷ []) ∷ []) 10 50
        ∷ fetches "carol" "bob" 60 limits
        ∷ [])
      "bob" 2147483651 pick_first-Picks

-- Bob has one pre-key, number 9.
abbrev stocked : Db
stocked = record empty {
  prekeys = record { user_id = "bob"; key_id = 9; public_key = 7 ∷ []; created_at = 10 } ∷ [];
}

fetched_nine :
    (fetch_for_requester pick_first stocked "alice" "bob" 20 limits).0 ≡ ok (fetched 9 (7 ∷ []))
unfolding fetch_for_requester sweep serve take_prekey find count delete
fetched_nine = refl

abbrev first_message : EnqueueRequest
first_message = record {
  message_id = "m1";
  recipient_id = "bob";
  sender_id = "alice";
  envelope_json = "hello";
  max_queue_per_user = 2;
  signed_prekey_id = some 4;
  one_time_prekey_id = some 9;
  now = 50;
}

-- Alice reuses the key, later and for another text.
abbrev second_message : EnqueueRequest
second_message = record first_message { message_id = "m2"; envelope_json = "again"; now = 60 }

fetch-claim_example :
    let later = (fetch_for_requester pick_first stocked "alice" "bob" 20 limits).1 in
    let after = (claim_one_time later first_message (some 9)).1 in
    ((claim_one_time later first_message (some 9)).0 ≡ none)
    × ((claim_one_time after second_message (some 9)).0 ≡ some prekey_reservation_invalid)
    × ((enqueue (λ s. []) after second_message 60).0 ≢ inserted)
fetch-claim_example =
    let later = (fetch_for_requester pick_first stocked "alice" "bob" 20 limits).1 in
    fetch-claim pick_first (λ s. []) stocked "alice" "bob" 20 limits 9 (7 ∷ []) later
      (claim_one_time later first_message (some 9)).1 first_message second_message 60 fetched_nine
      refl refl refl (omega arith) refl refl refl refl (omega arith)

fetch_limits_example :
    let events = (fetch_for_requester pick_first stocked "alice" "bob" 20 limits).1.fetch_events in
    (count (requested "alice" 0) events ≤ 2) × (count (targeted "bob" 0) events ≤ 3)
fetch_limits_example =
    fetch_limits pick_first stocked "alice" "bob" 20 limits 9 (7 ∷ []) fetched_nine

-- Mallory registers as Bob, later.
register_first_wins_example :
    get_identity_key
      (register_all
        ((record bob { identity_key = 66 ∷ [] }, 70) ∷ [])
        (register_atomic empty bob 10).1)
      "bob"
    ≡ some (1 ∷ [])
unfolding register_atomic find
register_first_wins_example =
    register_first_wins empty bob 10 ((record bob { identity_key = 66 ∷ [] }, 70) ∷ []) refl

abbrev signed : ℕ → SignedPrekeyRow
signed key_id = record { user_id = "bob"; key_id = key_id; public_key = 2 ∷ []; signature = 3 ∷ [] }

abbrev rotated : Db
rotated = record empty { signed_prekeys = signed 3 ∷ signed 4 ∷ [] }

rotate_signed_prekey-retains_example :
    let result = rotate_signed_prekey rotated (signed 7) in
    (result.0 ≡ ok (accepted 7))
    × (get_signed_prekey result.1 "bob" ≡ some (signed 7))
    × (signed_prekey_retained result.1 "bob" (some 7) ≡ true)
    × (signed_prekey_retained result.1 "bob" (some 4) ≡ true)
unfolding get_signed_prekey order_desc insert_desc select
rotate_signed_prekey-retains_example =
    rotate_signed_prekey-retains rotated (signed 7) (signed 4) refl (omega arith)

rotate_signed_prekey_again_example :
    let after = (rotate_signed_prekey rotated (signed 7)).1 in
    rotate_signed_prekey after (signed 7) ≡ (ok (accepted 7), after)
unfolding get_signed_prekey order_desc insert_desc select
rotate_signed_prekey_again_example =
    rotate_signed_prekey_again rotated (signed 7) (signed 4) refl (omega arith)
