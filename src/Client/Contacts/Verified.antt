-- ===== src/Client/Contacts/Verified.antt =====
-- client/src/verification.rs and db.rs: what it means that a contact is verified.
use cmp.Base.{
  String, List, [], ◌∷◌, none, some, ◌≡◌, ◌≢◌, ◌⊎◌, inl, inr, arith, refl, ap, subst, sym, ◌∙◌,
  ◌==◌, string_eq, list_eq, nat_eq, Bool-cases, Option-cases, ==-refl,
}
use cmp.Base.Bytes.{Bytes}
use cmp.Base.HashMap.{get, get-insert, get-remove}
use cmp.Client.Store.{
  ClientDb, store_peer_identity_key, get_peer_identity_key, store_verification, get_verification,
  remove_verification,
}
use cmp.Client.Contacts.{
  Library, Outcome, done, failed, decode_identity_key, security_alert, check_peer_identity,
  number_with, resolve_safety_number, confirm_with, confirm_verification, clear_verification, act,
}

-- What happens to the contacts: a key of a peer arrives, or the user asks for an action.
pub data Event : Type 0 where
  arrives : String → String → Event
  asks : String → String → Event

unfoldable pub step : Library → String → String → Event → ClientDb → ClientDb
unfolding check_peer_identity act
step l user key (arrives peer_id identity_key) db =
    (check_peer_identity l db peer_id identity_key).1
step l user key (asks peer_id text) db = (act l user key peer_id text db).1

unfoldable pub run : Library → String → String → List Event → ClientDb → ClientDb
unfolding step
run l user key [] db = db
run l user key (s ∷ steps) db = run l user key steps (step l user key s db)

-- The peer is not verified, or what is stored is the safety number with its present key.
abbrev Genuine : Library → String → String → String → ClientDb → Type 0
Genuine l user key peer db =
    (get peer db.verified_contacts ≡ none)
    ⊎ ((fp : Bytes) × (get peer db.verified_contacts ≡ some fp)
        × (number_with l user key peer (get peer db.peer_identity_keys) ≡ done fp))

module _ (l : Library) (user key : String) where
  -- Nothing changes for the peer.
  Genuine-kept :
      (peer : String) (before after : ClientDb)
      → get peer after.verified_contacts ≡ get peer before.verified_contacts
      → get peer after.peer_identity_keys ≡ get peer before.peer_identity_keys
      → Genuine l user key peer before
      → Genuine l user key peer after
  Genuine-kept peer before after v k (inl none_) = inl (v ∙ none_)
  Genuine-kept peer before after v k (inr (fp, stored, same)) =
      inr (fp, v ∙ stored, ap (number_with l user key peer) k ∙ same)

  store-Genuine_self :
      (peer identity_key : String) (db : ClientDb)
      → Genuine l user key peer db
      → Genuine l user key peer (store_peer_identity_key db peer identity_key).1
  unfolding store_peer_identity_key number_with
  store-Genuine_self peer identity_key db h =
      let after = (store_peer_identity_key db peer identity_key).1 in
      elim (Option-cases (get peer db.peer_identity_keys)) [
        | inl absent ↦ elim h [
          | inl none_ ↦ inl (ground (arith, absent, none_))
          | inr (fp, stored, same) ↦
              absurd (ground (arith, ap (number_with l user key peer) absent, same))
        ]
        | inr (old, present) ↦ elim (Bool-cases (old == identity_key)) [
          | inl equal ↦
              Genuine-kept peer db after (ground (arith, present, equal))
                (ground (arith, present, equal)) h
          | inr other ↦ inl (
              ground
                (arith, present, other, get-remove peer peer db.verified_contacts, ==-refl peer))
        ]
      ]

  store-Genuine :
      (peer other identity_key : String) (db : ClientDb)
      → Genuine l user key peer db
      → Genuine l user key peer (store_peer_identity_key db other identity_key).1
  unfolding store_peer_identity_key
  store-Genuine peer other identity_key db h = elim (Bool-cases (other == peer)) [
    | inr apart ↦
        Genuine-kept peer db (store_peer_identity_key db other identity_key).1
          (ground (arith, apart, get-remove other peer db.verified_contacts))
          (ground (arith, apart, get-insert other peer identity_key db.peer_identity_keys)) h
    | inl same ↦
        let equal = (string_eq.equal_iff other peer).0 same in
        subst (λ o. Genuine l user key peer (store_peer_identity_key db o identity_key).1)
          (sym equal) (store-Genuine_self peer identity_key db h)
  ]

  check-Genuine :
      (peer other identity_key : String) (db : ClientDb)
      → Genuine l user key peer db
      → Genuine l user key peer (check_peer_identity l db other identity_key).1
  unfolding check_peer_identity
  check-Genuine peer other identity_key db h =
      elim (Option-cases (decode_identity_key l identity_key)) [
        | inl bad ↦
            Genuine-kept peer db (check_peer_identity l db other identity_key).1
              (ground (arith, bad)) (ground (arith, bad)) h
        | inr (bytes, good) ↦
            Genuine-kept peer (store_peer_identity_key db other identity_key).1
              (check_peer_identity l db other identity_key).1 (ground (arith, good))
              (ground (arith, good)) (store-Genuine peer other identity_key db h)
      ]

  confirm-Genuine :
      (peer other : String) (db : ClientDb) (o : Outcome Bytes)
      → number_with l user key other (get other db.peer_identity_keys) ≡ o
      → Genuine l user key peer db
      → Genuine l user key peer (confirm_with l other o db).1
  unfolding confirm_with store_verification
  confirm-Genuine peer other db (failed entry) q h = h
  confirm-Genuine peer other db (done sn) q h = elim (Bool-cases (other == peer)) [
    | inr apart ↦
        Genuine-kept peer db (confirm_with l other (done sn) db).1
          (ground (arith, apart, get-insert other peer sn db.verified_contacts)) refl h
    | inl same ↦
        let equal = (string_eq.equal_iff other peer).0 same in
        inr (
          sn,
          ground (arith, same, get-insert other peer sn db.verified_contacts),
          subst (λ p. number_with l user key p (get p db.peer_identity_keys) ≡ done sn) equal q,
        )
  ]

  clear-Genuine :
      (peer other : String) (db : ClientDb)
      → Genuine l user key peer db
      → Genuine l user key peer (clear_verification l other db).1
  unfolding clear_verification remove_verification
  clear-Genuine peer other db h = elim (Bool-cases (other == peer)) [
    | inr apart ↦
        Genuine-kept peer db (clear_verification l other db).1
          (ground (arith, apart, get-remove other peer db.verified_contacts)) refl h
    | inl same ↦ inl (ground (arith, same, get-remove other peer db.verified_contacts))
  ]

  act-Genuine :
      (peer other text : String) (db : ClientDb)
      → Genuine l user key peer db
      → Genuine l user key peer (act l user key other text db).1
  unfolding act confirm_verification resolve_safety_number get_peer_identity_key
  act-Genuine peer other text db h = elim (Bool-cases (text == "clear")) [
    | inl clear ↦ rw clear (clear-Genuine peer other db h)
    | inr other_text ↦ elim (Bool-cases (text == "confirm")) [
      | inl confirm ↦ rw (other_text, confirm) (confirm-Genuine peer other db _ refl h)
      | inr view ↦ rw (other_text, view) h
    ]
  ]

  run-Genuine :
      (peer : String) (events : List Event) (db : ClientDb)
      → Genuine l user key peer db
      → Genuine l user key peer (run l user key events db)
  unfolding run step
  run-Genuine peer [] db h = h
  run-Genuine peer (arrives other k ∷ events) db h =
      run-Genuine peer events (check_peer_identity l db other k).1 (check-Genuine peer other k db h)
  run-Genuine peer (asks other text ∷ events) db h =
      run-Genuine peer events (act l user key other text db).1 (act-Genuine peer other text db h)

  -- Whatever keys arrive and whatever the user asks for, from a client with no verified contacts on: the
  -- number that is stored for a verified contact is always the safety number with the key that the
  -- contact has now.
  pub run-verified :
      (events : List Event) (db : ClientDb) (peer : String) (fp : Bytes)
      → db.verified_contacts ≡ []
      → get_verification (run l user key events db) peer ≡ some fp
      → resolve_safety_number l user key peer (run l user key events db) ≡ done fp
  unfolding get_verification resolve_safety_number get_peer_identity_key get
  run-verified events db peer fp fresh stored =
      elim (run-Genuine peer events db (inl (ap (get peer) fresh))) [
        | inl none_ ↦ absurd (ground (arith, none_, stored))
        | inr (sn, found, same) ↦ ground (arith, found, stored, same)
      ]

  -- A key that decodes and differs from the one that is stored for the peer gives the warning, replaces
  -- the key, and ends the verification of this peer and of no other.
  pub check_peer_identity-changed :
      (db : ClientDb) (peer other old identity_key : String) (bytes : Bytes)
      → get_peer_identity_key db peer ≡ some old
      → old ≢ identity_key
      → decode_identity_key l identity_key ≡ some bytes
      → other ≢ peer
      → let r = check_peer_identity l db peer identity_key in
        (r.0 ≡ some (security_alert l peer))
        × (get_peer_identity_key r.1 peer ≡ some identity_key)
        × (get_verification r.1 peer ≡ none)
        × (get_verification r.1 other ≡ get_verification db other)
  unfolding check_peer_identity store_peer_identity_key get_peer_identity_key get_verification
  check_peer_identity-changed db peer other old identity_key bytes had differs good apart =
      let differ = string_eq.equal_iff old identity_key in
      (
        ground (arith, had, differs, good, differ),
        ground (
          arith,
          had,
          differs,
          good,
          differ,
          get-insert peer peer identity_key db.peer_identity_keys,
          ==-refl peer,
        ),
        ground (
          arith,
          had,
          differs,
          good,
          differ,
          get-remove peer peer db.verified_contacts,
          ==-refl peer,
        ),
        ground (
          arith,
          had,
          differs,
          good,
          differ,
          get-remove peer other db.verified_contacts,
          string_eq.equal_iff peer other,
          apart,
        ),
      )
