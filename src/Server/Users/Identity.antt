-- ===== src/Server/Users/Identity.antt =====
-- users.rs: trust on first use.
use cmp.Base.{◌≡◌, ℕ, String, true, List, [], ◌∷◌, some, arith, ==-refl, string_eq}
use cmp.Base.Bytes.{Bytes}
use cmp.Base.Rows.{find, find-append}
use cmp.Server.Db.{Db, UserRow, ok}
use cmp.Server.Users.{Registration, register_atomic, get_identity_key, is_user}

register_keeps :
    (db : Db) (registration : Registration) (clock : ℕ) (user : String) (key : Bytes)
    → get_identity_key db user ≡ some key
    → get_identity_key (register_atomic db registration clock).1 user ≡ some key
unfolding register_atomic get_identity_key
register_keeps db registration clock user key had =
    let row : UserRow = record {
      user_id = registration.user_id;
      identity_key = registration.identity_key;
    } in
    ground (arith, had, find-append (is_user user) db.users (row ∷ []))

register_sets :
    (db : Db) (registration : Registration) (clock : ℕ)
    → (register_atomic db registration clock).0 ≡ ok true
    → get_identity_key (register_atomic db registration clock).1 registration.user_id
      ≡ some registration.identity_key
unfolding register_atomic get_identity_key find
register_sets db registration clock done =
    let row : UserRow = record {
      user_id = registration.user_id;
      identity_key = registration.identity_key;
    } in
    ground (
      arith,
      done,
      find-append (is_user registration.user_id) db.users (row ∷ []),
      ==-refl registration.user_id,
    )

-- Registrations one after the other, each at its time.
unfoldable pub register_all : List (Registration × ℕ) → Db → Db
register_all [] db = db
register_all ((registration, clock) ∷ rest) db =
    register_all rest (register_atomic db registration clock).1

register_all_keeps :
    (rest : List (Registration × ℕ)) (db : Db) (user : String) (key : Bytes)
    → get_identity_key db user ≡ some key
    → get_identity_key (register_all rest db) user ≡ some key
unfolding register_all
register_all_keeps [] db user key had = had
register_all_keeps ((registration, clock) ∷ rest) db user key had =
    register_all_keeps rest _ user key (register_keeps db registration clock user key had)

-- Once a registration has succeeded, the identity key of its user is the one that it named, after
-- any further registrations, of the same user with other keys too.
pub register_first_wins :
    (db : Db) (registration : Registration) (clock : ℕ) (rest : List (Registration × ℕ))
    → (register_atomic db registration clock).0 ≡ ok true
    → get_identity_key
        (register_all rest (register_atomic db registration clock).1)
        registration.user_id
      ≡ some registration.identity_key
register_first_wins db registration clock rest done =
    register_all_keeps rest _ registration.user_id registration.identity_key
      (register_sets db registration clock done)
