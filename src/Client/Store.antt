-- ===== src/Client/Store.antt =====
-- client/src/db.rs: the tables of the client, and the statements on them. The rows of `messages` are in
-- the order of their id, which AUTOINCREMENT makes the order of insertion.
use cmp.Base.{
  ℕ, String, Bool, true, false, List, [], ◌∷◌, ◌++◌, map, Option, none, some, if◌then◌else◌, take,
  ◌==◌, string_eq,
}
use cmp.Base.Bytes.{Bytes}
use cmp.Base.HashMap.{HashMap, get, insert, remove}
use cmp.Base.Rows.{exists, select, delete}

pub data MessageDirection : Type 0 where
  sent received : MessageDirection

-- `StoredMessage`, with the id on which the table has a unique index.
pub record MessageRow : Type 0 where
  pub peer_id : String
  pub direction : MessageDirection
  pub message_id : String
  pub body : String

-- A fingerprint is kept as its characters.
pub record ClientDb : Type 0 where
  pub messages : List MessageRow
  pub peer_identity_keys : HashMap String String
  pub verified_contacts : HashMap String Bytes

pub data IdentityKeyStatus : Type 0 where
  new unchanged changed : IdentityKeyStatus

-- INSERT OR IGNORE.
unfoldable pub insert_message : ClientDb → MessageRow → Bool × ClientDb
insert_message db row =
    if exists (λ (r : MessageRow). r.message_id == row.message_id) db.messages
    then (false, db)
    else (true, record db { messages = db.messages ++ row ∷ [] })

unfoldable pub store_peer_identity_key : ClientDb → String → String → IdentityKeyStatus × ClientDb
store_peer_identity_key db peer_id identity_key = elim (get peer_id db.peer_identity_keys) [
  | none ↦
      (new, record db { peer_identity_keys = insert peer_id identity_key db.peer_identity_keys })
  | some stored ↦ if stored == identity_key then (unchanged, db) else (
    changed,
    record db {
      peer_identity_keys = insert peer_id identity_key db.peer_identity_keys;
      verified_contacts = remove peer_id db.verified_contacts;
    },
  )
]

unfoldable pub get_peer_identity_key : ClientDb → String → Option String
get_peer_identity_key db peer_id = get peer_id db.peer_identity_keys

unfoldable pub store_verification : ClientDb → String → Bytes → ClientDb
store_verification db peer_id fingerprint = record db {
  verified_contacts = insert peer_id fingerprint db.verified_contacts;
}

unfoldable pub get_verification : ClientDb → String → Option Bytes
get_verification db peer_id = get peer_id db.verified_contacts

unfoldable pub remove_verification : ClientDb → String → ClientDb
remove_verification db peer_id = record db {
  verified_contacts = remove peer_id db.verified_contacts;
}

abbrev pub history_load_limit : ℕ
history_load_limit = 100

unfoldable pub reverse {ℓ} : {A : Type ℓ} → List A → List A
reverse [] = []
reverse (x ∷ xs) = reverse xs ++ x ∷ []

-- ORDER BY id DESC, LIMIT, and then reversed for display.
unfoldable pub load_recent_messages : ClientDb → String → List MessageRow
unfolding reverse
load_recent_messages db peer_id = reverse (
    take history_load_limit
      (reverse (select (λ (r : MessageRow). r.peer_id == peer_id) db.messages)))

-- Of each name the first occurrence.
unfoldable pub distinct : List String → List String
distinct [] = []
distinct (x ∷ xs) = x ∷ delete (λ y. y == x) (distinct xs)

-- GROUP BY peer_id ORDER BY MAX(id) DESC: each peer at its latest message.
unfoldable pub list_conversation_peers : ClientDb → List String
unfolding reverse distinct
list_conversation_peers db = distinct (map (λ (r : MessageRow). r.peer_id) (reverse db.messages))
