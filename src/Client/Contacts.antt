-- ===== src/Client/Contacts.antt =====
-- client/src/verification.rs: the identity keys of the peers and the safety numbers that the user has
-- compared. A text for the screen is the list of its characters.
pub mod Verified
use cmp.Base.{
  ℕ, zero, suc, String, Bool, true, false, List, [], ◌∷◌, ◌++◌, Option, none, some, if◌then◌else◌,
  take, drop, length, ◌==◌, string_eq, list_eq, nat_eq,
}
use cmp.Base.Bytes.{Bytes, ascii}
use cmp.Crypto.Fingerprint.{compute, display_grouped}
use cmp.Client.Store.{
  ClientDb, IdentityKeyStatus, new, unchanged, changed, store_peer_identity_key,
  get_peer_identity_key, store_verification, get_verification, remove_verification,
}

pub data ChatEntry : Type 0 where
  status warning : Bytes → ChatEntry

-- `Result<A, ChatEntry>`.
pub data Outcome {ℓ} (A : Type ℓ) : Type ℓ where
  done : A → Outcome A
  failed : ChatEntry → Outcome A

-- The functions of third-party crates: base64, SHA-512, and `str::as_bytes`.
pub record Library : Type 0 where
  pub b64_decode : String → Option Bytes
  pub sha512 : Bytes → Bytes
  pub utf8 : String → Bytes

-- The text that `split(' ')` cuts into words.
unfoldable pub split : Bytes → List Bytes
split [] = [] ∷ []
split (c ∷ cs) =
    let rest = split cs in
    if c == 32 then [] ∷ rest else elim rest [ [] ↦ (c ∷ []) ∷ [] | w ∷ ws ↦ (c ∷ w) ∷ ws ]

-- `row.join(" ")`.
unfoldable pub join : List Bytes → Bytes
join [] = []
join (w ∷ []) = w
join (w ∷ (v ∷ ws)) = w ++ 32 ∷ join (v ∷ ws)

-- `groups.chunks(4)`, in so many rows at most.
unfoldable pub rows_of_four : ℕ → List Bytes → List ChatEntry
unfolding join
rows_of_four zero ws = []
rows_of_four (suc n) [] = []
rows_of_four (suc n) (w ∷ ws) =
    status (ascii "  " ++ join (take 4 (w ∷ ws))) ∷ rows_of_four n (drop 4 (w ∷ ws))

module _ (l : Library) where
  unfoldable pub decode_identity_key : String → Option Bytes
  decode_identity_key b64 = elim (l.b64_decode b64) [
    | none ↦ none
    | some bytes ↦ if length bytes == 32 then some bytes else none
  ]

  abbrev pub security_alert : String → Bytes
  security_alert peer_id =
      ascii "security alert: "
      ++ (ascii peer_id
          ++ ascii
              "'s identity key has changed! Previous verification is no longer valid. Open verification to see the new safety number.")

  -- The warning, and the tables. A key that does not decode does not reach them.
  unfoldable pub check_peer_identity : ClientDb → String → String → Option Bytes × ClientDb
  unfolding decode_identity_key
  check_peer_identity db peer_id identity_key = elim (decode_identity_key identity_key) [
    | none ↦ (none, db)
    | some key ↦
        let r = store_peer_identity_key db peer_id identity_key in
        elim r.0 [
          | changed ↦ (some (security_alert peer_id), r.1)
          | new ↦ (none, r.1)
          | unchanged ↦ (none, r.1)
        ]
  ]

  -- The safety number with a peer whose key is stored or not. The text of an error of base64 is left
  -- out.
  unfoldable pub number_with : String → String → String → Option String → Outcome Bytes
  unfolding decode_identity_key
  number_with local_user_id local_key peer_id none = failed (
      status (
        ascii "no identity key stored for "
        ++ (ascii peer_id ++ ascii " — send or receive a message first")))
  number_with local_user_id local_key peer_id (some peer_key) =
      elim (decode_identity_key local_key) [
        | none ↦ failed (status (ascii "failed to compute safety number: "))
        | some local_bytes ↦ elim (decode_identity_key peer_key) [
          | none ↦ failed (status (ascii "failed to compute safety number: "))
          | some peer_bytes ↦ done (
              display_grouped
                (compute l.sha512 l.utf8 local_user_id local_bytes peer_id peer_bytes))
        ]
      ]

  unfoldable pub resolve_safety_number : String → String → String → ClientDb → Outcome Bytes
  unfolding number_with
  resolve_safety_number local_user_id local_key peer_id db =
      number_with local_user_id local_key peer_id (get_peer_identity_key db peer_id)

  -- What the last line says of a contact.
  unfoldable pub verification_line : Option Bytes → Bytes → ChatEntry
  verification_line none safety_number =
      status (ascii "not yet verified — press y after comparing numbers")
  verification_line (some stored) safety_number =
      if stored == safety_number
      then status (ascii "✅ this contact is verified")
      else warning (ascii "stored verification is outdated — key has changed since verification")

  unfoldable pub format_lines : Outcome Bytes → String → Option Bytes → List ChatEntry
  unfolding split rows_of_four verification_line
  format_lines (failed entry) peer_id stored = entry ∷ []
  format_lines (done safety_number) peer_id stored =
      status (ascii "safety number with " ++ (ascii peer_id ++ ascii ":"))
      ∷ (rows_of_four (length (split safety_number)) (split safety_number)
          ++ status (ascii "compare this number with your contact out-of-band to verify E2EE")
            ∷ verification_line stored safety_number
            ∷ [])

  unfoldable pub format_verify_output : String → String → String → ClientDb → List ChatEntry
  unfolding resolve_safety_number format_lines
  format_verify_output local_user_id local_key peer_id db =
      format_lines (resolve_safety_number local_user_id local_key peer_id db) peer_id
        (get_verification db peer_id)

  unfoldable pub confirm_with : String → Outcome Bytes → ClientDb → List ChatEntry × ClientDb
  confirm_with peer_id (failed entry) db = (entry ∷ [], db)
  confirm_with peer_id (done safety_number) db = (
    status (ascii "✅ " ++ (ascii peer_id ++ ascii " marked as verified")) ∷ [],
    store_verification db peer_id safety_number,
  )

  unfoldable pub confirm_verification :
      String → String → String → ClientDb → List ChatEntry × ClientDb
  unfolding resolve_safety_number confirm_with
  confirm_verification local_user_id local_key peer_id db =
      confirm_with peer_id (resolve_safety_number local_user_id local_key peer_id db) db

  unfoldable pub clear_verification : String → ClientDb → List ChatEntry × ClientDb
  clear_verification peer_id db = (
    status (ascii "verification cleared for " ++ ascii peer_id) ∷ [],
    remove_verification db peer_id,
  )

  unfoldable pub act : String → String → String → String → ClientDb → List ChatEntry × ClientDb
  unfolding clear_verification confirm_verification format_verify_output
  act local_user_id local_key peer_id text db =
      if text == "clear"
      then clear_verification peer_id db
      else if text == "confirm"
      then confirm_verification local_user_id local_key peer_id db
      else (format_verify_output local_user_id local_key peer_id db, db)

  abbrev open_db : List ChatEntry × ClientDb → List ChatEntry × Option ClientDb
  open_db (entries, db) = (entries, some db)

  -- Each of the three actions asks for the database first.
  unfoldable pub handle_action :
      String → String → String → String → Option ClientDb → List ChatEntry × Option ClientDb
  unfolding act
  handle_action local_user_id local_key peer_id text none =
      (status (ascii "database unavailable") ∷ [], none)
  handle_action local_user_id local_key peer_id text (some db) =
      open_db (act local_user_id local_key peer_id text db)
