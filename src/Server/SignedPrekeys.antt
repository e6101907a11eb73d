-- ===== src/Server/SignedPrekeys.antt =====
-- server/src/db/prekeys.rs, `rotate_signed_prekey` and `get_signed_prekey`.
pub mod Rotation
use cmp.Base.{
  ℕ, String, Bool, not, ◌&&◌, List, [], ◌∷◌, ◌++◌, Option, none, some, leb, if◌then◌else◌, take,
  ◌==◌, string_eq, nat_eq, list_eq,
}
use cmp.Base.Rows.{find, delete, exists, select}
use cmp.Server.Db.{Db, SignedPrekeyRow, Result, ok, err, no_rows}

-- Each answer carries the `current_key_id`.
pub data SignedPreKeyRotationResult : Type 0 where
  accepted previously_accepted invalid_sequence conflict : ℕ → SignedPreKeyRotationResult

abbrev pub signed_by : String → SignedPrekeyRow → Bool
signed_by user k = k.user_id == user

abbrev pub is_signed_prekey : String → ℕ → SignedPrekeyRow → Bool
is_signed_prekey user key_id k = k.user_id == user && k.key_id == key_id

-- ORDER BY key_id DESC.
unfoldable pub insert_desc : SignedPrekeyRow → List SignedPrekeyRow → List SignedPrekeyRow
insert_desc k [] = k ∷ []
insert_desc k (x ∷ rest) = if leb x.key_id k.key_id then k ∷ x ∷ rest else x ∷ insert_desc k rest

unfoldable pub order_desc : List SignedPrekeyRow → List SignedPrekeyRow
unfolding insert_desc
order_desc [] = []
order_desc (k ∷ rest) = insert_desc k (order_desc rest)

abbrev pub first {ℓ} : {A : Type ℓ} → List A → Option A
first [] = none
first (x ∷ xs) = some x

-- Returns the row; the code takes its `key_id`, `public_key` and `signature`.
unfoldable pub get_signed_prekey : Db → String → Option SignedPrekeyRow
unfolding order_desc
get_signed_prekey db user_id = first (order_desc (select (signed_by user_id) db.signed_prekeys))

-- DELETE ... WHERE key_id NOT IN (SELECT ... ORDER BY key_id DESC LIMIT 2).
unfoldable pub prune : String → List SignedPrekeyRow → List SignedPrekeyRow
unfolding order_desc
prune user_id rows =
    let newest = take 2 (order_desc (select (signed_by user_id) rows)) in
    delete
      (λ k.
        k.user_id == user_id && not (exists (λ (n : SignedPrekeyRow). n.key_id == k.key_id) newest))
      rows

-- The two statements that store the key, and the commit.
unfoldable pub store_signed_prekey : Db → SignedPrekeyRow → Db
unfolding prune
store_signed_prekey tx k = record tx {
  signed_prekeys = prune k.user_id (tx.signed_prekeys ++ k ∷ []);
}

unfoldable pub rotate_after : Db → SignedPrekeyRow → ℕ → SignedPreKeyRotationResult × Db
unfolding store_signed_prekey
rotate_after db k current_id = elim (find (is_signed_prekey k.user_id k.key_id) db.signed_prekeys) [
  | some existing ↦ (
    if existing.public_key == k.public_key && existing.signature == k.signature
        then (if k.key_id == current_id
            then accepted current_id
            else previously_accepted current_id)
        else conflict current_id,
    db,
  )
  | none ↦
      if leb k.key_id current_id
      then (invalid_sequence current_id, db)
      else (accepted k.key_id, store_signed_prekey db k)
]

-- The arguments of the call are the fields of `k`.
unfoldable pub rotate_signed_prekey : Db → SignedPrekeyRow → Result SignedPreKeyRotationResult × Db
unfolding rotate_after get_signed_prekey
rotate_signed_prekey db k = elim (get_signed_prekey db k.user_id) [
  | none ↦ (err no_rows, db)
  | some current ↦ let r = rotate_after db k current.key_id in (ok r.0, r.1)
]
