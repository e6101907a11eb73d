-- ===== src/Server/Users.antt =====
-- server/src/db/users.rs: registration, where the first registration of a user id wins.
pub mod Identity
use cmp.Base.{
  ℕ, ◌-◌, ◌^◌, String, Bool, true, false, ◌&&◌, List, [], ◌∷◌, ◌++◌, Option, leb, if◌then◌else◌,
  ◌==◌, string_eq, nat_eq,
}
use mathlib.Core.Option
use cmp.Base.Bytes.{Bytes}
use cmp.Base.Rows.{find, delete, exists}
use cmp.Server.Db.{Db, UserRow, SignedPrekeyRow, Result, ok, err, constraint}
use cmp.Server.Prekeys.{insert_prekeys, inventory_of, maximum_id, or_else}

pub record Registration : Type 0 where
  pub user_id : String
  pub identity_key : Bytes
  pub signed_prekey_id : ℕ
  pub signed_prekey_public : Bytes
  pub signed_prekey_signature : Bytes
  pub one_time_prekeys : List (ℕ × Bytes)

abbrev pub is_user : String → UserRow → Bool
is_user user u = u.user_id == user

-- No pre-key uploaded after the registration has a smaller id.
abbrev pub legacy_floor : ℕ
legacy_floor = 2 ^ 31 - 1

-- `.max().unwrap_or(-1).max((1_i64 << 31) - 1)`: the default is below the floor.
unfoldable pub first_high_water : List (ℕ × Bytes) → ℕ
unfolding maximum_id
first_high_water prekeys =
    let highest = or_else 0 (maximum_id prekeys) in
    if leb highest legacy_floor then legacy_floor else highest

unfoldable pub register_atomic : Db → Registration → ℕ → Result Bool × Db
unfolding insert_prekeys first_high_water
register_atomic db registration clock =
    let user = registration.user_id in
    let spk_id = registration.signed_prekey_id in
    if exists (is_user user) db.users
    then (ok false, db)
    else if exists (inventory_of user) db.inventory
    then (err constraint, db)
    else (
      ok true,
      record db {
        users =
            db.users ++ record { user_id = user; identity_key = registration.identity_key } ∷ [];
        signed_prekeys =
            delete (λ (k : SignedPrekeyRow). k.user_id == user && k.key_id == spk_id)
              db.signed_prekeys
            ++ record {
              user_id = user;
              key_id = spk_id;
              public_key = registration.signed_prekey_public;
              signature = registration.signed_prekey_signature;
            }
              ∷ [];
        prekeys = insert_prekeys user clock registration.one_time_prekeys db.prekeys;
        inventory =
            db.inventory
            ++ record {
              user_id = user;
              high_water = first_high_water registration.one_time_prekeys;
            }
              ∷ [];
      },
    )

unfoldable pub get_identity_key : Db → String → Option Bytes
get_identity_key db user_id =
    Option.map (λ (u : UserRow). u.identity_key) (find (is_user user_id) db.users)

unfoldable pub user_exists : Db → String → Bool
user_exists db user_id = exists (is_user user_id) db.users
