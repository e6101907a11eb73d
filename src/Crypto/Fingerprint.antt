-- ===== src/Crypto/Fingerprint.antt =====
-- crypto/src/fingerprint.rs: the safety number of two users. `sha512` is `Sha512::digest`, which gives
-- 64 bytes, and `utf8` is `str::as_bytes`.
pub mod Symmetric
pub mod Shape
use cmp.Base.{
  ℕ, zero, suc, ◌+◌, ◌-◌, ◌*◌, ◌/◌, ◌%◌, ◌^◌, String, Bool, true, false, ◌&&◌, ◌||◌, List, [], ◌∷◌,
  ◌++◌, if◌then◌else◌, ltb, ◌==◌, nat_eq,
}
use cmp.Base.Bytes.{Bytes}

-- `ITERATIONS` and `VERSION`.
abbrev pub iterations : ℕ
iterations = 5200

abbrev pub version : ℕ
version = 0

-- The digits, of which there are 60.
pub record Fingerprint : Type 0 where
  pub digits : List ℕ

-- The order of byte slices, and of pairs of a name and a key.
unfoldable pub bytes_le : Bytes → Bytes → Bool
bytes_le [] ys = true
bytes_le (x ∷ xs) [] = false
bytes_le (x ∷ xs) (y ∷ ys) = ltb x y || x == y && bytes_le xs ys

unfoldable pub pair_le : Bytes → Bytes → Bytes → Bytes → Bool
unfolding bytes_le
pair_le user_a key_a user_b key_b =
    if bytes_le user_b user_a
    then (if bytes_le user_a user_b then bytes_le key_a key_b else false)
    else true

-- `rem % 10` and `rem /= 10`, from the last digit to the first.
unfoldable pub decimal : ℕ → ℕ → List ℕ
decimal zero rem = []
decimal (suc places) rem = decimal places (rem / 10) ++ rem % 10 ∷ []

-- Groups of five bytes, each as a number below 100000 in five digits.
unfoldable pub groups : ℕ → Bytes → List ℕ
unfolding decimal
groups (suc n) (a ∷ (b ∷ (c ∷ (d ∷ (e ∷ hash))))) =
    decimal 5 ((a * 2 ^ 32 + b * 2 ^ 24 + c * 2 ^ 16 + d * 2 ^ 8 + e) % 100000) ++ groups n hash
groups n hash = []

module _ (sha512 : Bytes → Bytes) (utf8 : String → Bytes) where
  unfoldable pub rehash : ℕ → Bytes → Bytes → Bytes → Bytes
  rehash zero key user hash = hash
  rehash (suc n) key user hash = rehash n key user (sha512 (hash ++ (key ++ user)))

  unfoldable pub iterated_hash : String → Bytes → List ℕ
  unfolding rehash groups
  iterated_hash user_id identity_key =
      let user = utf8 user_id in
      groups 6 (rehash (iterations - 1) identity_key user (sha512 (version ∷ identity_key ++ user)))

  unfoldable pub compute : String → Bytes → String → Bytes → Fingerprint
  unfolding pair_le iterated_hash
  compute user_a key_a user_b key_b =
      if pair_le (utf8 user_a) key_a (utf8 user_b) key_b
      then record { digits = iterated_hash user_a key_a ++ iterated_hash user_b key_b }
      else record { digits = iterated_hash user_b key_b ++ iterated_hash user_a key_a }

-- The characters, from the digit with a number on.
unfoldable pub display_from : ℕ → List ℕ → Bytes
display_from i [] = []
display_from i (d ∷ ds) =
    let rest = display_from (i + 1) ds in
    if ltb 0 i && i % 5 == 0 then 32 ∷ (48 + d) ∷ rest else (48 + d) ∷ rest

unfoldable pub display_grouped : Fingerprint → Bytes
unfolding display_from
display_grouped f = display_from 0 f.digits
