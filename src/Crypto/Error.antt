-- ===== src/Crypto/Error.antt =====
-- crypto/src/error.rs, and `Result<T, CryptoError>`.
use cmp.Base.{String, Bool, true, false, Option, none, some, ◌≡◌, refl, ◌⊎◌, inl, inr}

pub data CryptoError : Type 0 where
  invalid_signature : CryptoError
  invalid_bundle : String → CryptoError
  encryption_failed decryption_failed no_session : CryptoError
  skipped_key_limit_exceeded kdf_failure message_counter_exhausted : CryptoError

pub data Result {ℓ} (A : Type ℓ) : Type ℓ where
  ok : A → Result A
  err : CryptoError → Result A

infixl 5 ◌>>=◌ ◌>>◌
abbrev pub ◌>>=◌ {ℓ κ} : {A : Type ℓ} {B : Type κ} → Result A → (A → Result B) → Result B
ok a >>= f = f a
err e >>= f = err e

-- `ok_or` and `map_err(|_| e)`.
abbrev pub ok_or {ℓ} : {A : Type ℓ} → Option A → CryptoError → Result A
ok_or none e = err e
ok_or (some a) e = ok a

abbrev pub ◌>>◌ {ℓ} : {B : Type ℓ} → Result (Unit {0}) → Result B → Result B
m >> k = m >>= λ _. k

abbrev pub guard : Bool → CryptoError → Result (Unit {0})
guard true e = ok tt
guard false e = err e

abbrev pub map_ok {ℓ κ} : {A : Type ℓ} {B : Type κ} → (A → B) → Result A → Result B
map_ok f (ok a) = ok (f a)
map_ok f (err e) = err e

pub Result-cases {ℓ} :
    {A : Type ℓ} (r : Result A) → ((a : A) × (r ≡ ok a)) ⊎ ((e : CryptoError) × (r ≡ err e))
Result-cases (ok a) = inl (a, refl)
Result-cases (err e) = inr (e, refl)
