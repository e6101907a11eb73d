-- ===== src/Crypto/Fingerprint/Shape.antt =====
-- fingerprint.rs: what a safety number looks like.
use cmp.Base.{
  ℕ, zero, suc, ◌+◌, ◌/◌, ◌*◌, ◌^◌, ◌-◌, ◌%◌, ◌<◌, ◌≤◌, String, List, [], ◌∷◌, ◌++◌, ◌≡◌, arith,
  refl, ap, sym, ◌∙◌, length, length-append, if◌then◌else◌, ◌==◌, nat_eq, Bool-cases, inl, inr,
}
use cmp.Base.Bytes.{Bytes}
use cmp.Base.Rows.{All, All-append}
use cmp.Crypto.Fingerprint.{
  Fingerprint, pair_le, decimal, groups, rehash, iterated_hash, compute, display_from,
  display_grouped, iterations, version,
}

-- The digits.
abbrev pub IsDigit : ℕ → Type 0
IsDigit d = d < 10

decimal-IsDigit : (places rem : ℕ) → All IsDigit (decimal places rem)
unfolding decimal
decimal-IsDigit zero rem = tt
decimal-IsDigit (suc places) rem =
    All-append IsDigit (decimal places (rem / 10)) (rem % 10 ∷ [])
      (decimal-IsDigit places (rem / 10)) (omega arith, tt)

length-decimal : (places rem : ℕ) → length (decimal places rem) ≡ places
unfolding decimal
length-decimal zero rem = refl
length-decimal (suc places) rem = omega (
  arith,
  length-append (decimal places (rem / 10)) (rem % 10 ∷ []),
  length-decimal places (rem / 10),
)

groups-IsDigit : (n : ℕ) (hash : Bytes) → All IsDigit (groups n hash)
unfolding groups
groups-IsDigit zero hash = tt
groups-IsDigit (suc n) (a ∷ (b ∷ (c ∷ (d ∷ (e ∷ hash))))) =
    All-append IsDigit (decimal 5 _) (groups n hash) (decimal-IsDigit 5 _) (groups-IsDigit n hash)
groups-IsDigit (suc n) [] = tt
groups-IsDigit (suc n) (a ∷ []) = tt
groups-IsDigit (suc n) (a ∷ (b ∷ [])) = tt
groups-IsDigit (suc n) (a ∷ (b ∷ (c ∷ []))) = tt
groups-IsDigit (suc n) (a ∷ (b ∷ (c ∷ (d ∷ [])))) = tt

length-groups : (n : ℕ) (hash : Bytes) → 5 * n ≤ length hash → length (groups n hash) ≡ 5 * n
unfolding groups
length-groups zero hash h = omega arith
length-groups (suc n) (a ∷ (b ∷ (c ∷ (d ∷ (e ∷ hash))))) h = omega (
  arith,
  h,
  length-append (decimal 5 ((a * 2 ^ 32 + b * 2 ^ 24 + c * 2 ^ 16 + d * 2 ^ 8 + e) % 100000))
      (groups n hash),
  length-decimal 5 ((a * 2 ^ 32 + b * 2 ^ 24 + c * 2 ^ 16 + d * 2 ^ 8 + e) % 100000),
  length-groups n hash,
)
length-groups (suc n) [] h = absurd (omega (arith, h))
length-groups (suc n) (a ∷ []) h = absurd (omega (arith, h))
length-groups (suc n) (a ∷ (b ∷ [])) h = absurd (omega (arith, h))
length-groups (suc n) (a ∷ (b ∷ (c ∷ []))) h = absurd (omega (arith, h))
length-groups (suc n) (a ∷ (b ∷ (c ∷ (d ∷ [])))) h = absurd (omega (arith, h))

module _ (sha512 : Bytes → Bytes) (utf8 : String → Bytes) where
  length-rehash :
      (n : ℕ) (key user hash : Bytes)
      → ((m : Bytes) → length (sha512 m) ≡ 64)
      → length hash ≡ 64
      → length (rehash sha512 utf8 n key user hash) ≡ 64
  unfolding rehash
  length-rehash zero key user hash full h = h
  length-rehash (suc n) key user hash full h =
      length-rehash n key user (sha512 (hash ++ (key ++ user))) full (full _)

  iterated_hash-IsDigit :
      (user : String) (key : Bytes)
      → ((m : Bytes) → length (sha512 m) ≡ 64)
      → (length (iterated_hash sha512 utf8 user key) ≡ 30)
        × All IsDigit (iterated_hash sha512 utf8 user key)
  unfolding iterated_hash
  iterated_hash-IsDigit user key full =
      let start = sha512 (version ∷ key ++ utf8 user) in
      let enough = length-rehash (iterations - 1) key (utf8 user) start full (full _) in
      (length-groups 6 _ (omega (arith, enough)), groups-IsDigit 6 _)

  -- The safety number has 60 digits, each below 10.
  pub compute-IsDigit :
      (user_a : String) (key_a : Bytes) (user_b : String) (key_b : Bytes)
      → ((m : Bytes) → length (sha512 m) ≡ 64)
      → (length (compute sha512 utf8 user_a key_a user_b key_b).digits ≡ 60)
        × All IsDigit (compute sha512 utf8 user_a key_a user_b key_b).digits
  unfolding compute
  compute-IsDigit user_a key_a user_b key_b full =
      let (la, da) = iterated_hash-IsDigit user_a key_a full in
      let (lb, db) = iterated_hash-IsDigit user_b key_b full in
      let xs = iterated_hash sha512 utf8 user_a key_a in
      let ys = iterated_hash sha512 utf8 user_b key_b in
      elim (Bool-cases (pair_le (utf8 user_a) key_a (utf8 user_b) key_b)) [
        | inl first ↦
            rw first (omega (arith, length-append xs ys, la, lb), All-append IsDigit xs ys da db)
        | inr second ↦
            rw second (omega (arith, length-append ys xs, la, lb), All-append IsDigit ys xs db da)
      ]

abbrev fingerprint : List ℕ → Fingerprint
fingerprint ds = record { digits = ds }

-- The digits of a text: its characters but for the spaces.
unfoldable pub digits_of : Bytes → List ℕ
digits_of [] = []
digits_of (c ∷ cs) = let rest = digits_of cs in if c == 32 then rest else (c - 48) ∷ rest

digits_of-display_from : (i : ℕ) (ds : List ℕ) → digits_of (display_from i ds) ≡ ds
unfolding digits_of display_from
digits_of-display_from i [] = refl
digits_of-display_from i (d ∷ ds) = ground (arith, digits_of-display_from (i + 1) ds)

-- The text that is shown determines the digits: two safety numbers that are shown alike are the same.
pub display_grouped-injective : (f g : Fingerprint) → display_grouped f ≡ display_grouped g → f ≡ g
unfolding display_grouped
display_grouped-injective f g h =
    ap fingerprint (
      sym (digits_of-display_from 0 f.digits)
      ∙ (ap digits_of h ∙ digits_of-display_from 0 g.digits))
