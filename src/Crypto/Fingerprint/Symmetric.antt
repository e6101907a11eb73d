-- ===== src/Crypto/Fingerprint/Symmetric.antt =====
-- fingerprint.rs: that both parties see the same number.
use cmp.Base.{
  ◌-◌, String, true, false, [], ◌∷◌, ◌++◌, ◌≡◌, ◌⊎◌, arith, refl, ap₂, nat_eq, Bool-cases, inl, inr,
}
use cmp.Base.Bytes.{Bytes}
use cmp.Crypto.Fingerprint.{
  bytes_le, pair_le, groups, rehash, iterated_hash, compute, iterations, version,
}

bytes_le_total : (xs ys : Bytes) → bytes_le xs ys ≡ false → bytes_le ys xs ≡ true
unfolding bytes_le
bytes_le_total [] ys h = absurd (ground (arith, h))
bytes_le_total (x ∷ xs) [] h = refl
bytes_le_total (x ∷ xs) (y ∷ ys) h = ground (arith, h, bytes_le_total xs ys)

bytes_le_antisym : (xs ys : Bytes) → bytes_le xs ys ≡ true → bytes_le ys xs ≡ true → xs ≡ ys
unfolding bytes_le
bytes_le_antisym [] [] h k = refl
bytes_le_antisym [] (y ∷ ys) h k = absurd (ground (arith, k))
bytes_le_antisym (x ∷ xs) [] h k = absurd (ground (arith, h))
bytes_le_antisym (x ∷ xs) (y ∷ ys) h k = ground (arith, h, k, bytes_le_antisym xs ys)

-- Each pair comes first in one of the two orders, and in both only if the pairs are the same.
pair_le_cases :
    (ua ka ub kb : Bytes)
    → ((pair_le ua ka ub kb ≡ true) × (pair_le ub kb ua ka ≡ false))
      ⊎ (((pair_le ua ka ub kb ≡ false) × (pair_le ub kb ua ka ≡ true)) ⊎ ((ua ≡ ub) × (ka ≡ kb)))
unfolding pair_le
pair_le_cases ua ka ub kb = elim (Bool-cases (bytes_le ua ub)) [
  | inr above ↦ inr (inl (ground (arith, above, bytes_le_total ua ub above), ground (arith, above)))
  | inl below ↦ elim (Bool-cases (bytes_le ub ua)) [
    | inr strict ↦ inl (ground (arith, strict), ground (arith, below, strict))
    | inl same ↦ elim (Bool-cases (bytes_le ka kb)) [
      | inr greater ↦ inr (
          inl (
            ground (arith, below, same, greater),
            ground (arith, below, same, bytes_le_total ka kb greater),
          ))
      | inl less ↦ elim (Bool-cases (bytes_le kb ka)) [
        | inr smaller ↦
            inl (ground (arith, below, same, less), ground (arith, below, same, smaller))
        | inl equal ↦
            inr (inr (bytes_le_antisym ua ub below same, bytes_le_antisym ka kb less equal))
      ]
    ]
  ]
]

module _ (sha512 : Bytes → Bytes) (utf8 : String → Bytes) where
  iterated_hash_same :
      (user_a user_b : String) (key_a key_b : Bytes)
      → utf8 user_a ≡ utf8 user_b
      → key_a ≡ key_b
      → iterated_hash sha512 utf8 user_a key_a ≡ iterated_hash sha512 utf8 user_b key_b
  unfolding iterated_hash
  iterated_hash_same user_a user_b key_a key_b = ap₂ (λ (u k : Bytes).
      groups 6 (rehash sha512 utf8 (iterations - 1) k u (sha512 (version ∷ k ++ u))))

  -- The safety number does not depend on which of the two users is given first.
  pub compute_symmetric :
      (user_a : String) (key_a : Bytes) (user_b : String) (key_b : Bytes)
      → compute sha512 utf8 user_a key_a user_b key_b
        ≡ compute sha512 utf8 user_b key_b user_a key_a
  unfolding compute
  compute_symmetric user_a key_a user_b key_b =
      elim (pair_le_cases (utf8 user_a) key_a (utf8 user_b) key_b) [
        | inl (h, k) ↦ rw (h, k) refl
        | inr (inl (h, k)) ↦ rw (h, k) refl
        | inr (inr (u, k)) ↦
            let same = iterated_hash_same user_a user_b key_a key_b u k in ground (arith, same)
      ]
