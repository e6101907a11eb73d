-- ===== src/Crypto/Ratchet/Bounds.antt =====
-- ratchet.rs: the store of skipped message keys stays within `MAX_SKIP`, and the counters within
-- `u32`, whatever headers arrive.
use cmp.Base.{
  ℕ, zero, suc, ◌+◌, ◌-◌, ◌≤◌, ◌≡◌, refl, Option, none, some, arith, length, Option-cases, inl, inr,
  pair_eq, list_eq, nat_eq,
}
use cmp.Base.Bytes.{Bytes, u32_max, checked_succ}
use cmp.Base.HashMap.{
  IsMap, get, remove, insert, insert-IsMap, remove-IsMap, length-insert-le, length-remove-le,
  length-insert-remove,
}
use cmp.Crypto.Error.{Result-cases}
use cmp.Crypto.Primitives.{Primitives}
use cmp.Crypto.Kdf.{ChainKeyOutput, kdf_ck}
use cmp.Crypto.Session.{max_skip, RatchetHeader, SessionState}
use cmp.Crypto.Ratchet.{
  encrypt, decrypt, skip_loop, skip_with, skip_message_keys, dh_step, receive, try_decrypt_inner,
  decrypt_skipped,
}

-- Distinct keys, at most `max_skip` of them, and counters of type `u32`.
pub record IsValid (s : SessionState) : Type 0 where
  pub distinct : IsMap s.skipped
  pub bounded : length s.skipped ≤ max_skip
  pub sent : s.send_count ≤ u32_max
  pub received : s.recv_count ≤ u32_max
  pub previous : s.previous_send_count ≤ u32_max

-- The session after one round of the loop.
abbrev pub stored : Bytes → ℕ → ChainKeyOutput → SessionState → SessionState
stored tk i c s = record s { skipped = insert (tk, i) c.message_key s.skipped }

module _ (p : Primitives) where
  -- The loop writes to the skipped keys only.
  pub skip_loop_frame :
      (rounds i : ℕ) (their_key chain_key : Bytes) (s : SessionState)
      → (skip_loop p rounds i their_key chain_key s).1
        ≡ record s { skipped = (skip_loop p rounds i their_key chain_key s).1.skipped }
  unfolding skip_loop
  skip_loop_frame zero i tk ck s = refl
  skip_loop_frame (suc n) i tk ck s = elim (Result-cases (kdf_ck p ck)) [
    | inl (c, e) ↦ ground (arith, e, skip_loop_frame n (i + 1) tk c.chain_key (stored tk i c s))
    | inr (x, e) ↦ ground (arith, e)
  ]

  skip_loop-IsMap :
      (rounds i : ℕ) (their_key chain_key : Bytes) (s : SessionState)
      → IsMap s.skipped
      → IsMap (skip_loop p rounds i their_key chain_key s).1.skipped
  unfolding skip_loop
  skip_loop-IsMap zero i tk ck s h = h
  skip_loop-IsMap (suc n) i tk ck s h = elim (Result-cases (kdf_ck p ck)) [
    | inl (c, e) ↦ ground (
      arith,
      e,
      skip_loop-IsMap n (i + 1) tk c.chain_key (stored tk i c s),
      insert-IsMap (tk, i) c.message_key s.skipped h,
    )
    | inr (x, e) ↦ ground (arith, e)
  ]

  pub length-skip_loop-le :
      (rounds i : ℕ) (their_key chain_key : Bytes) (s : SessionState)
      → length (skip_loop p rounds i their_key chain_key s).1.skipped ≤ length s.skipped + rounds
  unfolding skip_loop
  length-skip_loop-le zero i tk ck s = omega arith
  length-skip_loop-le (suc n) i tk ck s = elim (Result-cases (kdf_ck p ck)) [
    | inl (c, e) ↦ ground (
      arith,
      e,
      length-skip_loop-le n (i + 1) tk c.chain_key (stored tk i c s),
      length-insert-le (tk, i) c.message_key s.skipped,
    )
    | inr (x, e) ↦ ground (arith, e)
  ]

  skip_with-IsValid :
      (their_key chain_key : Option Bytes) (current until : ℕ) (s : SessionState)
      → IsValid s
      → until - current + length s.skipped ≤ max_skip
      → IsValid (skip_with p their_key chain_key current until s).1
  unfolding skip_with
  skip_with-IsValid (some tk) (some ck) current until s v room = ground (
    arith,
    skip_loop_frame (until - current) current tk ck s,
    skip_loop-IsMap (until - current) current tk ck s v.distinct,
    length-skip_loop-le (until - current) current tk ck s,
  )
  skip_with-IsValid none _ current until s v room = v
  skip_with-IsValid (some tk) none current until s v room = v

  skip_message_keys-IsValid :
      (current until : ℕ) (s : SessionState)
      → IsValid s
      → IsValid (skip_message_keys p current until s).1
  unfolding skip_message_keys
  skip_message_keys-IsValid current until s v =
      ground (arith, skip_with-IsValid s.their_ratchet_key s.receiving_chain_key current until s v)

  dh_step-IsValid :
      (header : RatchetHeader) (secret : Bytes) (s : SessionState)
      → IsValid s
      → IsValid (dh_step p header secret s).1
  unfolding dh_step
  dh_step-IsValid header secret s v =
      ground (arith, skip_message_keys-IsValid s.recv_count header.previous_chain_length s v)

  receive-IsValid :
      (header : RatchetHeader) (ciphertext envelope_aad : Bytes) (s : SessionState)
      → IsValid s
      → IsValid (receive p header ciphertext envelope_aad s).1
  unfolding receive checked_succ
  receive-IsValid header ciphertext envelope_aad s v =
      ground (arith, skip_message_keys-IsValid s.recv_count header.message_number s v)

  try_decrypt_inner-IsValid :
      (secret : Bytes) (header : RatchetHeader) (ciphertext envelope_aad : Bytes) (s : SessionState)
      → IsValid s
      → IsValid (try_decrypt_inner p secret header ciphertext envelope_aad s).1
  unfolding try_decrypt_inner
  try_decrypt_inner-IsValid secret header ciphertext envelope_aad s v = ground (
    arith,
    dh_step-IsValid header secret s v,
    receive-IsValid header ciphertext envelope_aad s v,
    receive-IsValid header ciphertext envelope_aad (dh_step p header secret s).1,
  )

  decrypt_skipped-IsValid :
      (message_key : Bytes) (header : RatchetHeader) (ciphertext envelope_aad : Bytes)
      (s : SessionState)
      → get (header.ratchet_key, header.message_number) s.skipped ≡ some message_key
      → IsValid s
      → IsValid (decrypt_skipped p message_key header ciphertext envelope_aad s).1
  unfolding decrypt_skipped
  decrypt_skipped-IsValid mk header ciphertext envelope_aad s found v =
      let key : Bytes × ℕ = (header.ratchet_key, header.message_number) in
      ground (
        arith,
        remove-IsMap key s.skipped v.distinct,
        insert-IsMap key mk (remove key s.skipped) (remove-IsMap key s.skipped v.distinct),
        length-remove-le key s.skipped,
        length-insert-remove key mk s.skipped v.distinct found,
      )

  pub decrypt-IsValid :
      (secret : Bytes) (header : RatchetHeader) (ciphertext envelope_aad : Bytes) (s : SessionState)
      → IsValid s
      → IsValid (decrypt p secret header ciphertext envelope_aad s).1
  decrypt-IsValid secret header ciphertext envelope_aad s v =
      elim (Option-cases (get (header.ratchet_key, header.message_number) s.skipped)) [
        | inl absent ↦
            unfold decrypt in
            rw (absent, decrypt)
              (ground
                (arith, v, try_decrypt_inner-IsValid secret header ciphertext envelope_aad s v))
        | inr (mk, found) ↦
            unfold decrypt in
            rw (found, decrypt)
              (decrypt_skipped-IsValid mk header ciphertext envelope_aad s found v)
      ]

  pub encrypt-IsValid :
      (plaintext envelope_aad : Bytes) (s : SessionState)
      → IsValid s
      → IsValid (encrypt p plaintext envelope_aad s).1
  unfolding encrypt checked_succ
  encrypt-IsValid plaintext envelope_aad s v = ground arith
