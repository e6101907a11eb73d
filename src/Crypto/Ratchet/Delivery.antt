-- ===== src/Crypto/Ratchet/Delivery.antt =====
-- ratchet.rs, `decrypt`: what the receiver of one sending chain does with its messages, in any
-- order.
use cmp.Base.{
  ℕ, ◌+◌, ◌-◌, ◌≤◌, ◌<◌, ◌≡◌, refl, ◌≢◌, some, arith, length, inl, inr, dec_le, pair_eq, list_eq,
  nat_eq, option_eq, pair_beq_iff, ==-refl,
}
use cmp.Base.Bytes.{Bytes, u32_max, checked_succ}
use cmp.Base.HashMap.{get, remove, get-remove, length-remove-le}
use cmp.Crypto.Error.{Result, ok}
use cmp.Crypto.Primitives.{Primitives, AesCorrect}
use cmp.Crypto.Aead
use cmp.Crypto.Session.{max_skip, RatchetHeader, SessionState, authenticated_data}
use cmp.Crypto.Ratchet.{decrypt, skip_message_keys, receive}
use cmp.Crypto.Ratchet.Skipping.{IsChain, Tracks, Expects, Skips, skip_message_keys-Skips}

module _ (p : Primitives) (chain keys : ℕ → Bytes) (links : IsChain p chain keys) (pk : Bytes) where
  abbrev Skipping : ℕ → SessionState → Type 0
  Skipping = Skips p chain keys links pk

  -- `header` and `ciphertext` are what the peer sealed with the key of that message.
  pub record Sealed (header : RatchetHeader) (plaintext envelope_aad ciphertext : Bytes)
      : Type 0 where
    pub key : header.ratchet_key ≡ pk
    pub sealed :
        Aead.encrypt p
          (keys header.message_number)
          plaintext
          (authenticated_data envelope_aad header)
        ≡ ok ciphertext

  opens :
      AesCorrect p
      → (header : RatchetHeader) (plaintext envelope_aad ciphertext : Bytes)
      → Sealed header plaintext envelope_aad ciphertext
      → Aead.decrypt p
          (keys header.message_number)
          ciphertext
          (authenticated_data envelope_aad header)
        ≡ ok plaintext
  opens correct header plaintext envelope_aad ciphertext m =
      Aead.decrypt-encrypt p correct (keys header.message_number) plaintext
        (authenticated_data envelope_aad header) ciphertext m.sealed

  receive_lem :
      AesCorrect p
      → (header : RatchetHeader) (plaintext envelope_aad ciphertext : Bytes) (s : SessionState)
      → Sealed header plaintext envelope_aad ciphertext
      → Skipping header.message_number s
      → header.message_number < u32_max
      → receive p header ciphertext envelope_aad s ≡ (
        ok plaintext,
        record (skip_message_keys p s.recv_count header.message_number s).1 {
          receiving_chain_key = some (chain (header.message_number + 1));
          recv_count = header.message_number + 1;
        },
      )
  unfolding receive checked_succ
  receive_lem correct header plaintext envelope_aad ciphertext s m (done, to) small =
      let n = header.message_number in
      ground (
        arith,
        done,
        to.receiving,
        links n,
        opens correct header plaintext envelope_aad ciphertext m,
      )

  -- What the delivery of message `i` does to a session that tracks the chain: the plaintext comes
  -- out, every other message stays expected, and the room taken by the messages before `n`, stored
  -- or to come, does not grow.
  pub record Delivered (i : ℕ) (plaintext : Bytes) (s : SessionState)
      (r : Result Bytes × SessionState) : Type 0 where
    pub result : r.0 ≡ ok plaintext
    pub tracks : Tracks chain pk r.1
    pub keeps : (j : ℕ) → j ≢ i → Expects keys pk s j → Expects keys pk r.1 j
    pub room :
        (n : ℕ)
        → i < n
        → length r.1.skipped + (n - r.1.recv_count) ≤ length s.skipped + (n - s.recv_count)

  -- The session after the delivery of a message that was ahead.
  advanced : RatchetHeader → SessionState → SessionState
  advanced header s = record (skip_message_keys p s.recv_count header.message_number s).1 {
    receiving_chain_key = some (chain (header.message_number + 1));
    recv_count = header.message_number + 1;
  }

  advanced-Delivered :
      (header : RatchetHeader) (plaintext : Bytes) (s : SessionState)
      → Tracks chain pk s
      → s.recv_count ≤ header.message_number
      → Skipping header.message_number s
      → Delivered header.message_number plaintext s (ok plaintext, advanced header s)
  unfolding advanced
  advanced-Delivered header plaintext s tracks le (done, to) =
      let n = header.message_number in
      record {
        result = refl;
        tracks = record {
          their = to.their;
          receiving = refl;
          ahead = λ i h. ground (arith, to.others i, tracks.ahead i);
        };
        keeps = λ j other expected. ground (arith, expected, to.others j, to.between j);
        room = λ m lt. ground (arith, to.size);
      }

  -- A message that is ahead.
  decrypt_ahead :
      AesCorrect p
      → (secret : Bytes) (header : RatchetHeader) (plaintext envelope_aad ciphertext : Bytes)
        (s : SessionState)
      → Tracks chain pk s
      → Sealed header plaintext envelope_aad ciphertext
      → s.recv_count ≤ header.message_number
      → Skipping header.message_number s
      → header.message_number < u32_max
      → decrypt p secret header ciphertext envelope_aad s ≡ (ok plaintext, advanced header s)
  unfolding decrypt advanced
  decrypt_ahead correct secret header plaintext envelope_aad ciphertext s tracks m le skips small =
      ground (
        arith,
        m.key,
        tracks.ahead header.message_number le,
        tracks.their,
        ==-refl pk,
        receive_lem correct header plaintext envelope_aad ciphertext s m skips small,
      )

  decrypt_stored :
      AesCorrect p
      → (secret : Bytes) (header : RatchetHeader) (plaintext envelope_aad ciphertext : Bytes)
        (s : SessionState)
      → Sealed header plaintext envelope_aad ciphertext
      → get (pk, header.message_number) s.skipped ≡ some (keys header.message_number)
      → decrypt p secret header ciphertext envelope_aad s
        ≡ (ok plaintext, record s { skipped = remove (pk, header.message_number) s.skipped })
  unfolding decrypt
  decrypt_stored correct secret header plaintext envelope_aad ciphertext s m stored =
      ground (arith, m.key, stored, opens correct header plaintext envelope_aad ciphertext m)

  removed-Delivered :
      (i : ℕ) (plaintext : Bytes) (s : SessionState)
      → Tracks chain pk s
      → i < s.recv_count
      → Delivered i plaintext s (ok plaintext, record s { skipped = remove (pk, i) s.skipped })
  removed-Delivered i plaintext s tracks behind = record {
    result = refl;
    tracks = record {
      their = tracks.their;
      receiving = tracks.receiving;
      ahead = λ j h. ground (arith, tracks.ahead j h, get-remove (pk, i) (pk, j) s.skipped);
    };
    keeps = λ j other expected. ground (
      arith,
      expected,
      other,
      get-remove (pk, i) (pk, j) s.skipped,
      pair_beq_iff (pk, i) (pk, j),
    );
    room = λ n lt. ground (arith, length-remove-le (pk, i) s.skipped);
  }

  stored_behind :
      (i : ℕ) (s : SessionState)
      → Tracks chain pk s
      → get (pk, i) s.skipped ≡ some (keys i)
      → i < s.recv_count
  stored_behind i s tracks stored = elim (dec_le s.recv_count i) [
    | yes le ↦ cc (tracks.ahead i le)
    | no gt ↦ omega arith
  ]

  -- A message that is expected, ahead or with a stored key, is decrypted to its plaintext, every
  -- other expected message stays expected, and the room that the messages need does not grow.
  pub decrypt-Delivered :
      AesCorrect p
      → (secret : Bytes) (header : RatchetHeader) (plaintext envelope_aad ciphertext : Bytes)
        (s : SessionState) (n : ℕ)
      → Tracks chain pk s
      → Sealed header plaintext envelope_aad ciphertext
      → Expects keys pk s header.message_number
      → header.message_number < n
      → n ≤ u32_max
      → length s.skipped + (n - s.recv_count) ≤ max_skip
      → Delivered header.message_number plaintext s
          (decrypt p secret header ciphertext envelope_aad s)
  decrypt-Delivered correct secret header plaintext envelope_aad ciphertext s n tracks m (inl le) lt
        small room =
      let skips =
        skip_message_keys-Skips p chain keys links pk header.message_number s tracks le
          (omega arith) in
      rw
        (decrypt_ahead correct secret header plaintext envelope_aad ciphertext s tracks m le skips
          (omega arith))
        (advanced-Delivered header plaintext s tracks le skips)
  decrypt-Delivered correct secret header plaintext envelope_aad ciphertext s n tracks m
        (inr stored) lt small room =
      rw (decrypt_stored correct secret header plaintext envelope_aad ciphertext s m stored) (
        removed-Delivered header.message_number plaintext s tracks
          (stored_behind header.message_number s tracks stored))
