-- ===== src/Crypto/Ratchet/Erasure.antt =====
-- ratchet.rs, `decrypt`: a message key serves one message.
use cmp.Base.{
  ℕ, zero, suc, ◌+◌, ◌-◌, ◌≤◌, ◌<◌, ◌≡◌, refl, ◌≢◌, ap, sym, ◌∙◌, Option, none, some, arith,
  Option-cases, inl, inr, ◌⊎◌, pair_eq, list_eq, nat_eq, option_eq, option_beq_iff, pair_beq_iff,
}
use cmp.Base.Bytes.{Bytes, checked_succ}
use cmp.Base.HashMap.{get, get-insert, get-remove_self}
use cmp.Crypto.Error.{ok, Result-cases}
use cmp.Crypto.Primitives.{Primitives}
use cmp.Crypto.Kdf.{ChainKeyOutput, kdf_ck}
use cmp.Crypto.Aead
use cmp.Crypto.Session.{RatchetHeader, SessionState, authenticated_data}
use cmp.Crypto.Ratchet.{
  decrypt, decrypt_skipped, try_decrypt_inner, skip_loop, skip_with, skip_message_keys, dh_step,
  receive, ratchet_if_needed,
}
use cmp.Crypto.Ratchet.Bounds.{stored}

module _ (p : Primitives) where
  -- The loop stores keys of one chain, with numbers from `i` up to `i + rounds`.
  pub get-skip_loop_other :
      (rounds i : ℕ) (their_key chain_key : Bytes) (s : SessionState) (key : Bytes × ℕ)
      → (key.0 ≢ their_key) ⊎ (key.1 < i) ⊎ (i + rounds ≤ key.1)
      → get key (skip_loop p rounds i their_key chain_key s).1.skipped ≡ get key s.skipped
  unfolding skip_loop
  get-skip_loop_other zero i tk ck s key h = refl
  get-skip_loop_other (suc n) i tk ck s (k, j) h = elim (Result-cases (kdf_ck p ck)) [
    | inl (c, e) ↦ ground (
      arith,
      e,
      get-skip_loop_other n (i + 1) tk c.chain_key (stored tk i c s) (k, j),
      get-insert (tk, i) (k, j) c.message_key s.skipped,
      pair_beq_iff (tk, i) (k, j),
    )
    | inr (x, e) ↦ ground (arith, e)
  ]

  get-skip_with_other :
      (their_key chain_key : Option Bytes) (current until : ℕ) (s : SessionState) (key : Bytes × ℕ)
      → (their_key ≢ some key.0) ⊎ (until ≤ key.1)
      → current ≤ until
      → get key (skip_with p their_key chain_key current until s).1.skipped ≡ get key s.skipped
  unfolding skip_with
  get-skip_with_other (some tk) (some ck) current until s key (inl other) le =
      let same =
        get-skip_loop_other (until - current) current tk ck s key
          (inl (λ e. other (ap some (sym e)))) in
      ground (arith, same)
  get-skip_with_other (some tk) (some ck) current until s key (inr above) le =
      ground
        (arith, get-skip_loop_other (until - current) current tk ck s key (inr (inr (omega arith))))
  get-skip_with_other none _ current until s key h le = refl
  get-skip_with_other (some tk) none current until s key h le = refl

  get-skip_message_keys_other :
      (current until : ℕ) (s : SessionState) (key : Bytes × ℕ)
      → (s.their_ratchet_key ≢ some key.0) ⊎ (until ≤ key.1)
      → get key (skip_message_keys p current until s).1.skipped ≡ get key s.skipped
  unfolding skip_message_keys
  get-skip_message_keys_other current until s key h =
      ground
        (arith, get-skip_with_other s.their_ratchet_key s.receiving_chain_key current until s key h)

  get-dh_step :
      (header : RatchetHeader) (secret : Bytes) (s : SessionState) (n : ℕ)
      → s.their_ratchet_key ≢ some header.ratchet_key
      → get (header.ratchet_key, n) (dh_step p header secret s).1.skipped
        ≡ get (header.ratchet_key, n) s.skipped
  unfolding dh_step
  get-dh_step header secret s n new = ground (
    arith,
    get-skip_message_keys_other s.recv_count header.previous_chain_length s (header.ratchet_key, n)
        (inl new),
  )

  get-ratchet_if_needed :
      (header : RatchetHeader) (secret : Bytes) (s : SessionState) (n : ℕ)
      → get (header.ratchet_key, n) (ratchet_if_needed p header secret s).1.skipped
        ≡ get (header.ratchet_key, n) s.skipped
  unfolding ratchet_if_needed
  get-ratchet_if_needed header secret s n = ground (
    arith,
    get-dh_step header secret s n,
    option_beq_iff s.their_ratchet_key (some header.ratchet_key),
  )

  get-receive :
      (header : RatchetHeader) (ciphertext envelope_aad : Bytes) (s : SessionState)
      → let key : Bytes × ℕ = (header.ratchet_key, header.message_number) in
        get key (receive p header ciphertext envelope_aad s).1.skipped ≡ get key s.skipped
  unfolding receive
  get-receive header ciphertext envelope_aad s = ground (
    arith,
    get-skip_message_keys_other s.recv_count header.message_number s
        (header.ratchet_key, header.message_number) (inr (omega arith)),
  )

  get-try_decrypt_inner :
      (secret : Bytes) (header : RatchetHeader) (ciphertext envelope_aad : Bytes) (s : SessionState)
      → let key : Bytes × ℕ = (header.ratchet_key, header.message_number) in
        get key (try_decrypt_inner p secret header ciphertext envelope_aad s).1.skipped
        ≡ get key s.skipped
  unfolding try_decrypt_inner
  get-try_decrypt_inner secret header ciphertext envelope_aad s = ground (
    arith,
    get-ratchet_if_needed header secret s header.message_number,
    get-receive header ciphertext envelope_aad (ratchet_if_needed p header secret s).1,
  )

  -- A message that was opened with the key that the chain key `before` yields: the chain key that is
  -- left is the next one, and the counter is past the message.
  pub record Advanced (header : RatchetHeader) (ciphertext envelope_aad plaintext : Bytes)
      (after : SessionState) : Type 0 where
    pub before : Bytes
    pub out : ChainKeyOutput
    pub derived : kdf_ck p before ≡ ok out
    pub opened :
        Aead.decrypt p out.message_key ciphertext (authenticated_data envelope_aad header)
        ≡ ok plaintext
    pub left : after.receiving_chain_key ≡ some out.chain_key
    pub counted : after.recv_count ≡ header.message_number + 1

  -- The chain key and the keys that it yields, where `receive` succeeds.
  receive_key :
      (header : RatchetHeader) (ciphertext envelope_aad : Bytes) (s : SessionState)
      (plaintext : Bytes)
      → (receive p header ciphertext envelope_aad s).0 ≡ ok plaintext
      → let skipped = (skip_message_keys p s.recv_count header.message_number s).1 in
        (before : Bytes) × (skipped.receiving_chain_key ≡ some before)
        × ((out : ChainKeyOutput) × (kdf_ck p before ≡ ok out))
  unfolding receive
  receive_key header ciphertext envelope_aad s plaintext done =
      let skipped = (skip_message_keys p s.recv_count header.message_number s).1 in
      elim (Option-cases skipped.receiving_chain_key) [
        | inl absent ↦ absurd (ground (arith, absent, done))
        | inr (before, holds) ↦ elim (Result-cases (kdf_ck p before)) [
          | inl (out, e) ↦ (before, holds, (out, e))
          | inr (why, e) ↦ absurd (ground (arith, holds, e, done))
        ]
      ]

  receive_commits :
      (header : RatchetHeader) (ciphertext envelope_aad : Bytes) (s : SessionState)
      (plaintext : Bytes)
      → (receive p header ciphertext envelope_aad s).0 ≡ ok plaintext
      → Advanced header ciphertext envelope_aad plaintext
          (receive p header ciphertext envelope_aad s).1
  unfolding receive checked_succ
  receive_commits header ciphertext envelope_aad s plaintext done =
      let (before, holds, (out, e)) = receive_key header ciphertext envelope_aad s plaintext done in
      record {
        before = before;
        out = out;
        derived = e;
        opened = ground (arith, holds, e, done);
        left = ground (arith, holds, e, done);
        counted = ground (arith, holds, e, done);
      }

  try_decrypt_inner_commits :
      (secret : Bytes) (header : RatchetHeader) (ciphertext envelope_aad : Bytes) (s : SessionState)
      (plaintext : Bytes)
      → (try_decrypt_inner p secret header ciphertext envelope_aad s).0 ≡ ok plaintext
      → Advanced header ciphertext envelope_aad plaintext
          (try_decrypt_inner p secret header ciphertext envelope_aad s).1
  unfolding try_decrypt_inner
  try_decrypt_inner_commits secret header ciphertext envelope_aad s plaintext done =
      elim (Result-cases (ratchet_if_needed p header secret s).0) [
        | inl (u, e) ↦ rw e (
            receive_commits header ciphertext envelope_aad (ratchet_if_needed p header secret s).1
              plaintext (ground (arith, e, done)))
        | inr (why, e) ↦ absurd (ground (arith, e, done))
      ]

  -- What a success leaves behind for the message `header`: no stored key, and if the key was not
  -- stored before, a chain key after the one that yielded the message key.
  abbrev pub Erased : RatchetHeader → Bytes → Bytes → Bytes → SessionState → SessionState → Type 0
  Erased header ciphertext envelope_aad plaintext before after =
      let key : Bytes × ℕ = (header.ratchet_key, header.message_number) in
      (get key after.skipped ≡ none)
      × ((get key before.skipped ≢ none) ⊎ Advanced header ciphertext envelope_aad plaintext after)

  decrypt_skipped-Erased :
      (message_key : Bytes) (header : RatchetHeader) (ciphertext envelope_aad : Bytes)
      (s : SessionState) (plaintext : Bytes)
      → get (header.ratchet_key, header.message_number) s.skipped ≡ some message_key
      → (decrypt_skipped p message_key header ciphertext envelope_aad s).0 ≡ ok plaintext
      → get
          (header.ratchet_key, header.message_number)
          (decrypt_skipped p message_key header ciphertext envelope_aad s).1.skipped
        ≡ none
  unfolding decrypt_skipped
  decrypt_skipped-Erased mk header ciphertext envelope_aad s plaintext found done =
      ground (arith, get-remove_self (header.ratchet_key, header.message_number) s.skipped)

  decrypt_unstored :
      (secret : Bytes) (header : RatchetHeader) (ciphertext envelope_aad : Bytes) (s : SessionState)
      (plaintext : Bytes)
      → get (header.ratchet_key, header.message_number) s.skipped ≡ none
      → (decrypt p secret header ciphertext envelope_aad s).0 ≡ ok plaintext
      → decrypt p secret header ciphertext envelope_aad s
        ≡ try_decrypt_inner p secret header ciphertext envelope_aad s
  unfolding decrypt
  decrypt_unstored secret header ciphertext envelope_aad s plaintext absent done =
      ground (arith, absent, done)

  erased_stored :
      (secret message_key : Bytes) (header : RatchetHeader) (ciphertext envelope_aad : Bytes)
      (s : SessionState) (plaintext : Bytes)
      → get (header.ratchet_key, header.message_number) s.skipped ≡ some message_key
      → (decrypt p secret header ciphertext envelope_aad s).0 ≡ ok plaintext
      → get
          (header.ratchet_key, header.message_number)
          (decrypt p secret header ciphertext envelope_aad s).1.skipped
        ≡ none
  unfolding decrypt
  erased_stored secret mk header ciphertext envelope_aad s plaintext found done = ground (
    arith,
    found,
    done,
    decrypt_skipped-Erased mk header ciphertext envelope_aad s plaintext found,
  )

  -- After a successful decryption the session stores no key for that message any more. If the key was
  -- not a stored one, it was yielded by a chain key which the session has replaced by the next one
  -- of the chain, and the counter of the chain is past the message.
  pub decrypt-Erased :
      (secret : Bytes) (header : RatchetHeader) (ciphertext envelope_aad : Bytes) (s : SessionState)
      (plaintext : Bytes)
      → (decrypt p secret header ciphertext envelope_aad s).0 ≡ ok plaintext
      → Erased header ciphertext envelope_aad plaintext s
          (decrypt p secret header ciphertext envelope_aad s).1
  decrypt-Erased secret header ciphertext envelope_aad s plaintext done =
      elim (Option-cases (get (header.ratchet_key, header.message_number) s.skipped)) [
        | inl absent ↦
            let same =
              decrypt_unstored secret header ciphertext envelope_aad s plaintext absent done in
            rw same (
              get-try_decrypt_inner secret header ciphertext envelope_aad s ∙ absent,
              inr (
                  try_decrypt_inner_commits secret header ciphertext envelope_aad s plaintext
                    (ap (λ r. r.0) (sym same) ∙ done)),
            )
        | inr (mk, found) ↦ (
          erased_stored secret mk header ciphertext envelope_aad s plaintext found done,
          inl (λ h. absurd (ground (arith, h, found))),
        )
      ]
