-- ===== src/Crypto/Ratchet/Conversation.antt =====
-- ratchet.rs: one sending chain from `encrypt` to `decrypt`, over any number of messages that the
-- network may reorder.
use cmp.Base.{ℕ, ◌+◌, ◌-◌, ◌≤◌, ◌<◌, ◌≡◌, refl, ◌≢◌, ap₂, some, arith, length, List, [], ◌∷◌, map}
use cmp.Base.Bytes.{Bytes, u32_max, checked_succ}
use cmp.Base.Rows.{All}
use cmp.Crypto.Error.{Result, ok}
use cmp.Crypto.Primitives.{Primitives, AesCorrect}
use cmp.Crypto.Session.{max_skip, RatchetHeader, RatchetMessage, SessionState}
use cmp.Crypto.Ratchet.{encrypt, decrypt}
use cmp.Crypto.Ratchet.Skipping.{IsChain, Tracks, Expects}
use cmp.Crypto.Ratchet.Delivery.{Sealed, decrypt-Delivered}

-- A message on the wire, with the plaintext that it stands for and the receiver's random draw.
pub record Packet : Type 0 where
  pub secret : Bytes
  pub header : RatchetHeader
  pub ciphertext : Bytes
  pub envelope_aad : Bytes
  pub plaintext : Bytes

-- `decrypt` on each packet in turn: the results, and the session at the end.
unfoldable pub decrypt_all :
    Primitives → List Packet → SessionState → List (Result Bytes) × SessionState
decrypt_all p [] s = ([], s)
decrypt_all p (m ∷ ms) s =
    let r = decrypt p m.secret m.header m.ciphertext m.envelope_aad s in
    let rest = decrypt_all p ms r.1 in (r.0 ∷ rest.0, rest.1)

-- No two packets have one message number.
abbrev pub Distinct : List Packet → Type 0
Distinct [] = Unit
Distinct (m ∷ ms) =
    All (λ (q : Packet). q.header.message_number ≢ m.header.message_number) ms × Distinct ms

module _ (p : Primitives) (chain keys : ℕ → Bytes) (links : IsChain p chain keys) (pk : Bytes) where
  -- A packet of the chain, among its first `n` messages, that the session has not received yet.
  abbrev pub Due : ℕ → SessionState → Packet → Type 0
  Due n s m =
      Sealed p chain keys links pk m.header m.plaintext m.envelope_aad m.ciphertext
      × (m.header.message_number < n)
      × Expects keys pk s m.header.message_number

  Due-after :
      (n i : ℕ) (s t : SessionState) (ms : List Packet)
      → ((j : ℕ) → j ≢ i → Expects keys pk s j → Expects keys pk t j)
      → All (λ (q : Packet). q.header.message_number ≢ i) ms
      → All (Due n s) ms
      → All (Due n t) ms
  Due-after n i s t [] keeps other due = tt
  Due-after n i s t (m ∷ ms) keeps other due = (
    (due.0.0, due.0.1, keeps m.header.message_number other.0 due.0.2),
    Due-after n i s t ms keeps other.1 due.1,
  )

  -- Messages that are sealed on one chain, that the session has not received, and that arrive once
  -- each, in any order and with any of them missing, all decrypt to their plaintexts, if the session
  -- is on that chain, the stored keys and the messages to come fit `MAX_SKIP`, the numbers fit u32,
  -- and AES-GCM decrypts what it encrypted.
  pub decrypt_all_lem :
      AesCorrect p
      → (n : ℕ) (ms : List Packet) (s : SessionState) → Tracks chain pk s
      → All (Due n s) ms
      → Distinct ms
      → n ≤ u32_max
      → length s.skipped + (n - s.recv_count) ≤ max_skip
      → (decrypt_all p ms s).0 ≡ map (λ (m : Packet). ok m.plaintext) ms
  unfolding decrypt_all
  decrypt_all_lem correct n [] s tracks due distinct small room = refl
  decrypt_all_lem correct n (m ∷ ms) s tracks due distinct small room =
      let d =
        decrypt-Delivered p chain keys links pk correct m.secret m.header m.plaintext m.envelope_aad
          m.ciphertext s n tracks due.0.0 due.0.2 due.0.1 small room in
      let t = (decrypt p m.secret m.header m.ciphertext m.envelope_aad s).1 in
      let rest =
        decrypt_all_lem correct n ms t d.tracks
          (Due-after n m.header.message_number s t ms d.keeps distinct.0 due.1) distinct.1 small
          (omega (arith, d.room n due.0.1)) in
      ap₂ ◌∷◌ d.result rest

  -- The session sends on the chain: its ratchet key is `pk`, and its chain key is the one that
  -- belongs to its counter.
  pub record Sends (s : SessionState) : Type 0 where
    pub public : s.our_ratchet.public_bytes ≡ pk
    pub sending : s.sending_chain_key ≡ some (chain s.send_count)

  -- An encryption that succeeds, by a session that sends on the chain, seals the plaintext with the
  -- message key of its counter, numbers the message with it, counts one up and stays on the chain.
  pub encrypt-Sealed :
      (s t : SessionState) (plaintext envelope_aad : Bytes) (m : RatchetMessage)
      → Sends s
      → encrypt p plaintext envelope_aad s ≡ (ok m, t)
      → Sealed p chain keys links pk m.header plaintext envelope_aad m.ciphertext
        × (m.header.message_number ≡ s.send_count)
        × (t.send_count ≡ s.send_count + 1)
        × Sends t
  unfolding encrypt checked_succ
  encrypt-Sealed s t plaintext envelope_aad m sends done =
      ground (arith, sends.public, sends.sending, links s.send_count)
