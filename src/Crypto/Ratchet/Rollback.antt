-- ===== src/Crypto/Ratchet/Rollback.antt =====
-- ratchet.rs, `decrypt`: a message that is refused leaves no trace in the session.
use cmp.Base.{ℕ, ◌≡◌, refl, some, length, Option-cases, inl, inr, pair_eq, list_eq, nat_eq}
use cmp.Base.Bytes.{Bytes}
use cmp.Base.HashMap.{get, length-insert-remove, get-insert-remove}
use cmp.Crypto.Error.{CryptoError, Result, ok, err, Result-cases}
use cmp.Crypto.Primitives.{Primitives}
use cmp.Crypto.Aead
use cmp.Crypto.Session.{RatchetHeader, SkippedKeysMap, SessionState, authenticated_data, roll_back}
use cmp.Crypto.Ratchet.{decrypt, decrypt_skipped, try_decrypt_inner}
use cmp.Crypto.Ratchet.Bounds.{IsValid}

-- Two sessions are the same up to the order in which the map holds its entries.
pub record SameSession (s t : SessionState) : Type 0 where
  pub root_key : s.root_key ≡ t.root_key
  pub our_ratchet : s.our_ratchet ≡ t.our_ratchet
  pub their_ratchet_key : s.their_ratchet_key ≡ t.their_ratchet_key
  pub sending_chain_key : s.sending_chain_key ≡ t.sending_chain_key
  pub receiving_chain_key : s.receiving_chain_key ≡ t.receiving_chain_key
  pub send_count : s.send_count ≡ t.send_count
  pub recv_count : s.recv_count ≡ t.recv_count
  pub previous_send_count : s.previous_send_count ≡ t.previous_send_count
  pub entries : (key : Bytes × ℕ) → get key s.skipped ≡ get key t.skipped
  pub size : length s.skipped ≡ length t.skipped

-- A session that differs in its map only.
SameSession-skipped :
    (s : SessionState) (m : SkippedKeysMap)
    → ((key : Bytes × ℕ) → get key m ≡ get key s.skipped)
    → length m ≡ length s.skipped
    → SameSession (record s { skipped = m }) s
SameSession-skipped s m entries size = record {
  root_key = refl;
  our_ratchet = refl;
  their_ratchet_key = refl;
  sending_chain_key = refl;
  receiving_chain_key = refl;
  send_count = refl;
  recv_count = refl;
  previous_send_count = refl;
  entries = entries;
  size = size;
}

SameSession-refl : (s : SessionState) → SameSession s s
SameSession-refl s = SameSession-skipped s s.skipped (λ key. refl) refl

SameSession-roll_back :
    {A : Type 0} (s : SessionState) (r : Result A × SessionState) (e : CryptoError)
    → (roll_back s r).0 ≡ err e
    → SameSession (roll_back s r).1 s
SameSession-roll_back s (ok a, t) e failed = cc
SameSession-roll_back s (err x, t) e failed = SameSession-refl s

module _ (p : Primitives) where
  decrypt_skipped-SameSession :
      (message_key : Bytes) (header : RatchetHeader) (ciphertext envelope_aad : Bytes)
      (s : SessionState) (e : CryptoError)
      → get (header.ratchet_key, header.message_number) s.skipped ≡ some message_key
      → IsValid s
      → (decrypt_skipped p message_key header ciphertext envelope_aad s).0 ≡ err e
      → SameSession (decrypt_skipped p message_key header ciphertext envelope_aad s).1 s
  unfolding decrypt_skipped
  decrypt_skipped-SameSession mk header ciphertext envelope_aad s e found v failed =
      elim (Result-cases (Aead.decrypt p mk ciphertext (authenticated_data envelope_aad header))) [
        | inl (x, opened) ↦ cc (rw (opened, decrypt_skipped) at failed)
        | inr (x, refused) ↦
            let key : Bytes × ℕ = (header.ratchet_key, header.message_number) in
            rw (refused, decrypt_skipped)
              (SameSession-skipped s _ (λ j. get-insert-remove key j mk s.skipped found)
                (length-insert-remove key mk s.skipped v.distinct found))
      ]

  -- Whatever the header and the ciphertext, a decryption that fails leaves the session as it was:
  -- every field, every stored message key, and their number.
  pub decrypt-SameSession :
      (secret : Bytes) (header : RatchetHeader) (ciphertext envelope_aad : Bytes) (s : SessionState)
      (e : CryptoError)
      → IsValid s
      → (decrypt p secret header ciphertext envelope_aad s).0 ≡ err e
      → SameSession (decrypt p secret header ciphertext envelope_aad s).1 s
  unfolding decrypt
  decrypt-SameSession secret header ciphertext envelope_aad s e v failed =
      elim (Option-cases (get (header.ratchet_key, header.message_number) s.skipped)) [
        | inl absent ↦
            rw (absent, decrypt)
              (SameSession-roll_back s (try_decrypt_inner p secret header ciphertext envelope_aad s)
                e (rw (absent, decrypt) at failed))
        | inr (mk, found) ↦
            rw (found, decrypt)
              (decrypt_skipped-SameSession mk header ciphertext envelope_aad s e found v
                (rw (found, decrypt) at failed))
      ]
