-- ===== src/Client/Manager/Limits.antt =====
-- crypto_mgr.rs: the size of what is encrypted for the outbox.
use cmp.Base.{
  ◌+◌, ◌*◌, ◌/◌, ◌≤◌, String, Bool, true, false, List, [], ◌∷◌, ◌++◌, Option, none, some, ◌≡◌, ◌⊎◌,
  arith, refl, subst, sym, ◌∙◌, Option-cases, inl, inr, length, string_eq, list_eq,
}
use cmp.Base.Bytes.{Bytes, checked_succ}
use cmp.Base.HashMap.{get}
use cmp.Crypto.Primitives.{Primitives}
use cmp.Crypto.Keys.{verifying_key}
use cmp.Crypto.Session.{SessionState, RatchetMessage, RatchetHeader, authenticated_data}
use cmp.Crypto.Error
use cmp.Crypto.Ratchet.{encrypt}
use cmp.Protocol.Types.{MessageId, EncryptedEnvelope}
use cmp.Client.Outbox.{
  Result, ok, err, PendingOutbound, ciphertext_len, text_length, sealed_len, ensure_capacity,
}
use cmp.Client.Manager.{Manager, PeerSession, push_pending}
use cmp.Client.Manager.Encryption.{
  restore_entry, after_encrypt, advance_encryption, envelope_aad, settle, enqueue_envelope,
  encrypt_within,
}
use cmp.Crypto.Aead
use cmp.Crypto.Kdf.{kdf_ck}
use cmp.Client.Manager.Capacity.{Within, push-Within}

-- AES-GCM adds a tag of 16 bytes, and base64 makes 4 characters of 3 bytes.
abbrev pub TagLength : Primitives → Type 0
TagLength p = (k n m aad c : Bytes) → p.aes_encrypt k n m aad ≡ some c → length c ≡ length m + 16

abbrev pub Base64Length : (Bytes → String) → Type 0
Base64Length b64 = (x : Bytes) → text_length (b64 x) ≡ (length x + 2) / 3 * 4

Aead-length :
    (p : Primitives) (key m aad c : Bytes)
    → TagLength p
    → Aead.encrypt p key m aad ≡ Error.ok c
    → length c ≡ length m + 16
unfolding Aead.encrypt
Aead-length p key m aad c tag h = grind (arith, tag)

ok_cases :
    {A : Type 0} (r : Error.Result A)
    → ((a : A) × (r ≡ Error.ok a)) ⊎ ((e : Error.CryptoError) × (r ≡ Error.err e))
ok_cases (Error.ok a) = inl (a, refl)
ok_cases (Error.err e) = inr (e, refl)

length-encrypt :
    (p : Primitives) (plaintext aad : Bytes) (s : SessionState) (r : RatchetMessage)
    → TagLength p
    → (encrypt p plaintext aad s).0 ≡ Error.ok r
    → length r.ciphertext ≡ length plaintext + 16
unfolding encrypt
length-encrypt p plaintext aad s r tag h = elim (Option-cases (checked_succ s.send_count)) [
  | inl top ↦ absurd (ground (arith, top, h))
  | inr (n, counted) ↦ elim (Option-cases s.sending_chain_key) [
    | inl absent ↦ absurd (ground (arith, counted, absent, h))
    | inr (chain, present) ↦ elim (ok_cases (kdf_ck p chain)) [
      | inr (why, failed) ↦ absurd (ground (arith, counted, present, failed, h))
      | inl (out, derived) ↦
          let header : RatchetHeader = record {
            ratchet_key = s.our_ratchet.public_bytes;
            previous_chain_length = s.previous_send_count;
            message_number = s.send_count;
          } in
          let full = authenticated_data aad header in
          elim (ok_cases (Aead.encrypt p out.message_key plaintext full)) [
            | inr (why, failed) ↦ absurd (ground (arith, counted, present, derived, failed, h))
            | inl (c, sealed) ↦ ground (
              arith,
              counted,
              present,
              derived,
              sealed,
              h,
              Aead-length p out.message_key plaintext full c tag sealed,
            )
          ]
    ]
  ]
]

module _ (p : Primitives) (b64 : Bytes → String) (ids_to_json : List MessageId → Option Bytes) where
  -- An envelope that was made for a plaintext takes what was reckoned with.
  abbrev Fits : Bytes → Manager → Result EncryptedEnvelope × Manager → Type 0
  Fits plaintext m (err e, after) = after.pending_outbound ≡ m.pending_outbound
  Fits plaintext m (ok envelope, after) =
      (text_length envelope.ciphertext ≤ sealed_len (length plaintext))
      × (after.pending_outbound ≡ m.pending_outbound)

  after_encrypt-Fits :
      (peer : String) (session : PeerSession) (m : Manager) (plaintext : Bytes)
      (r : Error.Result RatchetMessage) (state : SessionState)
      → Base64Length b64
      → ((a : RatchetMessage) → r ≡ Error.ok a → length a.ciphertext ≡ length plaintext + 16)
      → Fits plaintext m (after_encrypt p b64 ids_to_json peer session m r state)
  unfolding after_encrypt
  after_encrypt-Fits peer session m plaintext (Error.err why) state b64_len sized = refl
  after_encrypt-Fits peer session m plaintext (Error.ok a) state b64_len sized =
      (omega (arith, b64_len a.ciphertext, sized a refl), refl)

  advance-Fits :
      (peer : String) (plaintext : Bytes) (m : Manager) (original : Option PeerSession)
      → TagLength p
      → Base64Length b64
      → Fits plaintext m (advance_encryption p b64 ids_to_json peer plaintext original m)
  unfolding advance_encryption
  advance-Fits peer plaintext m none tag b64_len = refl
  advance-Fits peer plaintext m (some session) tag b64_len =
      let aad = envelope_aad p b64 ids_to_json (verifying_key p m.identity) session.prekey_header in
      let r = encrypt p plaintext aad session.ratchet in
      after_encrypt-Fits peer session m plaintext r.0 r.1 b64_len
        (λ a h. length-encrypt p plaintext aad session.ratchet a tag h)

  restore-outbox :
      (peer : String) (o : Option PeerSession) (m : Manager)
      → (restore_entry peer o m).pending_outbound ≡ m.pending_outbound
  unfolding restore_entry
  restore-outbox peer none m = refl
  restore-outbox peer (some s) m = refl

  enqueue-Within :
      (saved : Bool) (peer : String) (m : Manager) (original : Option PeerSession)
      (make : EncryptedEnvelope → PendingOutbound) (plaintext : Bytes)
      (r : Result EncryptedEnvelope × Manager)
      → ((v : EncryptedEnvelope) → ciphertext_len (make v) ≡ text_length v.ciphertext)
      → ensure_capacity m.pending_outbound (length plaintext) ≡ ok tt
      → Fits plaintext m r
      → Within m.pending_outbound
      → Within (enqueue_envelope p b64 ids_to_json saved peer original make r).1.pending_outbound
  unfolding enqueue_envelope settle push_pending
  enqueue-Within saved peer m original make plaintext (err e, after) len room fits h =
      subst Within (sym fits) h
  enqueue-Within true peer m original make plaintext (ok v, after) len room fits h =
      subst (λ xs. Within (xs ++ make v ∷ [])) (sym fits.1)
        (push-Within m.pending_outbound (make v) (length plaintext) room
          (omega (arith, len v, fits.0)))
  enqueue-Within false peer m original make plaintext (ok v, after) len room fits h =
      subst Within (sym (restore-outbox peer original after ∙ fits.1)) h

  pub encrypt_within-Within :
      (saved : Bool) (peer : String) (make : EncryptedEnvelope → PendingOutbound)
      (plaintext : Bytes) (m : Manager) (room : Result (Unit {0}))
      → TagLength p
      → Base64Length b64
      → ((v : EncryptedEnvelope) → ciphertext_len (make v) ≡ text_length v.ciphertext)
      → ensure_capacity m.pending_outbound (length plaintext) ≡ room
      → Within m.pending_outbound
      → Within
          (encrypt_within p b64 ids_to_json saved peer make plaintext room m).1.pending_outbound
  unfolding encrypt_within
  encrypt_within-Within saved peer make plaintext m (err e) tag b64_len len room h = h
  encrypt_within-Within saved peer make plaintext m (ok _) tag b64_len len room h =
      enqueue-Within saved peer m (get peer m.sessions) make plaintext _ len room
        (advance-Fits peer plaintext m (get peer m.sessions) tag b64_len) h
