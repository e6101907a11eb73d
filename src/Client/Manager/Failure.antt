-- ===== src/Client/Manager/Failure.antt =====
-- crypto_mgr.rs: what an operation that fails leaves.
use cmp.Base.{
  String, Bool, true, false, List, Option, none, some, ◌≡◌, arith, refl, ap, ◌∙◌, Bool-cases, inl,
  inr, length, string_eq,
}
use cmp.Base.Bytes.{Bytes}
use cmp.Base.HashMap.{HashMap, get, insert, get-insert}
use cmp.Base.Rows.{exists}
use cmp.Crypto.Primitives.{Primitives}
use cmp.Crypto.Keys.{verifying_key}
use cmp.Crypto.Session.{SessionState, RatchetMessage}
use cmp.Crypto.Error
use cmp.Crypto.Ratchet.{encrypt}
use cmp.Protocol.Types.{UserId, MessageId, EncryptedEnvelope}
use cmp.Protocol.Messages.{ClientMessage}
use cmp.Client.Outbox.{CryptoError, Result, ok, err, PendingOutbound, message, ensure_capacity}
use cmp.Client.Manager.{Manager, PeerSession, push_pending}
use cmp.Client.Manager.Encryption.{
  is_first_message_to, restore_entry, after_encrypt, advance_encryption, envelope_aad, settle,
  enqueue_envelope, encrypt_within, encrypt_message,
}

-- The state is the same: the outbox, the record of messages, and the session of each peer.
pub record Same (a b : Manager) (peer : String) : Type 0 where
  pub same_outbox : a.pending_outbound ≡ b.pending_outbound
  pub same_processed : a.processed_messages ≡ b.processed_messages
  pub same_session : get peer a.sessions ≡ get peer b.sessions

Same-refl : (a : Manager) (peer : String) → Same a a peer
Same-refl a peer = record { same_outbox = refl; same_processed = refl; same_session = refl }

encrypt_error_kept :
    (p : Primitives) (plaintext aad : Bytes) (s : SessionState) (why : Error.CryptoError)
    → (encrypt p plaintext aad s).0 ≡ Error.err why
    → (encrypt p plaintext aad s).1 ≡ s
unfolding encrypt
encrypt_error_kept p plaintext aad s why h = ground (arith, h)

module _ (p : Primitives) (b64 : Bytes → String) (ids_to_json : List MessageId → Option Bytes) where
  -- On an error nothing has changed for the peer.
  abbrev Keeps : {A : Type 0} → Manager → String → Result A × Manager → Type 0
  Keeps m q (ok a, after) = Unit
  Keeps m q (err e, after) = Same after m q

  -- On an error nothing has changed, and on success the original session undoes the change.
  abbrev Undoable :
      Manager → String → String → Option PeerSession → Result EncryptedEnvelope × Manager → Type 0
  Undoable m peer q original (ok envelope, after) = Same (restore_entry peer original after) m q
  Undoable m peer q original (err e, after) = Same after m q

  insert_back :
      (peer q : String) (s t : PeerSession) (m : HashMap String PeerSession)
      → get peer m ≡ some s
      → get q (insert peer s (insert peer t m)) ≡ get q m
  insert_back peer q s t m had = ground (
    arith,
    had,
    get-insert peer q s (insert peer t m),
    get-insert peer q t m,
    string_eq.equal_iff peer q,
    ap (λ k. get k m),
  )

  after_encrypt-Undoable :
      (peer q : String) (session : PeerSession) (m : Manager) (r : Error.Result RatchetMessage)
      (state : SessionState)
      → get peer m.sessions ≡ some session
      → ((why : Error.CryptoError) → r ≡ Error.err why → state ≡ session.ratchet)
      → Undoable m peer q (some session) (after_encrypt p b64 ids_to_json peer session m r state)
  unfolding after_encrypt restore_entry
  after_encrypt-Undoable peer q session m (Error.err why) state had kept = record {
    same_outbox = refl;
    same_processed = refl;
    same_session =
        ap (λ (t : SessionState). get q (insert peer (record session { ratchet = t }) m.sessions))
          (kept why refl)
        ∙ ground (
          arith,
          had,
          get-insert peer q session m.sessions,
          string_eq.equal_iff peer q,
          ap (λ k. get k m.sessions),
        );
  }
  after_encrypt-Undoable peer q session m (Error.ok r) state had kept = record {
    same_outbox = refl;
    same_processed = refl;
    same_session = insert_back peer q session _ m.sessions had;
  }

  advance-Undoable :
      (peer q : String) (plaintext : Bytes) (m : Manager) (original : Option PeerSession)
      → get peer m.sessions ≡ original
      → Undoable m peer q original (advance_encryption p b64 ids_to_json peer plaintext original m)
  unfolding advance_encryption
  advance-Undoable peer q plaintext m none had = Same-refl m q
  advance-Undoable peer q plaintext m (some session) had =
      let aad = envelope_aad p b64 ids_to_json (verifying_key p m.identity) session.prekey_header in
      let r = encrypt p plaintext aad session.ratchet in
      after_encrypt-Undoable peer q session m r.0 r.1 had
        (λ why h. encrypt_error_kept p plaintext aad session.ratchet why h)

  enqueue-Keeps :
      (saved : Bool) (peer q : String) (m : Manager) (original : Option PeerSession)
      (make : EncryptedEnvelope → PendingOutbound) (r : Result EncryptedEnvelope × Manager)
      → Undoable m peer q original r
      → Keeps m q (enqueue_envelope p b64 ids_to_json saved peer original make r)
  unfolding enqueue_envelope settle push_pending
  enqueue-Keeps saved peer q m original make (err e, after) h = h
  enqueue-Keeps true peer q m original make (ok envelope, after) h = tt
  enqueue-Keeps false peer q m original make (ok envelope, after) h = h

  encrypt_within-Keeps :
      (saved : Bool) (peer q : String) (make : EncryptedEnvelope → PendingOutbound)
      (plaintext : Bytes) (room : Result (Unit {0})) (m : Manager)
      → Keeps m q (encrypt_within p b64 ids_to_json saved peer make plaintext room m)
  unfolding encrypt_within
  encrypt_within-Keeps saved peer q make plaintext (err e) m = Same-refl m q
  encrypt_within-Keeps saved peer q make plaintext (ok _) m =
      let original = get peer m.sessions in
      enqueue-Keeps saved peer q m original make
        (advance_encryption p b64 ids_to_json peer plaintext original m)
        (advance-Undoable peer q plaintext m original refl)

  Same-of_Keeps :
      (m : Manager) (q : String) (r : Result ClientMessage × Manager) (e : CryptoError)
      → r.0 ≡ err e
      → Keeps m q r
      → Same r.1 m q
  Same-of_Keeps m q (ok a, after) e h k = absurd (ground (arith, h))
  Same-of_Keeps m q (err e', after) e h k = k

  -- Where a message could not be encrypted, or the store failed, the client is as before: the outbox, the
  -- record of processed messages, and the ratchet session with every peer, so that no message number is
  -- used up.
  pub encrypt_message-Same :
      (saved : Bool) (peer q : String) (recipient : UserId) (id : MessageId) (plaintext : Bytes)
      (m : Manager) (e : CryptoError)
      → (encrypt_message p b64 ids_to_json saved peer recipient id plaintext m).0 ≡ err e
      → Same (encrypt_message p b64 ids_to_json saved peer recipient id plaintext m).1 m q
  unfolding encrypt_message
  encrypt_message-Same saved peer q recipient id plaintext m e h =
      elim (Bool-cases (exists (is_first_message_to recipient) m.pending_outbound)) [
        | inl waiting ↦ rw waiting (Same-refl m q)
        | inr free ↦
            let room = ensure_capacity m.pending_outbound (length plaintext) in
            let r =
              encrypt_within p b64 ids_to_json saved peer (message recipient id) plaintext room m in
            rw free (
              Same-of_Keeps m q r e (ground (arith, h, free))
                (encrypt_within-Keeps saved peer q (message recipient id) plaintext room m))
      ]
