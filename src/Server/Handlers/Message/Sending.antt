-- ===== src/Server/Handlers/Message/Sending.antt =====
-- server/src/handlers/message.rs, `handle_send`: what its reply says of the queue.
use cmp.Base.{
  ℕ, String, Bool, true, false, ◌≡◌, ◌≢◌, ◌⊎◌, inl, inr, arith, refl, ap, sym, ◌∙◌, Option, none,
  some, leb, ◌==◌, nat_eq, string_eq, [], ◌∷◌,
}
use cmp.Base.Bytes.{ascii}
use cmp.Protocol.Types.{
  UserId, MessageId, EncryptedEnvelope, MessageHeader, pre_key, established, user_id, utf8_length,
  protocol_version, max_ciphertext_bytes, max_queued_page_bytes,
}
use cmp.Protocol.Messages.{ServerMessage, message_sent, error, InboundMessage}
use cmp.Server.Db.{ok}
use cmp.Server.Handlers.Message.Notifying.{Notified, push_message-Notified}
use cmp.Server.Queue
use cmp.Server.Queue.{EnqueueResult, enqueue}
use cmp.Server.Queue.Retry.{enqueue_refused}
use cmp.Server.World.{World, Externals}
use cmp.Server.Replies.{Checked, pass, refuse, ◌>>=◌, or_refuse, require, fixed}
use cmp.Server.Replies.Passed.{passed_value, passed_check, passed_then}
use cmp.Server.Handlers.Message.{
  Outgoing, validate_b64_len, validate_header, validate_envelope, prepare_send, push_message,
  validate_enqueue_result, after_enqueue, send_with, handle_send,
}

-- The queue has the message: it was put there now, or by an earlier attempt.
abbrev pub IsAccepted : EnqueueResult → Type 0
IsAccepted r = (r ≡ Queue.inserted) ⊎ (r ≡ Queue.duplicate)

-- The request and the pushed message are this message.
pub record Names (e : Externals) (out : Outgoing) (sender : String) (recipient : UserId)
    (id : MessageId) (envelope : EncryptedEnvelope) (now : ℕ) : Type 0 where
  pub message_id : out.request.message_id ≡ id
  pub recipient_id : out.request.recipient_id ≡ recipient
  pub sender_id : out.request.sender_id ≡ sender
  pub stored : e.envelope_to_json envelope ≡ some out.request.envelope_json
  pub pushed_id : out.inbound.message_id ≡ id
  pub pushed_sender : user_id sender ≡ some out.inbound.sender_id
  pub pushed_envelope : out.inbound.envelope ≡ envelope
  pub pushed_time : out.inbound.timestamp ≡ now

-- What a send can do.
pub data Sent (e : Externals) (w : World) (sender : String) (recipient : UserId) (id : MessageId)
    (envelope : EncryptedEnvelope) (now : ℕ) (c : Checked Outgoing)
    : ServerMessage × World → Type 0 where
  accepted :
      (out : Outgoing) (after : World)
      → c ≡ pass out
      → Names e out sender recipient id envelope now
      → IsAccepted (enqueue e.digest w.db out.request now).0
      → Notified e out (record w { db = (enqueue e.digest w.db out.request now).1 }) after
      → Sent e w sender recipient id envelope now c (message_sent out.request.message_id, after)
  rejected :
      (out : Outgoing) (m : ServerMessage)
      → c ≡ pass out
      → Names e out sender recipient id envelope now
      → (enqueue e.digest w.db out.request now).0 ≢ Queue.inserted
      → (enqueue e.digest w.db out.request now).0 ≢ Queue.duplicate
      → m ≢ message_sent id
      → Sent e w sender recipient id envelope now c (m, w)
  malformed :
      (m : ServerMessage)
      → c ≡ refuse m
      → m ≢ message_sent id
      → Sent e w sender recipient id envelope now c (m, w)

-- A refusal of the checks is an `error`.
abbrev Errs {ℓ} : {A : Type ℓ} → Checked A → Type 0
Errs (pass a) = Unit
Errs (refuse m) = (code : ℕ) × (text : String) × (m ≡ error code text)

bind-Errs {ℓ κ} :
    {A : Type ℓ} {B : Type κ} (c : Checked A) (f : A → Checked B)
    → Errs c
    → ((a : A) → Errs (f a))
    → Errs (c >>= f)
bind-Errs (pass a) f h k = k a
bind-Errs (refuse m) f h k = h

or_refuse-Errs {ℓ} :
    {A : Type ℓ} (o : Option A) (code : ℕ) (text : String) → Errs (or_refuse o (error code text))
or_refuse-Errs none code text = (code, text, refl)
or_refuse-Errs (some a) code text = tt

require-Errs : (b : Bool) (code : ℕ) (text : String) → Errs (require b (error code text))
require-Errs true code text = tt
require-Errs false code text = (code, text, refl)

validate_b64_len-Errs : (e : Externals) (n : ℕ) (text : String) → Errs (validate_b64_len e n text)
unfolding validate_b64_len
validate_b64_len-Errs e n text =
    bind-Errs _ _ (or_refuse-Errs (e.b64_decode text) 400 _)
      (λ d. bind-Errs _ _ (or_refuse-Errs (fixed n d) 400 _) (λ a. tt))

validate_header-Errs : (e : Externals) (h : MessageHeader) → Errs (validate_header e h)
unfolding validate_header
validate_header-Errs e (pre_key h) =
    bind-Errs _ _ (validate_b64_len-Errs e 32 h.sender_identity_key) (λ a.
      bind-Errs _ _ (validate_b64_len-Errs e 32 h.sender_ephemeral_key)
        (λ b. validate_b64_len-Errs e 32 h.ratchet.ratchet_key))
validate_header-Errs e (established h) = validate_b64_len-Errs e 32 h.ratchet_key

prepare_send-Errs :
    (e : Externals) (sender : String) (recipient : UserId) (id : MessageId)
    (envelope : EncryptedEnvelope) (now : ℕ)
    → Errs (prepare_send e sender recipient id envelope now)
unfolding prepare_send validate_envelope
prepare_send-Errs e sender recipient id envelope now =
    bind-Errs _ _
      (bind-Errs _ _ (require-Errs (envelope.version == protocol_version) 400 _) (λ a.
        bind-Errs _ _
          (require-Errs (leb (utf8_length (ascii envelope.ciphertext)) max_ciphertext_bytes) 400 _)
          (λ b.
            bind-Errs _ _ (or_refuse-Errs (e.b64_decode envelope.ciphertext) 400 _)
              (λ c. validate_header-Errs e envelope.header))))
      (λ d. bind-Errs _ _ (or_refuse-Errs (user_id sender) 500 _) (λ from.
        bind-Errs _ _ (or_refuse-Errs (e.page_bytes _) 400 _) (λ size.
          bind-Errs _ _ (require-Errs (leb size max_queued_page_bytes) 400 _) (λ f.
            bind-Errs _ _ (or_refuse-Errs (e.envelope_to_json envelope) 400 _) (λ text. tt)))))

-- The reply to an answer of the queue.
enqueue_result_cases :
    (r : EnqueueResult) (id : MessageId)
    → (IsAccepted r × (validate_enqueue_result (ok r) id ≡ pass tt))
      ⊎ ((r ≢ Queue.inserted)
          × (r ≢ Queue.duplicate)
          × ((m : ServerMessage) × (validate_enqueue_result (ok r) id ≡ refuse m)
              × (m ≢ message_sent id)))
unfolding validate_enqueue_result
enqueue_result_cases Queue.inserted id = inl (inl refl, refl)
enqueue_result_cases Queue.duplicate id = inl (inr refl, refl)
enqueue_result_cases Queue.queue_full id =
    inr (λ h. ground (arith, h), λ h. ground (arith, h), (_, refl, λ h. ground (arith, h)))
enqueue_result_cases Queue.recipient_not_found id =
    inr (λ h. ground (arith, h), λ h. ground (arith, h), (_, refl, λ h. ground (arith, h)))
enqueue_result_cases Queue.prekey_reservation_invalid id =
    inr (λ h. ground (arith, h), λ h. ground (arith, h), (_, refl, λ h. ground (arith, h)))
enqueue_result_cases Queue.signed_prekey_expired id =
    inr (λ h. ground (arith, h), λ h. ground (arith, h), (_, refl, λ h. ground (arith, h)))
enqueue_result_cases Queue.message_id_conflict id =
    inr (λ h. ground (arith, h), λ h. ground (arith, h), (_, refl, λ h. ground (arith, h)))
enqueue_result_cases Queue.acceptance_ledger_full id =
    inr (λ h. ground (arith, h), λ h. ground (arith, h), (_, refl, λ h. ground (arith, h)))

send_with-Sent :
    (e : Externals) (w : World) (sender : String) (recipient : UserId) (id : MessageId)
    (envelope : EncryptedEnvelope) (now : ℕ) (c : Checked Outgoing)
    → Errs c
    → ((out : Outgoing) → c ≡ pass out → Names e out sender recipient id envelope now)
    → Sent e w sender recipient id envelope now c (send_with e now w c)
unfolding send_with after_enqueue
send_with-Sent e w sender recipient id envelope now (refuse m) (code, text, same) named =
    malformed m refl (λ h. ground (arith, h, same))
send_with-Sent e w sender recipient id envelope now (pass out) errs named =
    let r = enqueue e.digest w.db out.request now in
    let names = named out refl in
    elim (enqueue_result_cases r.0 out.request.message_id) [
      | inl (done, passed) ↦ rw passed (
          accepted out (push_message e out (record w { db = r.1 })) refl names done
            (push_message-Notified e out (record w { db = r.1 })))
      | inr (a, b, (m, denied, other)) ↦
          rw (denied, enqueue_refused e.digest w.db out.request now a b)
            (rejected out m refl names a b
              (λ h. other (h ∙ ap message_sent (sym names.message_id))))
    ]

prepare_send-Names :
    (e : Externals) (sender : String) (recipient : UserId) (id : MessageId)
    (envelope : EncryptedEnvelope) (now : ℕ) (out : Outgoing)
    → prepare_send e sender recipient id envelope now ≡ pass out
    → Names e out sender recipient id envelope now
unfolding prepare_send
prepare_send-Names e sender recipient id envelope now out h =
    let h₁ = passed_then (validate_envelope e envelope) _ _ h in
    let (from, a, h₂) = passed_value (user_id sender) _ _ _ h₁ in
    let inbound : InboundMessage = record {
      message_id = id;
      sender_id = from;
      envelope = envelope;
      timestamp = now;
    } in
    let (size, b, h₃) = passed_value (e.page_bytes (inbound ∷ [])) _ _ _ h₂ in
    let (fits, h₄) = passed_check (leb size max_queued_page_bytes) _ _ _ h₃ in
    let (text, c, h₅) = passed_value (e.envelope_to_json envelope) _ _ _ h₄ in
    record {
      message_id = ground (arith, h₅);
      recipient_id = ground (arith, h₅);
      sender_id = ground (arith, h₅);
      stored = ground (arith, c, h₅);
      pushed_id = ground (arith, h₅);
      pushed_sender = ground (arith, a, h₅);
      pushed_envelope = ground (arith, h₅);
      pushed_time = ground (arith, h₅);
    }

pub handle_send-Sent :
    (e : Externals) (sender : String) (recipient : UserId) (id : MessageId)
    (envelope : EncryptedEnvelope) (now : ℕ) (w : World)
    → Sent e w sender recipient id envelope now
        (prepare_send e sender recipient id envelope now)
        (handle_send e sender recipient id envelope now w)
unfolding handle_send
handle_send-Sent e sender recipient id envelope now w =
    send_with-Sent e w sender recipient id envelope now
      (prepare_send e sender recipient id envelope now)
      (prepare_send-Errs e sender recipient id envelope now)
      (prepare_send-Names e sender recipient id envelope now)
