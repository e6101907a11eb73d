-- ===== src/Server/Handlers/Router/Login.antt =====
-- server/src/handlers/auth.rs and mod.rs: who can log in on a connection, and what a connection
-- does that has not logged in.
use cmp.Base.{
  ℕ, String, Bool, true, false, List, Option, none, some, ◌≡◌, leb, arith, ◌==◌, nat_eq, length,
  ◌-◌, refl, sym, ap, ◌∙◌,
}
use cmp.Base.Bytes.{Bytes}
use cmp.Protocol.Types.{UserId, WireOneTimePreKey, PreKeyBundle, max_prekeys_per_upload}
use cmp.Protocol.Messages.{
  ClientMessage, register, auth_challenge, auth_response, upload_prekeys, rotate_signed_prekey,
  fetch_prekey_bundle, send_message, ack, ack_message_sent, typing, send_read_receipt,
  ack_read_receipt, ack_read_receipt_sent,
}
use cmp.Server.Db.{Result, ok, err}
use cmp.Server.Users.{Registration, register_atomic, get_identity_key}
use cmp.Server.World.{World, Externals}
use cmp.Server.Replies.{
  Session, PendingChallenge, Checked, pass, refuse, ◌>>=◌, fixed, decode_prekeys,
}
use cmp.Server.Replies.Passed.{passed_value, passed_check, fixed_same}
use cmp.Server.Handlers.Auth.{
  validate_registration, after_registration, register_with, handle_register, handle_auth_challenge,
  signed_data, check_response, log_in, respond_to, handle_auth_response,
}
use cmp.Server.Handlers.Router.{handle_message}

-- The registration holds what the message names: its user, and its keys, decoded.
pub record Decodes (e : Externals) (uid : UserId) (bundle : PreKeyBundle)
    (keys : List WireOneTimePreKey) (r : Registration) : Type 0 where
  pub user_id : r.user_id ≡ uid
  pub identity_key : e.b64_decode bundle.identity_key ≡ some r.identity_key
  pub signed_prekey_id : r.signed_prekey_id ≡ bundle.signed_prekey_id
  pub signed_prekey_public : e.b64_decode bundle.signed_prekey ≡ some r.signed_prekey_public
  pub signed_prekey_signature :
      e.b64_decode bundle.signed_prekey_signature ≡ some r.signed_prekey_signature
  pub one_time_prekeys : decode_prekeys e keys ≡ pass r.one_time_prekeys

-- How a message can log a user in: a registration, with the keys of the message, that the database
-- took and whose signed pre-key the identity key has signed, or the message's signature of the
-- pending challenge under the stored identity key.
pub data Entry (e : Externals) (session : Session) (now : ℕ) (w : World) (user : String)
    : ClientMessage → Type 0 where
  registered :
      (uid : UserId) (bundle : PreKeyBundle) (keys : List WireOneTimePreKey) (r : Registration)
      → uid ≡ user
      → Decodes e uid bundle keys r
      → (register_atomic w.db r now).0 ≡ ok true
      → e.verify r.identity_key r.signed_prekey_public r.signed_prekey_signature ≡ true
      → Entry e session now w user (register uid bundle keys)
  proved :
      (text : String) (c : PendingChallenge) (key signature : Bytes)
      → session.pending_challenge ≡ some c
      → c.user_id ≡ user
      → leb (now - c.timestamp) 60 ≡ true
      → get_identity_key w.db user ≡ some key
      → e.b64_decode text ≡ some signature
      → e.verify key (signed_data e c w.server_id) signature ≡ true
      → Entry e session now w user (auth_response text)

pub record Checks (e : Externals) (c : PendingChallenge) (text : String) (now : ℕ) (w : World)
    : Type 0 where
  key : Bytes
  signature : Bytes
  recent : leb (now - c.timestamp) 60 ≡ true
  stored : get_identity_key w.db c.user_id ≡ some key
  decodes : e.b64_decode text ≡ some signature
  signed : e.verify key (signed_data e c w.server_id) signature ≡ true

check_response-Checks :
    (e : Externals) (w : World) (c : PendingChallenge) (text : String) (now : ℕ)
    → check_response e w c text now ≡ pass tt
    → Checks e c text now w
unfolding check_response
check_response-Checks e w c text now h =
    let (recent, h₁) = passed_check _ _ _ _ h in
    let (key, stored, h₂) = passed_value (get_identity_key w.db c.user_id) _ _ _ h₁ in
    let (vk, v, h₃) = passed_value (fixed 32 key) _ _ _ h₂ in
    let (valid, h₄) = passed_check (e.valid_key vk) _ _ _ h₃ in
    let (bytes, decoded, h₅) = passed_value (e.b64_decode text) _ _ _ h₄ in
    let (signature, s, h₆) = passed_value (fixed 64 bytes) _ _ _ h₅ in
    record {
      key = key;
      signature = bytes;
      recent = recent;
      stored = stored;
      decodes = decoded;
      signed = ground (arith, fixed_same 32 key vk v, fixed_same 64 bytes signature s, h₆);
    }

abbrev Signed : Externals → UserId → PreKeyBundle → List WireOneTimePreKey → Registration → Type 0
Signed e user bundle keys r =
    Decodes e user bundle keys r
    × (e.verify r.identity_key r.signed_prekey_public r.signed_prekey_signature ≡ true)

validate_registration-Signed :
    (e : Externals) (user : UserId) (bundle : PreKeyBundle) (keys : List WireOneTimePreKey)
    (r : Registration)
    → validate_registration e user bundle keys ≡ pass r
    → Signed e user bundle keys r
unfolding validate_registration
validate_registration-Signed e user bundle keys r h =
    let (few, h₁) = passed_check (leb (length keys) max_prekeys_per_upload) _ _ _ h in
    let (identity, i, h₂) = passed_value (e.b64_decode bundle.identity_key) _ _ _ h₁ in
    let (ik, a, h₃) = passed_value (fixed 32 identity) _ _ _ h₂ in
    let (valid, h₄) = passed_check (e.valid_key ik) _ _ _ h₃ in
    let (spk, p, h₅) = passed_value (e.b64_decode bundle.signed_prekey) _ _ _ h₄ in
    let (full, h₆) = passed_check (length spk == 32) _ _ _ h₅ in
    let (bytes, s, h₇) = passed_value (e.b64_decode bundle.signed_prekey_signature) _ _ _ h₆ in
    let (signature, t, h₈) = passed_value (fixed 64 bytes) _ _ _ h₇ in
    let (signed, h₉) = passed_check (e.verify ik spk signature) _ _ _ h₈ in
    elim (decode_prekeys e keys)
        as (λ k.
          (k >>= λ pairs. pass (record {
            user_id = user;
            identity_key = identity;
            signed_prekey_id = bundle.signed_prekey_id;
            signed_prekey_public = spk;
            signed_prekey_signature = bytes;
            one_time_prekeys = pairs;
          }))
            ≡ pass r
          → decode_prekeys e keys ≡ k
          → Signed e user bundle keys r) [
            | refuse m ↦ λ q _. absurd (ground (arith, q))
            | pass pairs ↦ λ q decoded. (
              record {
                user_id = ground (arith, q);
                identity_key = ground (arith, q, i);
                signed_prekey_id = ground (arith, q);
                signed_prekey_public = ground (arith, q, p);
                signed_prekey_signature = ground (arith, q, s);
                one_time_prekeys = ground (arith, q, decoded);
              },
              ground
                  (arith, q, signed, fixed_same 32 identity ik a, fixed_same 64 bytes signature t),
            )
          ]
      h₉ refl

after_registration-Taken :
    (e : Externals) (tx : ℕ) (session : Session) (uid user : String) (w : World) (r : Result Bool)
    → session.authed_user ≡ none
    → (after_registration e tx session uid w r).1.authed_user ≡ some user
    → (uid ≡ user) × (r ≡ ok true)
unfolding after_registration
after_registration-Taken e tx session uid user w (ok true) out h = (ground (arith, h), refl)
after_registration-Taken e tx session uid user w (ok false) out h = absurd (ground (arith, out, h))
after_registration-Taken e tx session uid user w (err why) out h = absurd (ground (arith, out, h))

register_with-Entry :
    (e : Externals) (tx : ℕ) (session : Session) (uid user : String) (bundle : PreKeyBundle)
    (keys : List WireOneTimePreKey) (now : ℕ) (w : World) (c : Checked Registration)
    → ((r : Registration) → c ≡ pass r → Signed e uid bundle keys r)
    → session.authed_user ≡ none
    → (register_with e tx session now w c).1.authed_user ≡ some user
    → Entry e session now w user (register uid bundle keys)
unfolding register_with
register_with-Entry e tx session uid user bundle keys now w (refuse m) checked out h =
    absurd (ground (arith, out, h))
register_with-Entry e tx session uid user bundle keys now w (pass r) checked out h =
    let answer = register_atomic w.db r now in
    let (same, done) =
      after_registration-Taken e tx session r.user_id user (record w { db = answer.1 }) answer.0 out
        h in
    let (named, signed) = checked r refl in
    registered uid bundle keys r (sym named.user_id ∙ same) named done signed

log_in-Passed :
    (e : Externals) (tx : ℕ) (session : Session) (w : World) (c : PendingChallenge) (user : String)
    (k : Checked (Unit {0}))
    → session.authed_user ≡ none
    → (log_in e tx session w c k).1.authed_user ≡ some user
    → (c.user_id ≡ user) × (k ≡ pass tt)
unfolding log_in
log_in-Passed e tx session w c user (refuse m) out h = absurd (ground (arith, out, h))
log_in-Passed e tx session w c user (pass _) out h = (ground (arith, h), refl)

respond_to-Entry :
    (e : Externals) (tx : ℕ) (session : Session) (text : String) (now : ℕ) (w : World)
    (user : String) (pending : Option PendingChallenge)
    → session.pending_challenge ≡ pending
    → session.authed_user ≡ none
    → (respond_to e tx session text now w pending).1.authed_user ≡ some user
    → Entry e session now w user (auth_response text)
unfolding respond_to
respond_to-Entry e tx session text now w user none had out h = absurd (ground (arith, out, h))
respond_to-Entry e tx session text now w user (some c) had out h =
    let (same, passed) =
      log_in-Passed e tx (record session { pending_challenge = none }) w c user
        (check_response e w c text now) out h in
    let checks = check_response-Checks e w c text now passed in
    proved text c checks.key checks.signature had same checks.recent
      (ap (get_identity_key w.db) (sym same) ∙ checks.stored) checks.decodes checks.signed

-- A connection that is not logged in gets logged in only as the user of a registration that the
-- database took, which holds the decoded keys of the message and a signed pre-key that the identity
-- key has signed, or as the user of its pending challenge: at most 60 seconds after the challenge,
-- and with a message that decodes to a signature of the challenge's nonce and time and the server's
-- name that holds under the identity key in the database.
pub handle_message-Entry :
    (e : Externals) (tx : ℕ) (session : Session) (message : ClientMessage) (nonce : Bytes) (now : ℕ)
    (w : World) (user : String)
    → session.authed_user ≡ none
    → (handle_message e tx session message nonce now w).1.authed_user ≡ some user
    → Entry e session now w user message
unfolding handle_message handle_register handle_auth_challenge handle_auth_response
handle_message-Entry e tx session (register uid bundle keys) nonce now w user out h =
    register_with-Entry e tx session uid user bundle keys now w
      (validate_registration e uid bundle keys) (validate_registration-Signed e uid bundle keys) out
      (ground (arith, out, h))
handle_message-Entry e tx session (auth_challenge uid) nonce now w user out h =
    absurd (ground (arith, out, h))
handle_message-Entry e tx session (auth_response text) nonce now w user out h =
    respond_to-Entry e tx session text now w user session.pending_challenge refl out
      (ground (arith, out, h))
handle_message-Entry e tx session (upload_prekeys _ _) nonce now w user out h =
    absurd (ground (arith, out, h))
handle_message-Entry e tx session (rotate_signed_prekey _ _ _ _) nonce now w user out h =
    absurd (ground (arith, out, h))
handle_message-Entry e tx session (fetch_prekey_bundle _) nonce now w user out h =
    absurd (ground (arith, out, h))
handle_message-Entry e tx session (send_message _ _ _) nonce now w user out h =
    absurd (ground (arith, out, h))
handle_message-Entry e tx session (ack _ _) nonce now w user out h = absurd (ground (arith, out, h))
handle_message-Entry e tx session (ack_message_sent _) nonce now w user out h =
    absurd (ground (arith, out, h))
handle_message-Entry e tx session (typing _) nonce now w user out h =
    absurd (ground (arith, out, h))
handle_message-Entry e tx session (send_read_receipt _ _ _) nonce now w user out h =
    absurd (ground (arith, out, h))
handle_message-Entry e tx session (ack_read_receipt _ _) nonce now w user out h =
    absurd (ground (arith, out, h))
handle_message-Entry e tx session (ack_read_receipt_sent _) nonce now w user out h =
    absurd (ground (arith, out, h))
