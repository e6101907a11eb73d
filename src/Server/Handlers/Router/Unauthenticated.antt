-- ===== src/Server/Handlers/Router/Unauthenticated.antt =====
-- server/src/handlers: a connection that is not logged in has no effect on the others.
use cmp.Base.{
  ℕ, String, Bool, true, false, List, Option, none, some, is_some, ◌≡◌, ◌⊎◌, ◌≢◌, inl, inr, arith,
  Bool-cases, nat_eq, refl, ap, ◌∙◌,
}
use cmp.Base.Bytes.{Bytes}
use cmp.Protocol.Types.{UserId, WireOneTimePreKey, PreKeyBundle}
use cmp.Protocol.Messages.{
  ClientMessage, register, auth_challenge, auth_response, upload_prekeys, rotate_signed_prekey,
  fetch_prekey_bundle, send_message, ack, ack_message_sent, typing, send_read_receipt,
  ack_read_receipt, ack_read_receipt_sent,
}
use cmp.Base.Rows.{exists}
use cmp.Server.Db.{Db, Result, ok, err}
use cmp.Server.Users.{Registration, register_atomic, is_user}
use cmp.Server.Prekeys.{inventory_of}
use cmp.Server.World.{World, Externals}
use cmp.Server.Replies.{Session, PendingChallenge, Checked, pass, refuse}
use cmp.Server.Handlers.Auth.{
  validate_registration, after_registration, register_with, handle_register, handle_auth_challenge,
  check_response, log_in, respond_to, handle_auth_response,
}
use cmp.Server.Handlers.Router.{handle_message, serve_session}

register_atomic-kept :
    (db : Db) (r : Registration) (now : ℕ)
    → ((register_atomic db r now).0 ≡ ok true) ⊎ ((register_atomic db r now).1 ≡ db)
unfolding register_atomic
register_atomic-kept db r now = elim (Bool-cases (exists (is_user r.user_id) db.users)) [
  | inl taken ↦ inr (ground (arith, taken))
  | inr free ↦ elim (Bool-cases (exists (inventory_of r.user_id) db.inventory)) [
    | inl had ↦ inr (ground (arith, free, had))
    | inr new ↦ inl (ground (arith, free, new))
  ]
]

after_registration-kept :
    (e : Externals) (tx : ℕ) (s : Session) (uid : String) (w : World) (r : Result Bool)
    → (after_registration e tx s uid w r).1.authed_user ≡ none
    → (r ≢ ok true) × ((after_registration e tx s uid w r).2 ≡ w)
unfolding after_registration
after_registration-kept e tx s uid w (ok true) out = absurd (ground (arith, out))
after_registration-kept e tx s uid w (ok false) out = (λ h. ground (arith, h), refl)
after_registration-kept e tx s uid w (err why) out = (λ h. ground (arith, h), refl)

register_with-kept :
    (e : Externals) (tx : ℕ) (s : Session) (now : ℕ) (w : World) (c : Checked Registration)
    → (register_with e tx s now w c).1.authed_user ≡ none
    → (register_with e tx s now w c).2 ≡ w
unfolding register_with
register_with-kept e tx s now w (refuse m) out = refl
register_with-kept e tx s now w (pass r) out =
    let answer = register_atomic w.db r now in
    let (denied, same) =
      after_registration-kept e tx s r.user_id (record w { db = answer.1 }) answer.0 out in
    elim (register_atomic-kept w.db r now) [
      | inl taken ↦ absurd (denied taken)
      | inr kept ↦ same ∙ ap (λ (d : Db). record w { db = d }) kept
    ]

log_in-kept :
    (e : Externals) (tx : ℕ) (s : Session) (w : World) (c : PendingChallenge)
    (k : Checked (Unit {0}))
    → (log_in e tx s w c k).1.authed_user ≡ none
    → (log_in e tx s w c k).2 ≡ w
unfolding log_in
log_in-kept e tx s w c (refuse m) out = refl
log_in-kept e tx s w c (pass _) out = absurd (ground (arith, out))

respond_to-kept :
    (e : Externals) (tx : ℕ) (s : Session) (text : String) (now : ℕ) (w : World)
    (o : Option PendingChallenge)
    → (respond_to e tx s text now w o).1.authed_user ≡ none
    → (respond_to e tx s text now w o).2 ≡ w
unfolding respond_to
respond_to-kept e tx s text now w none out = refl
respond_to-kept e tx s text now w (some c) out =
    log_in-kept e tx (record s { pending_challenge = none }) w c (check_response e w c text now) out

handle_register-kept :
    (e : Externals) (tx : ℕ) (s : Session) (user : UserId) (bundle : PreKeyBundle)
    (keys : List WireOneTimePreKey) (now : ℕ) (w : World)
    → (handle_register e tx s user bundle keys now w).1.authed_user ≡ none
    → (handle_register e tx s user bundle keys now w).2 ≡ w
unfolding handle_register
handle_register-kept e tx s user bundle keys now w out = elim (Bool-cases (is_some s.authed_user)) [
  | inl auth ↦ ground (arith, auth)
  | inr open_ ↦ ground (
    arith,
    open_,
    out,
    register_with-kept e tx s now w (validate_registration e user bundle keys),
  )
]

handle_auth_response-kept :
    (e : Externals) (tx : ℕ) (s : Session) (text : String) (now : ℕ) (w : World)
    → (handle_auth_response e tx s text now w).1.authed_user ≡ none
    → (handle_auth_response e tx s text now w).2 ≡ w
unfolding handle_auth_response
handle_auth_response-kept e tx s text now w out = elim (Bool-cases (is_some s.authed_user)) [
  | inl auth ↦ ground (arith, auth)
  | inr open_ ↦ ground (arith, open_, out, respond_to-kept e tx s text now w s.pending_challenge)
]

-- A message after which its connection is still not logged in changes nothing that is shared: the
-- database, the registry and what was sent to any channel are what they were.
pub handle_message-kept :
    (e : Externals) (tx : ℕ) (s : Session) (m : ClientMessage) (nonce : Bytes) (now : ℕ) (w : World)
    → (handle_message e tx s m nonce now w).1.authed_user ≡ none
    → (handle_message e tx s m nonce now w).2 ≡ w
unfolding handle_message handle_auth_challenge serve_session
handle_message-kept e tx s (register user bundle keys) nonce now w out =
    handle_register-kept e tx s user bundle keys now w out
handle_message-kept e tx s (auth_challenge _) nonce now w out = ground (arith, out)
handle_message-kept e tx s (auth_response text) nonce now w out =
    handle_auth_response-kept e tx s text now w out
handle_message-kept e tx s (upload_prekeys _ _) nonce now w out = ground (arith, out)
handle_message-kept e tx s (rotate_signed_prekey _ _ _ _) nonce now w out = ground (arith, out)
handle_message-kept e tx s (fetch_prekey_bundle _) nonce now w out = ground (arith, out)
handle_message-kept e tx s (send_message _ _ _) nonce now w out = ground (arith, out)
handle_message-kept e tx s (ack _ _) nonce now w out = ground (arith, out)
handle_message-kept e tx s (ack_message_sent _) nonce now w out = ground (arith, out)
handle_message-kept e tx s (typing _) nonce now w out = ground (arith, out)
handle_message-kept e tx s (send_read_receipt _ _ _) nonce now w out = ground (arith, out)
handle_message-kept e tx s (ack_read_receipt _ _) nonce now w out = ground (arith, out)
handle_message-kept e tx s (ack_read_receipt_sent _) nonce now w out = ground (arith, out)
