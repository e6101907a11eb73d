-- ===== src/Server/Handlers/Router/History.antt =====
-- server/src/handlers: a connection over time. Between two messages of the connection the others may
-- change the shared state as they like.
use cmp.Base.{ℕ, String, List, [], none, some, ◌≡◌, inl, inr, arith, ap, Option-cases, ◌∙◌, sym}
use cmp.Base.Bytes.{Bytes}
use cmp.Protocol.Messages.{
  ClientMessage, register, auth_challenge, auth_response, upload_prekeys, rotate_signed_prekey,
  fetch_prekey_bundle, send_message, ack, ack_message_sent, typing, send_read_receipt,
  ack_read_receipt, ack_read_receipt_sent,
}
use cmp.Server.World.{World, Externals}
use cmp.Server.Replies.{Session, new_session, PendingChallenge}
use cmp.Server.Handlers.Auth.{handle_register, handle_auth_challenge, handle_auth_response}
use cmp.Server.Handlers.Router.{handle_message}
use cmp.Server.Handlers.Router.Challenges.{asked, Pending, message-Pending}
use cmp.Server.Handlers.Router.Login.{Entry, handle_message-Entry}

-- One run of a connection, with the challenges that its messages asked for, the latest first.
pub data Run (e : Externals) (tx : ℕ) (s : Session) (w : World)
    : List PendingChallenge → Session → World → Type 0 where
  start : Run e tx s w [] s w
  message :
      (cs : List PendingChallenge) (s' : Session) (w' : World) (m : ClientMessage) (nonce : Bytes)
      (now : ℕ)
      → Run e tx s w cs s' w'
      → Run e tx s w
          (asked m nonce now cs)
          (handle_message e tx s' m nonce now w').1
          (handle_message e tx s' m nonce now w').2
  elsewhere :
      (cs : List PendingChallenge) (s' : Session) (w' w'' : World)
      → Run e tx s w cs s' w'
      → Run e tx s w cs s' w''

user_permanent :
    (e : Externals) (tx : ℕ) (s : Session) (m : ClientMessage) (nonce : Bytes) (now : ℕ) (w : World)
    (user : String)
    → s.authed_user ≡ some user
    → (handle_message e tx s m nonce now w).1 ≡ s
unfolding handle_message handle_register handle_auth_challenge handle_auth_response
user_permanent e tx s (register _ _ _) nonce now w user h = ground (arith, h)
user_permanent e tx s (auth_challenge _) nonce now w user h = ground (arith, h)
user_permanent e tx s (auth_response _) nonce now w user h = ground (arith, h)
user_permanent e tx s (upload_prekeys _ _) nonce now w user h = ground (arith, h)
user_permanent e tx s (rotate_signed_prekey _ _ _ _) nonce now w user h = ground (arith, h)
user_permanent e tx s (fetch_prekey_bundle _) nonce now w user h = ground (arith, h)
user_permanent e tx s (send_message _ _ _) nonce now w user h = ground (arith, h)
user_permanent e tx s (ack _ _) nonce now w user h = ground (arith, h)
user_permanent e tx s (ack_message_sent _) nonce now w user h = ground (arith, h)
user_permanent e tx s (typing _) nonce now w user h = ground (arith, h)
user_permanent e tx s (send_read_receipt _ _ _) nonce now w user h = ground (arith, h)
user_permanent e tx s (ack_read_receipt _ _) nonce now w user h = ground (arith, h)
user_permanent e tx s (ack_read_receipt_sent _) nonce now w user h = ground (arith, h)

-- The user of a connection never changes once it is logged in, whatever messages it sends and whatever
-- the other connections do.
pub run-user :
    (e : Externals) (tx : ℕ) (s : Session) (w : World) (user : String) {cs : List PendingChallenge}
    {s' : Session} {w' : World}
    → Run e tx s w cs s' w'
    → s.authed_user ≡ some user
    → s'.authed_user ≡ some user
run-user e tx s w user start h = h
run-user e tx s w user (message cs s' w' m nonce now r) h =
    let ih = run-user e tx s w user r h in
    ap (λ (t : Session). t.authed_user) (user_permanent e tx s' m nonce now w' user ih) ∙ ih
run-user e tx s w user (elsewhere cs s' w' w'' r) h = run-user e tx s w user r h

pub run-Pending :
    (e : Externals) (tx : ℕ) (cancel : ℕ) (w : World) {cs : List PendingChallenge} {s' : Session}
    {w' : World}
    → Run e tx (new_session cancel) w cs s' w'
    → Pending s'.pending_challenge cs
unfolding new_session
run-Pending e tx cancel w start = tt
run-Pending e tx cancel w (message cs s' w' m nonce now r) =
    message-Pending e tx s' m nonce now w' cs (run-Pending e tx cancel w r)
run-Pending e tx cancel w (elsewhere cs s' w' w'' r) = run-Pending e tx cancel w r

-- The moment at which a connection logged its user in: the run up to it, and the message.
pub record Login (e : Externals) (tx : ℕ) (cancel : ℕ) (w : World) (user : String) : Type 0 where
  pub challenges : List PendingChallenge
  pub session : Session
  pub world : World
  pub sent : ClientMessage
  pub now : ℕ
  pub before : Run e tx (new_session cancel) w challenges session world
  pub out : session.authed_user ≡ none
  pub asked_before : Pending session.pending_challenge challenges
  pub entry : Entry e session now world user sent

-- Whatever a connection sends from its opening on, and whatever the other connections do meanwhile: if
-- it is logged in as a user, then at one of its messages it was not, and that message was a
-- registration of this user that the database took, with exactly the keys and the signature that
-- the message encodes and where the identity key has signed the signed pre-key, or answered a
-- challenge for this user that the same connection had asked for before, within 60 seconds and
-- with the encoding of a signature that holds under the identity key in the database.
pub run-Login :
    (e : Externals) (tx : ℕ) (cancel : ℕ) (w : World) (user : String) (cs : List PendingChallenge)
    (s' : Session) (w' : World)
    → Run e tx (new_session cancel) w cs s' w'
    → s'.authed_user ≡ some user
    → Login e tx cancel w user
unfolding new_session
run-Login e tx cancel w user cs s' w' start h = absurd (ground (arith, h))
run-Login e tx cancel w user cs' s'' w'' (message cs s' w' m nonce now r) h =
    elim (Option-cases s'.authed_user) [
      | inl out ↦ record {
        challenges = cs;
        session = s';
        world = w';
        sent = m;
        now = now;
        before = r;
        out = out;
        asked_before = run-Pending e tx cancel w r;
        entry = handle_message-Entry e tx s' m nonce now w' user out h;
      }
      | inr (u, auth) ↦ run-Login e tx cancel w user cs s' w' r (
          sym (ap (λ (t : Session). t.authed_user) (user_permanent e tx s' m nonce now w' u auth))
          ∙ h)
    ]
run-Login e tx cancel w user cs' s'' w₂ (elsewhere cs s' w' w'' r) h =
    run-Login e tx cancel w user cs s' w' r h
