-- ===== src/Server/Handlers/Router.antt =====
-- server/src/handlers/mod.rs, `handle_message`: the router. `tx` is the channel to the client, and
-- `nonce` the random draw for a challenge.
pub mod Login
pub mod Unauthenticated
pub mod Challenges
pub mod History
use cmp.Base.{ℕ, String, Bool, true, false, Option, none, some, is_some, if◌then◌else◌}
use cmp.Base.Bytes.{Bytes}
use cmp.Protocol.Messages.{
  ClientMessage, register, auth_challenge, auth_response, upload_prekeys, rotate_signed_prekey,
  fetch_prekey_bundle, send_message, ack, ack_message_sent, typing, send_read_receipt,
  ack_read_receipt, ack_read_receipt_sent, ServerMessage, auth_failure,
}
use cmp.Server.World.{World, Externals}
use cmp.Server.Replies.{Session}
use cmp.Server.Handlers.Auth.{handle_register, handle_auth_challenge, handle_auth_response}
use cmp.Server.Handlers.Prekey.{handle_fetch, handle_upload, handle_signed_prekey_rotation}
use cmp.Server.Handlers.Message.{
  handle_send, handle_ack, handle_message_sent_ack, handle_typing, handle_read_receipt,
  handle_read_receipt_ack, handle_read_receipt_sent_ack,
}

abbrev reply : ServerMessage × World → Option ServerMessage × World
reply (m, w) = (some m, w)

module _ (e : Externals) where
  -- The messages of a user who is logged in.
  unfoldable pub serve_user : String → ClientMessage → ℕ → World → Option ServerMessage × World
  serve_user user (upload_prekeys upload_id prekeys) now w =
      reply (handle_upload e user upload_id prekeys now w)
  serve_user user (rotate_signed_prekey rotation_id key_id public_key signature) now w =
      reply (handle_signed_prekey_rotation e user rotation_id key_id public_key signature w)
  serve_user user (fetch_prekey_bundle target) now w = reply (handle_fetch e user target now w)
  serve_user user (send_message recipient_id message_id envelope) now w =
      reply (handle_send e user recipient_id message_id envelope now w)
  serve_user user (ack ack_id message_ids) now w = handle_ack user ack_id message_ids w
  serve_user user (ack_message_sent message_ids) now w = handle_message_sent_ack user message_ids w
  serve_user user (typing recipient_id) now w = (none, handle_typing e user recipient_id w)
  serve_user user (send_read_receipt recipient_id receipt_id envelope) now w =
      handle_read_receipt e user recipient_id receipt_id envelope w
  serve_user user (ack_read_receipt ack_id receipt_ids) now w =
      reply (handle_read_receipt_ack e user ack_id receipt_ids w)
  serve_user user (ack_read_receipt_sent receipt_ids) now w =
      reply (handle_read_receipt_sent_ack user receipt_ids w)
  serve_user user (register _ _ _) now w = (none, w)
  serve_user user (auth_challenge _) now w = (none, w)
  serve_user user (auth_response _) now w = (none, w)

  -- The match on a message that needs a login: nobody is logged in, or the user is served.
  unfoldable pub serve_session :
      Option String → ClientMessage → ℕ → World → Option ServerMessage × World
  unfolding serve_user
  serve_session none message now w = (some (auth_failure "not authenticated"), w)
  serve_session (some user) message now w = serve_user user message now w

  abbrev answered : ServerMessage × Session × World → Option ServerMessage × Session × World
  answered (m, s, w) = (some m, s, w)

  unfoldable pub handle_message :
      ℕ → Session → ClientMessage → Bytes → ℕ → World → Option ServerMessage × Session × World
  unfolding serve_session
  handle_message tx session (register user_id bundle one_time_prekeys) nonce now w =
      answered (handle_register e tx session user_id bundle one_time_prekeys now w)
  handle_message tx session (auth_challenge user_id) nonce now w =
      answered (handle_auth_challenge e session user_id nonce now w)
  handle_message tx session (auth_response signature) nonce now w =
      answered (handle_auth_response e tx session signature now w)
  handle_message tx session message nonce now w =
      let r = serve_session session.authed_user message now w in (r.0, session, r.1)
