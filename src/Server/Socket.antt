-- ===== src/Server/Socket.antt =====
-- server/src/ws.rs: one connection, from its opening to its end. The frames that arrive are a list.
pub mod Ending
use cmp.Base.{
  ℕ, String, Bool, true, false, List, [], ◌∷◌, Option, none, some, is_some, if◌then◌else◌, ◌==◌,
  nat_eq,
}
use cmp.Base.Bytes.{Bytes}
use cmp.Protocol.Messages.{ClientMessage, ServerMessage}
use cmp.Server.World.{World, Externals}
use cmp.Server.Connection.{try_send, remove_if_match}
use cmp.Server.Replies.{Session, contains, error_400}
use cmp.Server.Handlers.Router.{handle_message}
use cmp.Server.Handlers.Delivery.{
  deliver_queued_messages, deliver_queued_receipts, deliver_message_confirmations,
  deliver_prekey_status,
}

-- What `select!` yields: the watch channel has changed, the stream has ended (also by an error), a
-- Close, a text that serde_json decodes or not, with the draw and the time for its handler, or
-- another frame.
pub data Frame : Type 0 where
  replaced ended close other : Frame
  text : Option ClientMessage → Bytes → ℕ → Frame

module _ (e : Externals) where
  -- After a login.
  unfoldable pub welcome : ℕ → String → ℕ → Session → World → Session × World
  welcome tx user now session w =
      let told =
        deliver_message_confirmations e tx user
          (deliver_queued_receipts e tx user (deliver_queued_messages e tx user w)) in
      if session.deliver_prekey_status
      then (
        record session { deliver_prekey_status = false },
        deliver_prekey_status e tx user now told,
      )
      else (session, told)

  unfoldable pub welcome_if_new : Bool → Option String → ℕ → ℕ → Session → World → Session × World
  unfolding welcome
  welcome_if_new false (some user) tx now session w = welcome tx user now session w
  welcome_if_new true (some user) tx now session w = (session, w)
  welcome_if_new was_authed none tx now session w = (session, w)

  -- `if let Some(msg) = response && tx.try_send(msg).is_err() { break; }`: whether to go on.
  unfoldable pub respond : ℕ → Option ServerMessage → World → Bool × World
  respond tx none w = (true, w)
  respond tx (some message) w = try_send e tx message w

  -- A text: whether the loop goes on, and the state.
  unfoldable pub on_text :
      ℕ → Session → Option ClientMessage → Bytes → ℕ → World → Bool × Session × World
  unfolding welcome_if_new respond
  on_text tx session none nonce now w =
      (true, session, (try_send e tx (error_400 "malformed message") w).1)
  on_text tx session (some message) nonce now w =
      let r = handle_message e tx session message nonce now w in
      let sent = respond tx r.0 r.2 in
      let s = welcome_if_new (is_some session.authed_user) r.1.authed_user tx now r.1 sent.1 in
      if sent.0 then (true, s.0, s.1) else (false, r.1, sent.1)

  -- The loop: whether the connection was replaced, and the state.
  unfoldable pub connection_loop : ℕ → Session → List Frame → World → Bool × Session × World
  unfolding on_text
  connection_loop tx session [] w = (false, session, w)
  connection_loop tx session (replaced ∷ frames) w = (true, session, w)
  connection_loop tx session (ended ∷ frames) w = (false, session, w)
  connection_loop tx session (close ∷ frames) w = (contains session.cancel w.cancelled, session, w)
  connection_loop tx session (other ∷ frames) w =
      if contains session.cancel w.cancelled
      then (true, session, w)
      else connection_loop tx session frames w
  connection_loop tx session (text message nonce now ∷ frames) w =
      elim (contains session.cancel w.cancelled) [
        | true ↦ (true, session, w)
        | false ↦
            let r = on_text tx session message nonce now w in
            elim r.0 [ false ↦ (false, r.1, r.2) | true ↦ connection_loop tx r.1 frames r.2 ]
      ]

-- Only an entry with the connection's own id is removed.
unfoldable pub cleanup : Option String → Option ℕ → World → World
cleanup (some user) (some conn_id) w = remove_if_match user conn_id w
cleanup none conn_id w = w
cleanup (some user) none w = w

-- `handle_connection`, less the writer.
unfoldable pub handle_connection : Externals → ℕ → Session → List Frame → World → World
unfolding connection_loop cleanup
handle_connection e tx session frames w =
    let r = connection_loop e tx session frames w in cleanup r.1.authed_user r.1.conn_id r.2
