-- ===== src/Server/Socket/Ending.antt =====
-- server/src/ws.rs and connection.rs: what a login does to the user's earlier connection, and what the
-- end of a connection does to the registry.
use cmp.Base.{
  ℕ, ◌<◌, String, true, false, List, [], ◌∷◌, some, ◌≡◌, arith, refl, ap, ◌∙◌, nat_eq, string_eq,
  ==-refl,
}
use cmp.Base.HashMap.{get, get-insert}
use cmp.Server.World.{World, Externals, ConnEntry}
use cmp.Server.Connection.{push, displace, insert_connection, remove_if_match}
use cmp.Server.Connection.Registry.{is_owner, owners, get-remove_if_match, insert_connection-online}
use cmp.Server.Replies.{Session, contains}
use cmp.Server.Socket.{
  Frame, replaced, ended, close, other, text, connection_loop, cleanup, handle_connection,
}

-- The state of a connection that a user is logged in on, with the entry that stands for it.
abbrev pub Serves : Session → String → ConnEntry → Type 0
Serves s user entry =
    (s.authed_user ≡ some user) × (s.conn_id ≡ some entry.conn_id) × (s.cancel ≡ entry.cancel)

cancelled_loop :
    (e : Externals) (tx : ℕ) (s : Session) (frames : List Frame) (w : World)
    → contains s.cancel w.cancelled ≡ true
    → ((connection_loop e tx s frames w).1 ≡ s) × ((connection_loop e tx s frames w).2 ≡ w)
unfolding connection_loop
cancelled_loop e tx s [] w h = (refl, refl)
cancelled_loop e tx s (replaced ∷ frames) w h = (refl, refl)
cancelled_loop e tx s (ended ∷ frames) w h = (refl, refl)
cancelled_loop e tx s (close ∷ frames) w h = (refl, refl)
cancelled_loop e tx s (other ∷ frames) w h = (ground (arith, h), ground (arith, h))
cancelled_loop e tx s (text m nonce now ∷ frames) w h = (ground (arith, h), ground (arith, h))

insert_connection-cancelled :
    (e : Externals) (user : String) (tx cancel : ℕ) (old : ConnEntry) (w : World)
    → get user w.online ≡ some old
    → contains old.cancel (insert_connection e user tx cancel w).1.cancelled ≡ true
unfolding insert_connection displace push
insert_connection-cancelled e user tx cancel old w h =
    ground (arith, h, nat_eq.equal_iff old.cancel old.cancel)

stays :
    (user : String) (id : ℕ) (entry : ConnEntry) (w : World)
    → get user w.online ≡ some entry
    → id < entry.conn_id
    → cleanup (some user) (some id) w ≡ w
unfolding cleanup remove_if_match
stays user id entry w served older =
    ground (arith, served, older, nat_eq.equal_iff entry.conn_id id)

gone :
    (user : String) (id : ℕ) (w : World)
    → is_owner ((owners (cleanup (some user) (some id) w)).owner user) id ≡ false
unfolding cleanup
gone user id w = ground (arith, get-remove_if_match user user id w, ==-refl user)

-- Once a user has logged in again, the connection that served the user before has no effect any more: a
-- message that it still reads is not handled, whatever it is, and its end does not remove the newer
-- entry. Its number is smaller than the next one, as the numbers are handed out in order.
pub displaced_no_effect :
    (e : Externals) (user : String) (tx tx' cancel : ℕ) (old : ConnEntry) (s : Session)
    (frames : List Frame) (w : World)
    → get user w.online ≡ some old
    → old.conn_id < w.next_conn_id
    → Serves s user old
    → handle_connection e tx' s frames (insert_connection e user tx cancel w).1
      ≡ (insert_connection e user tx cancel w).1
unfolding handle_connection
displaced_no_effect e user tx tx' cancel old s frames w had older (auth, id, watch) =
    let now = (insert_connection e user tx cancel w).1 in
    let set =
      ap (λ c. contains c now.cancelled) watch
      ∙ insert_connection-cancelled e user tx cancel old w had in
    let (same, quiet) = cancelled_loop e tx' s frames now set in
    let entry : ConnEntry = record { conn_id = w.next_conn_id; sender = tx; cancel = cancel } in
    let served : get user now.online ≡ some entry = ground (
      arith,
      insert_connection-online e user tx cancel w,
      get-insert user user entry w.online,
      ==-refl user,
    ) in
    rw (same, quiet, auth, id) (stays user old.conn_id entry now served older)

-- When a connection has ended on which a user was logged in, the registry does not name it for this
-- user any more, whatever it had received.
pub handle_connection-gone :
    (e : Externals) (tx : ℕ) (s : Session) (frames : List Frame) (w : World) (user : String)
    (id : ℕ)
    → (connection_loop e tx s frames w).1.authed_user ≡ some user
    → (connection_loop e tx s frames w).1.conn_id ≡ some id
    → is_owner ((owners (handle_connection e tx s frames w)).owner user) id ≡ false
unfolding handle_connection
handle_connection-gone e tx s frames w user id auth had = rw (auth, had) (gone user id _)
