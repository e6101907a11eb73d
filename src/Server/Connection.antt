-- ===== src/Server/Connection.antt =====
-- server/src/connection.rs: the registry of the users who are online.
pub mod Registry
use cmp.Base.{
  ℕ, ◌+◌, String, Bool, true, false, [], ◌∷◌, ◌++◌, none, some, if◌then◌else◌, ◌==◌, nat_eq,
  string_eq,
}
use cmp.Base.HashMap.{get, remove, insert}
use cmp.Protocol.Messages.{ServerMessage, error}
use cmp.Server.World.{World, Externals, ConnEntry, Attempt}

module _ (e : Externals) where
  unfoldable pub push : Bool → ℕ → ServerMessage → World → Bool × World
  push awaited channel message w =
      let taken = e.takes w.log awaited channel message in
      (
        taken,
        record w {
          log =
              w.log
              ++ record { awaited = awaited; channel = channel; message = message; taken = taken }
                ∷ [];
        },
      )

  abbrev pub try_send : ℕ → ServerMessage → World → Bool × World
  try_send = push false

  abbrev pub send : ℕ → ServerMessage → World → Bool × World
  send = push true

  -- The displaced connection is told, and its watch channel is set.
  unfoldable pub displace : ConnEntry → World → World
  unfolding push
  displace old w =
      let told = (try_send old.sender (error 409 "session replaced by new connection") w).1 in
      record told { cancelled = old.cancel ∷ told.cancelled }

  -- `ConnectionRegistry::insert`. The counter is a u64, and does not wrap within 2^64 connections.
  unfoldable pub insert_connection : String → ℕ → ℕ → World → ℕ × World
  unfolding displace
  insert_connection user_id sender cancel w =
      let entry : ConnEntry = record {
        conn_id = w.next_conn_id;
        sender = sender;
        cancel = cancel;
      } in
      let registered = record w {
        next_conn_id = w.next_conn_id + 1;
        online = insert user_id entry w.online;
      } in
      (
        w.next_conn_id,
        elim (get user_id w.online) [ none ↦ registered | some old ↦ displace old registered ],
      )

  -- `ConnectionRegistry::send_to`.
  unfoldable pub send_to : String → ServerMessage → World → Bool × World
  unfolding push
  send_to user_id message w = elim (get user_id w.online) [
    | none ↦ (false, w)
    | some entry ↦ try_send entry.sender message w
  ]

-- `ConnectionRegistry::remove_if_match`.
unfoldable pub remove_if_match : String → ℕ → World → World
remove_if_match user_id conn_id w = elim (get user_id w.online) [
  | none ↦ w
  | some entry ↦
      if entry.conn_id == conn_id then record w { online = remove user_id w.online } else w
]
