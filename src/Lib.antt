-- ===== src/Lib.antt =====
-- CMP, an end-to-end encrypted messenger: its cryptographic sessions, its relay, and a part of its client.
--
-- The program has four Rust crates. `crypto` (crates/crypto) holds the keys, X3DH and the Double
-- Ratchet. `protocol` (crates/protocol) holds the messages on the wire. `server` (crates/server) is
-- a relay: it keeps public keys, hands out one-time pre-keys, and queues the encrypted messages of
-- users who are away. `client` (crates/client) is the terminal application. A client fetches the
-- pre-keys of a peer from the relay, computes a secret with X3DH, starts a ratchet session from it,
-- and sends the encrypted messages through the relay's queue. The first message names the pre-keys
-- that it used, and the relay accepts it only for the requester that it reserved them for.
--
-- Base.antt and Base/: numbers, lists, equality tests, big-endian bytes, a hash map as a list of
--   entries (`HashMap`), and a database table as the list of its rows (`Rows`).
-- Crypto/Primitives.antt: the third-party functions (HKDF, HMAC, AES-256-GCM, X25519, Ed25519), a
--   parameter of everything in Crypto/. What a theorem needs of them is a hypothesis of the theorem,
--   and Tests/Toy.antt gives functions that meet all of these hypotheses together.
-- Crypto/Error, Kdf, Aead, Keys, X3dh.antt: crates/crypto/src/error.rs, kdf.rs, aead.rs, keys.rs and
--   x3dh.rs. A Rust function keeps its name; `Session::initialize_alice` is `initialize_alice`. A
--   random draw is an argument.
-- Crypto/Session.antt and Crypto/Ratchet.antt: crates/crypto/src/ratchet.rs. `SessionState` has the
--   fields of the Rust struct. An operation on `&mut SessionState` takes the state and returns its
--   result beside the new state, on errors too, so that what was written before an error is seen.
--   The loop of `skip_message_keys` recurses on the rounds that are left. The long functions are cut
--   into named parts: `decrypt` into `decrypt_skipped` and `try_decrypt_inner`, the latter into
--   `dh_step` and `receive`.
-- Protocol/Aad.antt: crates/protocol/src/aad.rs, the context that a caller passes to the ratchet.
-- Server/Db.antt: the tables that crates/server/src/db/schema.rs creates, as one record of lists.
-- Server/Queue.antt and Server/Drain.antt: crates/server/src/db/queue.rs, `enqueue` with its checks,
--   and the operations that read and empty the queue.
-- Server/Prekeys.antt, Server/Fetch.antt, Server/SignedPrekeys.antt: crates/server/src/db/prekeys.rs.
-- Server/Users.antt and Server/Receipts.antt: crates/server/src/db/users.rs and receipts.rs.
--   Each transaction is a function from a database to its answer and the database after it. A
--   transaction is serialised by the one connection of the server, so a history is a list of calls.
--   `Sha256::digest` and the row that SQLite picks where a query leaves it open are parameters, and
--   the clock is an argument.
-- Protocol/Types.antt and Protocol/Messages.antt: crates/protocol/src/types.rs, consts.rs and
--   messages.rs. A text stands for a MessageId.
-- Server/World.antt and Server/Connection.antt: crates/server/src/state.rs and connection.rs. `World`
--   is what the connections share: the database, the registry, the log of all attempts to send to
--   a channel, and the connections that were told to stop. `Externals` holds the third-party
--   functions of the handlers; whether a channel takes a message is one of them.
-- Server/Replies.antt and Server/Handlers/: crates/server/src/handlers/mod.rs, auth.rs, prekey.rs and
--   message.rs. A handler takes the session of its connection and the world and returns its
--   reply beside both. The early returns before a handler asks the database are a chain of
--   checks (`Checked`), and what follows is a function of its result.
-- Server/Socket.antt: crates/server/src/ws.rs, one connection over the frames that arrive.
-- Crypto/Fingerprint.antt: crates/crypto/src/fingerprint.rs, the safety number of two users.
-- Client/Store.antt and Client/Contacts.antt: crates/client/src/db.rs and verification.rs, the identity
--   keys of the peers and the numbers that the user has compared. Client/Outbox.antt,
--   Client/Replay.antt, Client/Manager.antt and Client/Manager/: crates/client/src/crypto_outbox.rs,
--   crypto_replay.rs, crypto_mgr.rs, crypto_mgr_outbound.rs and crypto_mgr_decrypt.rs. An operation
--   of the manager takes as an argument whether SQLite stored its change, and undoes what it did
--   if not. `Manager` and `OwnPrekeys` are two parts of `CryptoManager`.
-- Tests/: the properties at concrete inputs.
--
-- Bounds: a u32 counter is a number with the checks that the code makes against 2^32 - 1; numbers
-- that the code reads as u32 from the database, and that are larger, are an error. No fuel is used:
-- every loop of the code that is modelled runs over a list or down from a count. The loop over the
-- queued messages runs at most 1000 rounds, by the code's own counter.
--
-- Not modelled: the serialization of messages and sessions, the erasure of memory, failures of the
-- database of the server, the task that writes to a socket, and the migrations; of the client, the
-- start of a session from a bundle, the renewal of its own pre-keys, the event loop and the
-- terminal, which are left for later or are input and output.
pub mod Base
pub mod Client
pub mod Crypto
pub mod Protocol
pub mod Server
pub mod Tests
