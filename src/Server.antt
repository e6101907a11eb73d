-- ===== src/Server.antt =====
-- The crate `server`: the database operations of the relay.
pub mod Db
pub mod Queue
pub mod Drain
pub mod Prekeys
pub mod Fetch
pub mod SignedPrekeys
pub mod Users
pub mod Receipts
pub mod World
pub mod Connection
pub mod Replies
pub mod Handlers
pub mod Socket
