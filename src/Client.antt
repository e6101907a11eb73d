-- ===== src/Client.antt =====
-- The crate `client`: its contacts, its outbox and its record of processed messages.
pub mod Store
pub mod Contacts
pub mod Replay
pub mod Outbox
pub mod Manager
