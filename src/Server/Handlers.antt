-- ===== src/Server/Handlers.antt =====
-- server/src/handlers: what the relay does with a message of a client. The clock is read once for a
-- message, and a random draw is an argument.
pub mod Auth
pub mod Prekey
pub mod Message
pub mod Delivery
pub mod Router
