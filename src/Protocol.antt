-- ===== src/Protocol.antt =====
-- The crate `protocol`: what goes over the wire.
pub mod Aad
pub mod Types
pub mod Messages
