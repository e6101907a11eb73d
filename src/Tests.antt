-- ===== src/Tests.antt =====
-- Concrete inputs: the properties at data that meets their hypotheses, and runs of the model.
mod Toy
mod Ratchet
mod Queue
mod Prekeys
mod Wire
mod Relay
mod Login
mod Connections
mod Delivery
mod Client
