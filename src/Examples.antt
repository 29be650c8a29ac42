-- ===== src/Examples.antt =====
-- Runs of the codec and of the server's parts at concrete values.
pub mod Bodies
pub mod Frames
pub mod Envelopes
pub mod Inboxes
pub mod Queues
pub mod Readers
pub mod Signatures
pub mod Maps
pub mod Registries
pub mod Servers
pub mod Handshakes
pub mod Sending
pub mod Admissions
