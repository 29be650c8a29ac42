-- ===== src/Proto.antt =====
-- faith-proto: the wire protocol that the server and the client share.
pub mod Status
pub mod Codec
pub mod Msg
pub mod Auth
pub mod Commands
pub mod Events
pub mod Core
pub mod Frame
pub mod Envelope
pub mod Disconnect
pub mod Signatures
pub mod Crypto
