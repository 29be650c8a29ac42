-- ===== src/Server.antt =====
-- The server: faith-server/src.
pub mod EventInbox
pub mod Transport
pub mod FrameReader
pub mod HashMap
pub mod SessRegistry
pub mod Reactor
pub mod Conn
pub mod Platform
pub mod Client
pub mod Steps
pub mod ClientIo
pub mod State
pub mod Events
pub mod Handshake
pub mod Devices
pub mod DeviceLink
pub mod Routing
pub mod Commands
pub mod Dispatch
pub mod Lifecycle
pub mod Loop
pub mod Guards
pub mod Admission
