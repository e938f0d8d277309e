-- ===== src/Net.antt =====
-- The connection layer of common/: name mapping, connection manager, context pool, dispatcher and
-- the send queue of a socket.
pub mod Mapping
pub mod Connections
pub mod ContextPool
pub mod Dispatcher
pub mod SendQueue
pub mod SendObject
pub mod Delivered
pub mod Server
pub mod Client
pub mod Discovery
pub mod Reading
